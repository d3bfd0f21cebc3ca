-- ===== src/MiddleButton.antt =====
-- The emulation of a middle button by two buttons pressed together: the state that
-- VoodooPS2Mouse.h and VoodooPS2SynapticsTouchPad.h declare, and the switch that both drivers have.
pub mod Mouse
pub mod Trackpad
pub mod Consistent
pub mod Clicks
mod Tests
use os_x_voodoo_ps2_controll.Base.{
  ℕ, Bool, true, false, not, ◌&&◌, ◌||◌, Option, none, some, List, [], ◌∷◌, ◌++◌, leb, ltb, ◌==◌,
  ◌!=◌, if◌then◌else◌, bit_and, bit_or,
}
use os_x_voodoo_ps2_controll.Device.{PointerEvent, relative}
use os_x_voodoo_ps2_controll.Base.Int.{pos}

-- enum mbuttonstate
pub data ButtonState : Type 0 where
  no_buttons middle wait_for_two wait_for_none noop : ButtonState

pub record Emulator : Type 0 where
  pub state : ButtonState
  pub pending_buttons : ℕ
  pub button_time : ℕ
  -- The timeout that _buttonTimer is armed with.
  pub button_timer : Option ℕ
  pub events : List PointerEvent
  pub max_middle_click_time : ℕ
  pub fake_middle_button : ℕ
  pub button_count : ℕ
  pub ignore_all : Bool

-- `_pendingbuttons = buttons; _buttontime = now_ns; setTimerTimeout(...)`
abbrev pub delay : ℕ → ℕ → ButtonState → Emulator → Emulator
delay buttons now_ns next e = record e {
  state = next;
  pending_buttons = buttons;
  button_time = now_ns;
  button_timer = some e.max_middle_click_time;
}

-- `_pendingbuttons = 0; cancelTimer(_buttonTimer)`
abbrev pub settle : ButtonState → Emulator → Emulator
settle next e = record e { state = next; pending_buttons = 0; button_timer = none }

-- `dispatchRelativePointerEventX(0, 0, buttons, now_abs)`
abbrev pub dispatch : Bool → ℕ → ℕ → Emulator → Emulator
dispatch test buttons now_abs e = record e {
  events = if test then e.events ++ relative (pos 0) (pos 0) buttons now_abs ∷ [] else e.events;
}

abbrev pub idle_or_noop : ℕ → ButtonState
idle_or_noop buttons = if buttons == 0 then no_buttons else noop

-- "modify buttons after new state set"
abbrev pub modify : ButtonState → ℕ → ℕ
modify middle buttons = 4
modify wait_for_none buttons = bit_and buttons 0xffff_fffc
modify wait_for_two buttons = bit_and buttons 0xffff_fffc
modify no_buttons buttons = buttons
modify noop buttons = buttons
