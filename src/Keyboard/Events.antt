-- ===== src/Keyboard/Events.antt =====
-- What dispatchKeyboardEventWithPacket and its helpers change and call: the members of
-- ApplePS2Keyboard that they use, the events that they hand to the HID system, to ACPI, to the power
-- management and to the other drivers, and what those answer.
use os_x_voodoo_ps2_controll.Base.{
  ℕ, ◌+◌, ◌-◌, ◌*◌, ◌/◌, ◌%◌, ◌^◌, Bool, true, Option, none, some, List, ◌∷◌, ◌==◌, if◌then◌else◌,
  bit_and, bit_or,
}
use os_x_voodoo_ps2_controll.Device.{Kernel, KeyInfo}

-- The ACPI methods, by their names: the brightness and the backlight are queried and set, and "RKAx"
-- is called back for the codes e0f0 to e0ff.
pub data Method : Type 0 where
  kbqc kbcm kkqc kkcm : Method
  rka : ℕ → Method

-- The calls that leave the driver.
pub data Effect : Type 0 where
  -- dispatchKeyboardEventX: the code, whether it goes down, and the time.
  key_event : ℕ → Bool → ℕ → Effect
  -- evaluateObject with one number.
  evaluate_object : Method → ℕ → Effect
  -- receivePowerNotification(kIOPMSleepNow)
  sleep_now : Effect
  -- kPS2M_setDisableTouchpad
  set_disable_touchpad : Bool → Effect
  -- kPS2M_notifyKeyPressed
  notify_key_pressed : KeyInfo → Effect
  -- setProperties of the HID system, with kHIDFKeyMode.
  set_fkey_mode : ℕ → Effect

-- What `_timerFunc` says.
pub data TimerFunc : Type 0 where
  timer_sleep timer_eject : TimerFunc

-- `effects` are the calls made so far, the newest first; `sleep_eject_timer` is the timeout that is
-- set; `caps_first_time` is the static variable `firsttime`; `clock_reads` counts the readings of the
-- clock.
pub record Typist : Type 0 where
  pub modifier_state : ℕ
  pub timer_func : TimerFunc
  pub sleep_eject_timer : Option ℕ
  pub caps_first_time : Bool
  pub clock_reads : ℕ
  pub effects : List Effect

-- The members that a packet does not change. The levels are null if ACPI has no methods for them; an
-- entry is a 32-bit number, which is compared as an `int`.
pub record Settings : Type 0 where
  pub ps2_to_ps2_map : List ℕ
  pub ps2_to_adb_map : List ℕ
  pub ps2_flags : List ℕ
  pub key_bit_vector : List ℕ
  pub brightness_levels : Option (List ℕ)
  pub backlight_levels : Option (List ℕ)
  pub brightness_hack : Bool
  pub has_provider : Bool
  pub fkeymode : ℕ
  pub fkeymodesupported : Bool
  pub maxsleeppresstime : ℕ
  pub f12ejectdelay : ℕ
  pub version_major : ℕ

-- What the rest of the system answers, after the calls that are listed: evaluateInteger (`none` for
-- an error), OSNumber::withNumber (whether it gives an object), getPMRootDomain, the message
-- kPS2M_getDisableTouchpad, whether a driver that hears of a key sets `eatKey`, and whether the HID
-- system and the objects for its properties can be had.
pub record World : Type 0 where
  pub kernel : Kernel
  pub evaluate_integer : Method → List Effect → Option ℕ
  pub gives_number : List Effect → Bool
  pub has_power_root : List Effect → Bool
  pub touchpad_disabled : List Effect → Bool
  pub eats_key : KeyInfo → List Effect → Bool
  pub has_hid_system : List Effect → Bool

abbrev pub perform : Effect → Typist → Typist
perform e s = record s { effects = e ∷ s.effects }

-- dispatchKeyboardEventX
abbrev pub dispatch_keyboard_event : ℕ → Bool → ℕ → Typist → Typist
dispatch_keyboard_event code down time s = perform (key_event code down time) s

-- "clock_get_uptime(&now_abs); dispatchKeyboardEventX(...)"
abbrev pub dispatch_keyboard_event_now : World → ℕ → Bool → Typist → Typist
dispatch_keyboard_event_now w code down s =
    perform (key_event code down (w.kernel.uptime s.clock_reads))
      (record s { clock_reads = s.clock_reads + 1 })

-- Masks of `_PS2modifierState`.
abbrev pub mask_left_control : ℕ
mask_left_control = 0x0001

abbrev pub mask_left_shift : ℕ
mask_left_shift = 0x0004

abbrev pub mask_left_alt : ℕ
mask_left_alt = 0x0010

abbrev pub mask_left_windows : ℕ
mask_left_windows = 0x0040

-- checkModifierState
abbrev pub check_modifier_state : ℕ → Typist → Bool
check_modifier_state mask s = mask == bit_and s.modifier_state mask

-- "tracking modifier key state", with a mask of 16 bits.
unfoldable pub track_modifiers : ℕ → Bool → Typist → Typist
track_modifiers flags down s =
    let number = flags / 256 in
    let mask : ℕ = 2 ^ (number - 1) % 2 ^ 16 in
    if number == 0
    then s
    else if down
    then record s { modifier_state = bit_or s.modifier_state mask }
    else record s { modifier_state = bit_and s.modifier_state (2 ^ 16 - 1 - mask) }

-- The argument of an ACPI method or a property.
abbrev pub as_number : Bool → ℕ
as_number down = if down then 1 else 0

-- onSleepEjectTimer
unfoldable pub on_sleep_eject_timer : World → Typist → Typist
on_sleep_eject_timer w s = elim s.timer_func [
  | timer_sleep ↦ if w.has_power_root s.effects then perform sleep_now s else s
  | timer_eject ↦ dispatch_keyboard_event_now w 0x92 true s
]

-- A timeout of so many milliseconds, in nanoseconds, and none at 0.
abbrev pub start_timer : World → ℕ → Typist → Typist
start_timer w ms s =
    if ms == 0
    then on_sleep_eject_timer w s
    else record s { sleep_eject_timer = some (ms * 1000000) }

abbrev pub cancel_timer : Typist → Typist
cancel_timer s = record s { sleep_eject_timer = none }
