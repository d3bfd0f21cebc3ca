-- ===== src/MiddleButton/Consistent.antt =====
-- The invariant of the emulation, for both drivers, and their agreement.
use os_x_voodoo_ps2_controll.Base.{ℕ, ◌≡◌, ◌≢◌, refl, arith, Bool, Option, none, ltb, ◌||◌, sub_u64}
use os_x_voodoo_ps2_controll.MiddleButton.{
  Emulator, ButtonState, no_buttons, middle, wait_for_two, wait_for_none, noop,
}
use os_x_voodoo_ps2_controll.MiddleButton.Mouse
use os_x_voodoo_ps2_controll.MiddleButton.Mouse.{from_timer, from_mouse}
use os_x_voodoo_ps2_controll.MiddleButton.Trackpad

-- A button is pending, and the timer armed, exactly while the emulation waits.
abbrev pub Waits : ButtonState → ℕ → Option ℕ → Type 0
Waits wait_for_two pending timer = (pending ≢ 0) × (timer ≢ none)
Waits wait_for_none pending timer = (pending ≢ 0) × (timer ≢ none)
Waits no_buttons pending timer = (pending ≡ 0) × (timer ≡ none)
Waits middle pending timer = (pending ≡ 0) × (timer ≡ none)
Waits noop pending timer = (pending ≡ 0) × (timer ≡ none)

abbrev pub IsConsistent : Emulator → Type 0
IsConsistent e = Waits e.state e.pending_buttons e.button_timer

mouse_switch :
    (s : ButtonState) (timeout : Bool) (from : Mouse.ComingFrom) (buttons now_abs now_ns : ℕ)
    (e : Emulator)
    → e.state ≡ s
    → Waits s e.pending_buttons e.button_timer
    → IsConsistent (Mouse.switch_state s timeout from buttons now_abs now_ns e)
unfolding Mouse.switch_state
mouse_switch no_buttons timeout from buttons now_abs now_ns e q w = ground arith
mouse_switch s timeout from buttons now_abs now_ns e q w = ground arith

trackpad_switch :
    (s : ButtonState) (timeout : Bool) (from : Trackpad.ComingFrom) (buttons now_abs now_ns : ℕ)
    (e : Emulator)
    → e.state ≡ s
    → Waits s e.pending_buttons e.button_timer
    → IsConsistent (Trackpad.switch_state s timeout from buttons now_abs now_ns e)
unfolding Trackpad.switch_state
trackpad_switch no_buttons timeout from buttons now_abs now_ns e q w = ground arith
trackpad_switch s timeout from buttons now_abs now_ns e q w = ground arith

-- Every call of the mouse's middleButton, whatever the buttons, time and origin, keeps a button
-- pending and the timer armed exactly in the two waiting states.
pub mouse-IsConsistent :
    (to_ns : ℕ → ℕ) (buttons now_abs : ℕ) (from : Mouse.ComingFrom) (e : Emulator)
    → IsConsistent e
    → IsConsistent (Mouse.middle_button to_ns buttons now_abs from e).1
unfolding Mouse.middle_button
mouse-IsConsistent to_ns buttons now_abs from e c = ground (
  arith,
  mouse_switch e.state
      (Mouse.is_timer from || ltb e.max_middle_click_time (sub_u64 (to_ns now_abs) e.button_time))
      from buttons now_abs (to_ns now_abs) e refl c,
)

-- Every call of the touch pad's middleButton, whatever the buttons, time and origin, keeps a button
-- pending and the timer armed exactly in the two waiting states.
pub trackpad-IsConsistent :
    (to_ns : ℕ → ℕ) (buttons now_abs : ℕ) (from : Trackpad.ComingFrom) (e : Emulator)
    → IsConsistent e
    → IsConsistent (Trackpad.middle_button to_ns buttons now_abs from e).1
unfolding Trackpad.middle_button
trackpad-IsConsistent to_ns buttons now_abs from e c = ground (
  arith,
  trackpad_switch e.state
      (Trackpad.is_timer from
        || Trackpad.is_cancel from
        || ltb e.max_middle_click_time (sub_u64 (to_ns now_abs) e.button_time))
      from buttons now_abs (to_ns now_abs) e refl c,
)

-- The trackpad's name for where the mouse's call comes from.
abbrev pub as_trackpad : Mouse.ComingFrom → Trackpad.ComingFrom
as_trackpad from_timer = Trackpad.from_timer
as_trackpad from_mouse = Trackpad.from_trackpad

same_switch :
    (s : ButtonState) (timeout : Bool) (from : Mouse.ComingFrom) (buttons now_abs now_ns : ℕ)
    (e : Emulator)
    → Mouse.switch_state s timeout from buttons now_abs now_ns e
      ≡ Trackpad.switch_state s timeout (as_trackpad from) buttons now_abs now_ns e
unfolding Mouse.switch_state Trackpad.switch_state
same_switch no_buttons timeout from_timer buttons now_abs now_ns e = refl
same_switch s timeout from buttons now_abs now_ns e = ground arith

-- On the calls that the mouse makes, its middleButton answers the same buttons and leaves the same
-- state as the touch pad's.
pub mouse-eq-trackpad :
    (to_ns : ℕ → ℕ) (buttons now_abs : ℕ) (from : Mouse.ComingFrom) (e : Emulator)
    → Mouse.middle_button to_ns buttons now_abs from e
      ≡ Trackpad.middle_button to_ns buttons now_abs (as_trackpad from) e
unfolding Mouse.middle_button Trackpad.middle_button
mouse-eq-trackpad to_ns buttons now_abs from_timer e = rw same_switch refl
mouse-eq-trackpad to_ns buttons now_abs from_mouse e = rw same_switch refl
