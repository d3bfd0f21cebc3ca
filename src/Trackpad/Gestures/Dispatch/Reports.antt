-- ===== src/Trackpad/Gestures/Dispatch/Reports.antt =====
-- The events that only report buttons, and that the emulation of the middle button makes no others.
use os_x_voodoo_ps2_controll.Base.{
  ℕ, ◌≡◌, ◌∙◌, ap, refl, arith, Bool, true, false, ◌&&◌, ◌||◌, sub_u64, List, [], ◌∷◌, ◌++◌, ltb,
  if◌then◌else◌, bit_or,
}
use os_x_voodoo_ps2_controll.Base.Int.{pos, ◌==ℤ◌}
use os_x_voodoo_ps2_controll.Device.{PointerEvent, relative, scroll_wheel}
use os_x_voodoo_ps2_controll.MiddleButton.{
  Emulator, ButtonState, no_buttons, middle, wait_for_two, wait_for_none, noop,
}
use os_x_voodoo_ps2_controll.MiddleButton.Trackpad.{
  ComingFrom, is_timer, is_cancel, switch_state, middle_button,
}
use os_x_voodoo_ps2_controll.Trackpad.Gestures.{
  Call, pointer, swipe, set_scroll_timer, set_drag_timer, cancel_drag_timer, update_led,
  set_mode_byte,
}
use os_x_voodoo_ps2_controll.Trackpad.Gestures.Calls.{report}

-- An event that only reports buttons.
abbrev pub is_still : PointerEvent → Bool
is_still (relative dx dy buttons now) = dx ==ℤ pos 0 && dy ==ℤ pos 0
is_still (scroll_wheel a b c now) = false

-- The motions and the scrolls among the calls.
unfoldable pub motions : List Call → List PointerEvent
motions [] = []
motions (pointer e ∷ calls) = let rest = motions calls in if is_still e then rest else e ∷ rest
motions (swipe s now ∷ calls) = motions calls
motions (set_scroll_timer n ∷ calls) = motions calls
motions (set_drag_timer n ∷ calls) = motions calls
motions (cancel_drag_timer ∷ calls) = motions calls
motions (update_led off ∷ calls) = motions calls
motions (set_mode_byte x ∷ calls) = motions calls

unfoldable pub all_still : List PointerEvent → Bool
all_still [] = true
all_still (e ∷ es) = let rest = all_still es in is_still e && rest

pub report-motions :
    (es : List PointerEvent) (calls : List Call)
    → all_still es ≡ true
    → motions (report es calls) ≡ motions calls
unfolding report motions all_still
report-motions [] calls h = refl
report-motions (e ∷ es) calls h =
    report-motions es (pointer e ∷ calls) (ground (arith, h)) ∙ ground (arith, h)

-- The emulation of the middle button only reports buttons.
switch_state-still :
    (m : ButtonState) (timeout : Bool) (from : ComingFrom) (buttons now_abs now_ns : ℕ)
    (e : Emulator)
    → e.events ≡ []
    → all_still (switch_state m timeout from buttons now_abs now_ns e).events ≡ true
unfolding switch_state all_still
switch_state-still no_buttons timeout from buttons now_abs now_ns e h =
    ground (arith, ap all_still h)
switch_state-still middle timeout from buttons now_abs now_ns e h = ground (arith, ap all_still h)
switch_state-still wait_for_two timeout from buttons now_abs now_ns e h = ground (
  arith,
  ap all_still h,
  ap
      (λ l.
        all_still (l ++ relative (pos 0) (pos 0) (bit_or buttons e.pending_buttons) now_abs ∷ []))
      h,
)
switch_state-still wait_for_none timeout from buttons now_abs now_ns e h = ground (
  arith,
  ap all_still h,
  ap
      (λ l.
        all_still (l ++ relative (pos 0) (pos 0) (bit_or buttons e.pending_buttons) now_abs ∷ []))
      h,
)
switch_state-still noop timeout from buttons now_abs now_ns e h = ground (arith, ap all_still h)

pub middle_button-still :
    (to_ns : ℕ → ℕ) (buttons now : ℕ) (from : ComingFrom) (e : Emulator)
    → e.events ≡ []
    → all_still (middle_button to_ns buttons now from e).1.events ≡ true
unfolding middle_button all_still
middle_button-still to_ns buttons now from e h =
    let timeout =
      is_timer from
      || is_cancel from
      || ltb e.max_middle_click_time (sub_u64 (to_ns now) e.button_time) in
    ground
      (arith, ap all_still h, switch_state-still e.state timeout from buttons now (to_ns now) e h)
