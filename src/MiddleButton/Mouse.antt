-- ===== src/MiddleButton/Mouse.antt =====
-- ApplePS2Mouse::middleButton (VoodooPS2Mouse/VoodooPS2Mouse.cpp).
use os_x_voodoo_ps2_controll.Base.{
  ℕ, Bool, true, false, not, ◌&&◌, ◌||◌, leb, ltb, ◌==◌, ◌!=◌, if◌then◌else◌, bit_and, bit_or,
  sub_u64,
}
use os_x_voodoo_ps2_controll.MiddleButton.{
  Emulator, ButtonState, no_buttons, middle, wait_for_two, wait_for_none, noop, delay, settle,
  dispatch, idle_or_noop, modify,
}

-- enum MBComingFrom of VoodooPS2Mouse.h
pub data ComingFrom : Type 0 where
  from_timer from_mouse : ComingFrom

abbrev pub is_timer : ComingFrom → Bool
is_timer from_timer = true
is_timer from_mouse = false

abbrev pub is_mouse : ComingFrom → Bool
is_mouse from_timer = false
is_mouse from_mouse = true

-- One case of the switch for each state.
unfoldable pub switch_state : ButtonState → Bool → ComingFrom → ℕ → ℕ → ℕ → Emulator → Emulator
switch_state no_buttons timeout from buttons now_abs now_ns e =
    if bit_and buttons 4 != 0
    then record e { state = noop }
    else if buttons == 3
    then record e { state = middle }
    else if buttons != 0
    then delay buttons now_ns wait_for_two e
    else e
switch_state wait_for_two timeout from buttons now_abs now_ns e =
    if not timeout && buttons == 3
    then settle middle e
    else if timeout || buttons != e.pending_buttons
    then settle (idle_or_noop buttons) (
        dispatch (is_timer from || bit_and buttons e.pending_buttons == 0)
          (bit_or buttons e.pending_buttons) now_abs e)
    else e
switch_state middle timeout from buttons now_abs now_ns e =
    if buttons == 0
    then record e { state = no_buttons }
    else if bit_and buttons 3 != 3
    then delay buttons now_ns wait_for_none e
    else e
switch_state wait_for_none timeout from buttons now_abs now_ns e =
    if not timeout && buttons == 0
    then settle no_buttons e
    else if timeout || buttons != e.pending_buttons
    then settle (idle_or_noop buttons)
        (dispatch (is_timer from) (bit_or buttons e.pending_buttons) now_abs e)
    else e
switch_state noop timeout from buttons now_abs now_ns e =
    if buttons == 0 then record e { state = no_buttons } else e

-- `to_ns` is absolutetime_to_nanoseconds, of the kernel.
unfoldable pub middle_button : (ℕ → ℕ) → ℕ → ℕ → ComingFrom → Emulator → ℕ × Emulator
middle_button to_ns buttons now_abs from e =
    if e.fake_middle_button == 0 || leb e.button_count 2 || (e.ignore_all && is_mouse from)
    then (buttons, e)
    else let now_ns = to_ns now_abs in
      let timeout = is_timer from || ltb e.max_middle_click_time (sub_u64 now_ns e.button_time) in
      let e' = switch_state e.state timeout from buttons now_abs now_ns e in
      (modify e'.state buttons, e')
