-- ===== src/Trackpad/Gestures/Second/Still.antt =====
-- A second finger that does not move the pointer.
use os_x_voodoo_ps2_controll.Base.{ℕ, ◌≡◌, arith, true, not, ◌||◌, List, ◌==◌}
use os_x_voodoo_ps2_controll.Base.Int.{ℤ, pos, ◌+ℤ◌, +ℤ_parts, eq_of_parts}
use os_x_voodoo_ps2_controll.Trackpad.Gestures.{Options, Pad, Touch}
use os_x_voodoo_ps2_controll.Trackpad.Gestures.Calls.{set_click_buttons}
use os_x_voodoo_ps2_controll.Trackpad.Gestures.Clickpad.{physical_click}
use os_x_voodoo_ps2_controll.Trackpad.Gestures.Dispatch.Distance.{travelled_x, travelled_y}
use os_x_voodoo_ps2_controll.Trackpad.Gestures.Second.{
  Second, track_second, press_second, second_click, report_second, move_second, finish_second,
  dispatch_events_ew, second_touch_of, start_second, unsmooth_second, smooth_second,
}

abbrev pub travelled : Pad → ℤ × ℤ
travelled p = (travelled_x p.calls, travelled_y p.calls)

zero_left : (z : ℤ) → pos 0 +ℤ z ≡ z
zero_left z = eq_of_parts _ _ (omega (arith, +ℤ_parts (pos 0) z))

set_click_buttons-travelled :
    (o : Options) (b : ℕ) (p : Pad) → travelled (set_click_buttons o b p) ≡ travelled p
unfolding set_click_buttons travelled_x travelled_y
set_click_buttons-travelled o b p = ground arith

physical_click-travelled :
    (o : Options) (packet : List ℕ) (t : Touch) (p : Pad)
    → travelled (physical_click o packet t p).2 ≡ travelled p
unfolding physical_click
physical_click-travelled o packet t p =
    let buttons = (physical_click o packet t p).0 in
    ground
      (arith, set_click_buttons-travelled o buttons (record p { thinkpad_button_state = buttons }))

press_second-travelled :
    (o : Options) (click : ℕ) (t : Touch) (p : Pad)
    → travelled (press_second o click t p) ≡ travelled p
unfolding press_second
press_second-travelled o click t p =
    ground (arith, set_click_buttons-travelled o 2 p, set_click_buttons-travelled o click p)

second_click-travelled :
    (o : Options) (packet : List ℕ) (t : Touch) (p : Pad)
    → travelled (second_click o packet t p).1 ≡ travelled p
unfolding second_click
second_click-travelled o packet t p =
    let r = physical_click o packet t p in
    let p1 = r.2 in
    let p2 = press_second o r.0 r.1 p1 in
    ground (
      arith,
      physical_click-travelled o packet t p,
      press_second-travelled o r.0 r.1 p1,
      set_click_buttons-travelled o 0 p1,
      set_click_buttons-travelled o 0 p2,
    )

report_second-travelled :
    (o : Options) (t : Touch) (p : Pad) → travelled (report_second o (t, p)) ≡ travelled p
unfolding report_second travelled_x travelled_y
report_second-travelled o t p =
    ground (arith, zero_left (travelled_x p.calls), zero_left (travelled_y p.calls))

move_second-travelled :
    (o : Options) (packet : List ℕ) (t : Touch) (p : Pad) (s : Second)
    → (p.clickbuttons == 0 || not p.tracksecondary) ≡ true
    → travelled (move_second o packet t p s).0 ≡ travelled p
unfolding move_second track_second
move_second-travelled o packet t p s h =
    let (t', p') = second_click o packet t p in
    ground (
      arith,
      h,
      report_second-travelled o t p,
      report_second-travelled o t' p',
      second_click-travelled o packet t p,
    )

finish_second-travelled :
    (o : Options) (packet : List ℕ) (t : Touch) (p : Pad) (s : Second)
    → (p.clickbuttons == 0 || not p.tracksecondary) ≡ true
    → travelled (finish_second o packet t p s).0 ≡ travelled p
unfolding finish_second
finish_second-travelled o packet t p s h = ground (arith, move_second-travelled o packet t p s h)

-- Whatever packet of a second finger arrives while no button of the clickpad is held, or as the first
-- of its finger, the pointer does not move: the distance that was reported is what it was.
pub dispatch_events_ew-still :
    (to_ns : ℕ → ℕ) (o : Options) (now : ℕ) (packet : List ℕ) (p : Pad) (s : Second)
    → (p.clickbuttons == 0 || not p.tracksecondary) ≡ true
    → travelled (dispatch_events_ew to_ns o now packet p s).0 ≡ travelled p
unfolding dispatch_events_ew
dispatch_events_ew-still to_ns o now packet p s h =
    let u = unsmooth_second o (second_touch_of o p now (to_ns now) packet) (start_second p s) in
    let v = smooth_second o u.0 u.1 in ground (arith, finish_second-travelled o packet v.0 p v.1 h)
