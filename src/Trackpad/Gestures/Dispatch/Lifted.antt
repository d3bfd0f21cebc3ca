-- ===== src/Trackpad/Gestures/Dispatch/Lifted.antt =====
-- The modes after the fingers have left the trackpad.
use os_x_voodoo_ps2_controll.Base.{true, false, ltb}
use os_x_voodoo_ps2_controll.Trackpad.Averages.{reset_average}
use os_x_voodoo_ps2_controll.Trackpad.Gestures.{
  Mode, no_touch, predrag, drag_no_touch, move, vscroll, hscroll, cscroll, multi_touch, drag,
  drag_lock, wait1_release, wait2_tap, wait2_release, is_touch_mode, number_of, Options, Pad, Touch,
}
use os_x_voodoo_ps2_controll.Trackpad.Gestures.Calls.{is_finger_touch}
use os_x_voodoo_ps2_controll.Base.{◌≡◌, refl, arith, ◌∙◌, ap}
use os_x_voodoo_ps2_controll.Trackpad.Gestures.Release.{
  tap, lift, click_in_drag, start_momentum, clear_rests, release, release_finger, cancel_tap,
}
use os_x_voodoo_ps2_controll.Trackpad.Gestures.Motion.{motion}
use os_x_voodoo_ps2_controll.Trackpad.Gestures.Switch.{
  capture_tap, start_drag, start_multi_touch, start_circular, start_vertical, start_horizontal,
  start_move, switch_mode,
}
use os_x_voodoo_ps2_controll.Trackpad.Gestures.Dispatch.{
  dispatch_motion, finish_touch, filter_touch,
}
use os_x_voodoo_ps2_controll.Trackpad.Gestures.Zones.{
  wait_release, disable_zone, watch_zone, is_dropped, is_outside_after_typing,
}

tap-lifted :
    (o : Options) (m : Mode) (t : Touch) (p : Pad) → is_touch_mode (tap o m t p).1.touchmode ≡ false
unfolding tap
tap-lifted o drag t p = refl
tap-lifted o drag_lock t p = refl
tap-lifted o no_touch t p = ground arith
tap-lifted o predrag t p = ground arith
tap-lifted o drag_no_touch t p = ground arith
tap-lifted o move t p = ground arith
tap-lifted o vscroll t p = ground arith
tap-lifted o hscroll t p = ground arith
tap-lifted o cscroll t p = ground arith
tap-lifted o multi_touch t p = ground arith
tap-lifted o wait1_release t p = ground arith
tap-lifted o wait2_tap t p = ground arith
tap-lifted o wait2_release t p = ground arith

lift-lifted : (o : Options) (p : Pad) → is_touch_mode (lift o p).touchmode ≡ false
unfolding lift
lift-lifted o p = ground arith

release-lifted :
    (o : Options) (t : Touch) (p : Pad) → is_touch_mode (release o t p).1.touchmode ≡ false
unfolding release
release-lifted o t p =
    let p1 = start_momentum o (clear_rests t.now_ns p) in
    let p2 : Pad = record p1 {
      time_history = reset_average p1.time_history;
      dy_history = reset_average p1.dy_history;
    } in
    ground (arith, tap-lifted o p2.touchmode t p2, lift-lifted o p2)

motion-lifted :
    (o : Options) (m : Mode) (t : Touch) (p : Pad)
    → is_touch_mode m ≡ false
    → (motion o m t p).1 ≡ p
unfolding motion
motion-lifted o no_touch t p h = refl
motion-lifted o predrag t p h = refl
motion-lifted o drag_no_touch t p h = refl
motion-lifted o wait2_tap t p h = refl
motion-lifted o drag t p h = ground (arith, h)
motion-lifted o drag_lock t p h = ground (arith, h)
motion-lifted o move t p h = ground (arith, h)
motion-lifted o vscroll t p h = ground (arith, h)
motion-lifted o hscroll t p h = ground (arith, h)
motion-lifted o cscroll t p h = ground (arith, h)
motion-lifted o multi_touch t p h = ground (arith, h)
motion-lifted o wait1_release t p h = ground (arith, h)
motion-lifted o wait2_release t p h = ground (arith, h)

no_finger :
    (o : Options) (t : Touch)
    → ltb t.z o.z_finger ≡ true
    → (is_finger_touch o t.z ≡ false) × (ltb o.z_finger t.z ≡ false)
no_finger o t h = ground (arith, h)

capture_tap-lifted :
    (o : Options) (t : Touch) (p : Pad) → ltb t.z o.z_finger ≡ true → capture_tap o t p ≡ p
unfolding capture_tap
capture_tap-lifted o t p h = rw (no_finger o t h).0 refl

start_drag-lifted :
    (o : Options) (t : Touch) (p : Pad) → ltb t.z o.z_finger ≡ true → start_drag o t p ≡ p
unfolding start_drag
start_drag-lifted o t p h = rw (no_finger o t h).0 refl

start_multi_touch-lifted :
    (o : Options) (t : Touch) (p : Pad) → ltb t.z o.z_finger ≡ true → start_multi_touch o t p ≡ p
unfolding start_multi_touch
start_multi_touch-lifted o t p h = ground (no_finger o t h, arith)

start_circular-lifted :
    (o : Options) (t : Touch) (p : Pad) → ltb t.z o.z_finger ≡ true → start_circular o t p ≡ p
unfolding start_circular
start_circular-lifted o t p h = ground (no_finger o t h, arith)

start_vertical-lifted :
    (o : Options) (t : Touch) (p : Pad) → ltb t.z o.z_finger ≡ true → start_vertical o t p ≡ p
unfolding start_vertical
start_vertical-lifted o t p h = ground (no_finger o t h, arith)

start_horizontal-lifted :
    (o : Options) (t : Touch) (p : Pad) → ltb t.z o.z_finger ≡ true → start_horizontal o t p ≡ p
unfolding start_horizontal
start_horizontal-lifted o t p h = ground (no_finger o t h, arith)

start_move-lifted :
    (o : Options) (t : Touch) (p : Pad) → ltb t.z o.z_finger ≡ true → start_move o t p ≡ p
unfolding start_move
start_move-lifted o t p h = ground (no_finger o t h, arith)

-- Without a finger the mode does not change any more, and no tap is captured.
switch-lifted :
    (o : Options) (t : Touch) (p : Pad)
    → ltb t.z o.z_finger ≡ true
    → switch_mode o t (capture_tap o t p) ≡ p
unfolding switch_mode
switch-lifted o t p h =
    start_move-lifted o t _ h
    ∙ start_horizontal-lifted o t _ h
    ∙ start_vertical-lifted o t _ h
    ∙ start_circular-lifted o t _ h
    ∙ start_multi_touch-lifted o t _ h
    ∙ start_drag-lifted o t _ h
    ∙ capture_tap-lifted o t p h

tap-z : (o : Options) (m : Mode) (t : Touch) (p : Pad) → (tap o m t p).0.z ≡ t.z
unfolding tap click_in_drag
tap-z o drag t p = ground arith
tap-z o drag_lock t p = refl
tap-z o no_touch t p = refl
tap-z o predrag t p = refl
tap-z o drag_no_touch t p = refl
tap-z o move t p = refl
tap-z o vscroll t p = refl
tap-z o hscroll t p = refl
tap-z o cscroll t p = refl
tap-z o multi_touch t p = refl
tap-z o wait1_release t p = refl
tap-z o wait2_tap t p = refl
tap-z o wait2_release t p = refl

release_finger-z : (o : Options) (t : Touch) (p : Pad) → (release_finger o t p).0.z ≡ t.z
unfolding release_finger release
release_finger-z o t p =
    let p1 = start_momentum o (clear_rests t.now_ns p) in
    let p2 : Pad = record p1 {
      time_history = reset_average p1.time_history;
      dy_history = reset_average p1.dy_history;
    } in
    ground (arith, tap-z o p2.touchmode t p2)

release_finger-lifted :
    (o : Options) (t : Touch) (p : Pad)
    → ltb t.z o.z_finger ≡ true
    → is_touch_mode (release_finger o t p).1.touchmode ≡ false
unfolding release_finger
release_finger-lifted o t p h = ground (arith, h, release-lifted o t p)

cancel_tap-lifted :
    (o : Options) (t : Touch) (p : Pad)
    → is_touch_mode p.touchmode ≡ false
    → is_touch_mode (cancel_tap o t p).touchmode ≡ false
unfolding cancel_tap
cancel_tap-lifted o t p h = ground (arith, h)

motion-z :
    (o : Options) (m : Mode) (t : Touch) (p : Pad)
    → is_touch_mode m ≡ false
    → (motion o m t p).0.z ≡ t.z
unfolding motion
motion-z o predrag t p h = ground arith
motion-z o no_touch t p h = refl
motion-z o drag_no_touch t p h = refl
motion-z o wait2_tap t p h = refl
motion-z o drag t p h = ground (arith, h)
motion-z o drag_lock t p h = ground (arith, h)
motion-z o move t p h = ground (arith, h)
motion-z o vscroll t p h = ground (arith, h)
motion-z o hscroll t p h = ground (arith, h)
motion-z o cscroll t p h = ground (arith, h)
motion-z o multi_touch t p h = ground (arith, h)
motion-z o wait1_release t p h = ground (arith, h)
motion-z o wait2_release t p h = ground (arith, h)

dispatch_motion-mode :
    (o : Options) (t : Touch) (p : Pad) → (dispatch_motion o t p).touchmode ≡ p.touchmode
unfolding dispatch_motion
dispatch_motion-mode o t p = ground arith

-- Behind the filters, a touch whose pressure is below that of a finger leads to none of the modes that
-- stand for a touch.
pub finish_touch-lifted :
    (o : Options) (t : Touch) (p : Pad)
    → ltb t.z o.z_finger ≡ true
    → is_touch_mode (finish_touch o t p).touchmode ≡ false
unfolding finish_touch
finish_touch-lifted o t p h =
    let (t1, p1) = release_finger o t p in
    let p2 = cancel_tap o t1 p1 in
    let (t2, p3) = motion o p2.touchmode t1 p2 in
    let lifted = cancel_tap-lifted o t1 p1 (release_finger-lifted o t p h) in
    let none_left =
      ap (λ z. ltb z o.z_finger) (motion-z o p2.touchmode t1 p2 lifted ∙ release_finger-z o t p)
      ∙ h in
    ap is_touch_mode (
      dispatch_motion-mode o t2 (switch_mode o t2 (capture_tap o t2 p3))
      ∙ ap (λ q. q.touchmode)
          (switch-lifted o t2 p3 none_left ∙ motion-lifted o p2.touchmode t1 p2 lifted))
    ∙ lifted

-- A trackpad that is turned on drops such a touch only on the way through the disable zone.
dropped-lifted :
    (o : Options) (m : Mode) (t : Touch) (p : Pad)
    → ltb t.z o.z_finger ≡ true
    → p.ignoreall ≡ false
    → p.touchmode ≡ m
    → is_dropped o (disable_zone o m t p) ≡ true
    → is_touch_mode (disable_zone o m t p).touchmode ≡ false
unfolding disable_zone wait_release
dropped-lifted o no_touch t p h on e d = ground (arith, no_finger o t h, ap is_touch_mode e)
dropped-lifted o wait1_release t p h on e d = ground (arith, h)
dropped-lifted o wait2_tap t p h on e d = ground (arith, no_finger o t h, ap is_touch_mode e)
dropped-lifted o wait2_release t p h on e d = ground (arith, h, d, ap number_of e)
dropped-lifted o predrag t p h on e d = ground (arith, on, d, ap number_of e)
dropped-lifted o drag_no_touch t p h on e d = ground (arith, on, d, ap number_of e)
dropped-lifted o move t p h on e d = ground (arith, on, d, ap number_of e)
dropped-lifted o vscroll t p h on e d = ground (arith, on, d, ap number_of e)
dropped-lifted o hscroll t p h on e d = ground (arith, on, d, ap number_of e)
dropped-lifted o cscroll t p h on e d = ground (arith, on, d, ap number_of e)
dropped-lifted o multi_touch t p h on e d = ground (arith, on, d, ap number_of e)
dropped-lifted o drag t p h on e d = ground (arith, on, d, ap number_of e)
dropped-lifted o drag_lock t p h on e d = ground (arith, on, d, ap number_of e)

pub filter_touch-lifted :
    (o : Options) (t : Touch) (p : Pad)
    → ltb t.z o.z_finger ≡ true
    → p.ignoreall ≡ false
    → is_touch_mode (filter_touch o t p).touchmode ≡ false
unfolding filter_touch is_outside_after_typing watch_zone
filter_touch-lifted o t p h on =
    let q = watch_zone o t p in
    ground (
      arith,
      no_finger o t h,
      on,
      finish_touch-lifted o t q h,
      dropped-lifted o p.touchmode t p h on refl,
    )
