-- ===== src/Trackpad/Gestures/Dispatch/Ignoring.antt =====
-- What a touch does from the end of the filters on leaves the trackpad turned on or off as it was.
use os_x_voodoo_ps2_controll.Base.{ℕ, ◌||◌, ltb, ◌==◌}
use os_x_voodoo_ps2_controll.Base.Int.{ℤ, ◌+ℤ◌, ◌-ℤ◌}
use os_x_voodoo_ps2_controll.Trackpad.Averages.{reset_average}
use os_x_voodoo_ps2_controll.Trackpad.Gestures.{
  Mode, no_touch, predrag, drag_no_touch, move, vscroll, hscroll, cscroll, multi_touch, drag,
  drag_lock, wait1_release, wait2_tap, wait2_release, Options, Pad, Touch,
}
use os_x_voodoo_ps2_controll.Trackpad.Gestures.Calls.{magnitude}
use os_x_voodoo_ps2_controll.Base.{◌≡◌, refl, arith, Bool-cases, inl, inr, ◌∙◌}
use os_x_voodoo_ps2_controll.Trackpad.Gestures.Release.{
  tap, lift, click_in_drag, start_momentum, clear_rests, release, release_finger, cancel_tap,
}
use os_x_voodoo_ps2_controll.Trackpad.Gestures.Motion.{
  vertical, horizontal, turned, motion, move_deltas, move_finger, remember, scroll_two, two_fingers,
  three_fingers, scroll_edge,
}
use os_x_voodoo_ps2_controll.Trackpad.Gestures.Switch.{
  capture_tap, start_drag, start_multi_touch, start_circular, start_vertical, start_horizontal,
  start_move, switch_mode,
}
use os_x_voodoo_ps2_controll.Trackpad.Gestures.Dispatch.{dispatch_motion, finish_touch}

tap-ignoreall :
    (o : Options) (m : Mode) (t : Touch) (p : Pad) → (tap o m t p).1.ignoreall ≡ p.ignoreall
unfolding tap click_in_drag
tap-ignoreall o drag t p = ground arith
tap-ignoreall o drag_lock t p = refl
tap-ignoreall o no_touch t p = refl
tap-ignoreall o predrag t p = refl
tap-ignoreall o drag_no_touch t p = refl
tap-ignoreall o move t p = refl
tap-ignoreall o vscroll t p = refl
tap-ignoreall o hscroll t p = refl
tap-ignoreall o cscroll t p = refl
tap-ignoreall o multi_touch t p = refl
tap-ignoreall o wait1_release t p = refl
tap-ignoreall o wait2_tap t p = refl
tap-ignoreall o wait2_release t p = refl

start_momentum-ignoreall : (o : Options) (p : Pad) → (start_momentum o p).ignoreall ≡ p.ignoreall
unfolding start_momentum
start_momentum-ignoreall o p = ground arith

lift-ignoreall : (o : Options) (p : Pad) → (lift o p).ignoreall ≡ p.ignoreall
unfolding lift
lift-ignoreall o p = ground arith

release-ignoreall :
    (o : Options) (t : Touch) (p : Pad) → (release_finger o t p).1.ignoreall ≡ p.ignoreall
unfolding release_finger release
release-ignoreall o t p =
    let p1 = start_momentum o (clear_rests t.now_ns p) in
    let p2 : Pad = record p1 {
      time_history = reset_average p1.time_history;
      dy_history = reset_average p1.dy_history;
    } in
    ground (
      arith,
      start_momentum-ignoreall o (clear_rests t.now_ns p),
      tap-ignoreall o p2.touchmode t p2,
      lift-ignoreall o p2,
    )

cancel_tap-ignoreall :
    (o : Options) (t : Touch) (p : Pad) → (cancel_tap o t p).ignoreall ≡ p.ignoreall
unfolding cancel_tap
cancel_tap-ignoreall o t p = ground arith

move_finger-ignoreall :
    (o : Options) (t : Touch) (p : Pad) → (move_finger o t p).1.ignoreall ≡ p.ignoreall
unfolding move_finger move_deltas
move_finger-ignoreall o t p = ground arith

scroll_two-ignoreall :
    (o : Options) (t : Touch) (p : Pad) → (scroll_two o t p).ignoreall ≡ p.ignoreall
unfolding scroll_two remember
scroll_two-ignoreall o t p = ground arith

two_fingers-ignoreall :
    (o : Options) (t : Touch) (p : Pad) → (two_fingers o t p).1.ignoreall ≡ p.ignoreall
unfolding two_fingers move_deltas
two_fingers-ignoreall o t p = ground (arith, scroll_two-ignoreall o t p)

three_fingers-ignoreall :
    (o : Options) (t : Touch) (p : Pad) → (three_fingers o t p).ignoreall ≡ p.ignoreall
unfolding three_fingers
three_fingers-ignoreall o t p = ground arith

scroll_edge-ignoreall :
    (divisor threshold : ℕ) (d : ℤ) (event : ℤ → Pad → Pad) (p : Pad)
    → ((z : ℤ) (q : Pad) → (event z q).ignoreall ≡ q.ignoreall)
    → (scroll_edge divisor threshold d event p).ignoreall ≡ p.ignoreall
unfolding scroll_edge
scroll_edge-ignoreall divisor threshold d event p keeps =
    elim (Bool-cases (ltb (magnitude d) threshold || magnitude d == 0)) [
      | inl e ↦ rw e refl
      | inr e ↦ rw e (keeps _ _)
    ]

motion-ignoreall :
    (o : Options) (m : Mode) (t : Touch) (p : Pad) → (motion o m t p).1.ignoreall ≡ p.ignoreall
unfolding motion
motion-ignoreall o drag t p = move_finger-ignoreall o _ p
motion-ignoreall o drag_lock t p = move_finger-ignoreall o _ p
motion-ignoreall o move t p = move_finger-ignoreall o t p
motion-ignoreall o multi_touch t p =
    ground (arith, three_fingers-ignoreall o t p, two_fingers-ignoreall o t p)
motion-ignoreall o vscroll t p = ground (
  arith,
  scroll_edge-ignoreall o.vscrolldivisor o.scrolldythresh ((t.y -ℤ p.lasty) +ℤ p.scrollrest)
      (vertical t) p (λ z q. refl),
)
motion-ignoreall o hscroll t p = ground (
  arith,
  scroll_edge-ignoreall o.hscrolldivisor o.scrolldxthresh ((p.lastx -ℤ t.x) +ℤ p.scrollrest)
      (horizontal t) p (λ z q. refl),
)
motion-ignoreall o cscroll t p = ground (
  arith,
  scroll_edge-ignoreall o.cscrolldivisor o.scrolldxthresh (turned o t p) (vertical t) p
      (λ z q. refl),
)
motion-ignoreall o no_touch t p = refl
motion-ignoreall o predrag t p = refl
motion-ignoreall o drag_no_touch t p = refl
motion-ignoreall o wait1_release t p = refl
motion-ignoreall o wait2_tap t p = refl
motion-ignoreall o wait2_release t p = refl

capture_tap-ignoreall :
    (o : Options) (t : Touch) (p : Pad) → (capture_tap o t p).ignoreall ≡ p.ignoreall
unfolding capture_tap
capture_tap-ignoreall o t p = ground arith

dispatch_motion-ignoreall :
    (o : Options) (t : Touch) (p : Pad) → (dispatch_motion o t p).ignoreall ≡ p.ignoreall
unfolding dispatch_motion
dispatch_motion-ignoreall o t p = ground arith

start_drag-ignoreall :
    (o : Options) (t : Touch) (p : Pad) → (start_drag o t p).ignoreall ≡ p.ignoreall
unfolding start_drag
start_drag-ignoreall o t p = ground arith

start_multi_touch-ignoreall :
    (o : Options) (t : Touch) (p : Pad) → (start_multi_touch o t p).ignoreall ≡ p.ignoreall
unfolding start_multi_touch
start_multi_touch-ignoreall o t p = ground arith

start_circular-ignoreall :
    (o : Options) (t : Touch) (p : Pad) → (start_circular o t p).ignoreall ≡ p.ignoreall
unfolding start_circular
start_circular-ignoreall o t p = ground arith

start_vertical-ignoreall :
    (o : Options) (t : Touch) (p : Pad) → (start_vertical o t p).ignoreall ≡ p.ignoreall
unfolding start_vertical
start_vertical-ignoreall o t p = ground arith

start_horizontal-ignoreall :
    (o : Options) (t : Touch) (p : Pad) → (start_horizontal o t p).ignoreall ≡ p.ignoreall
unfolding start_horizontal
start_horizontal-ignoreall o t p = ground arith

start_move-ignoreall :
    (o : Options) (t : Touch) (p : Pad) → (start_move o t p).ignoreall ≡ p.ignoreall
unfolding start_move
start_move-ignoreall o t p = ground arith

switch-ignoreall : (o : Options) (t : Touch) (p : Pad) → (switch_mode o t p).ignoreall ≡ p.ignoreall
unfolding switch_mode
switch-ignoreall o t p =
    start_move-ignoreall o t _
    ∙ start_horizontal-ignoreall o t _
    ∙ start_vertical-ignoreall o t _
    ∙ start_circular-ignoreall o t _
    ∙ start_multi_touch-ignoreall o t _
    ∙ start_drag-ignoreall o t p

pub finish_touch-ignoreall :
    (o : Options) (t : Touch) (p : Pad) → (finish_touch o t p).ignoreall ≡ p.ignoreall
unfolding finish_touch
finish_touch-ignoreall o t p =
    let (t1, p1) = release_finger o t p in
    let p2 = cancel_tap o t1 p1 in
    let (t2, p3) = motion o p2.touchmode t1 p2 in
    dispatch_motion-ignoreall o t2 (switch_mode o t2 (capture_tap o t2 p3))
    ∙ switch-ignoreall o t2 (capture_tap o t2 p3)
    ∙ capture_tap-ignoreall o t2 p3
    ∙ motion-ignoreall o p2.touchmode t1 p2
    ∙ cancel_tap-ignoreall o t1 p1
    ∙ release-ignoreall o t p
