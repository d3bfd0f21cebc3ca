-- ===== src/Trackpad/Gestures/Dispatch/Moving.antt =====
-- Moving one finger.
use os_x_voodoo_ps2_controll.Base.{ℕ, true, false, not, ◌&&◌, ◌||◌, ◌∷◌, ltb, leb, ◌==◌, sub_u64}
use os_x_voodoo_ps2_controll.Base.Int.{ℤ, pos, ◌+ℤ◌, ◌-ℤ◌}
use os_x_voodoo_ps2_controll.Device.{PointerEvent, relative}
use os_x_voodoo_ps2_controll.Trackpad.Averages.{quotient}
use os_x_voodoo_ps2_controll.Trackpad.Gestures.{
  Mode, no_touch, predrag, drag_no_touch, move, vscroll, hscroll, is_touch_mode, is_mode, pointer,
  Options, Pad, Touch,
}
use os_x_voodoo_ps2_controll.Trackpad.Gestures.Calls.{
  dispatch_relative_pointer_event, magnitude, remainder, is_finger_touch,
}
use os_x_voodoo_ps2_controll.Base.{◌≡◌, refl, arith, ◌∙◌, ap}
use os_x_voodoo_ps2_controll.Trackpad.Gestures.Release.{release_finger, cancel_tap}
use os_x_voodoo_ps2_controll.Trackpad.Gestures.Motion.{palm_free, motion, move_deltas, move_finger}
use os_x_voodoo_ps2_controll.Trackpad.Gestures.Switch.{
  capture_tap, start_drag, start_multi_touch, start_circular, start_vertical, start_horizontal,
  start_move, switch_mode,
}
use os_x_voodoo_ps2_controll.Trackpad.Gestures.Dispatch.{dispatch_motion, finish_touch}

abbrev pub delta_x : Touch → Pad → ℤ
delta_x t p = (t.x -ℤ p.lastx) +ℤ p.xrest

abbrev pub delta_y : Touch → Pad → ℤ
delta_y t p = (p.lasty -ℤ t.y) +ℤ p.yrest

-- One finger that moves on, after the time of a tap, by no more than the limits, on a driver that is not
-- on a ThinkPad.
pub record IsMoving (o : Options) (t : Touch) (p : Pad) : Type 0 where
  pub mode : p.touchmode ≡ move
  pub finger : is_finger_touch o t.z ≡ true
  pub same_fingers : (p.lastf == t.f) ≡ true
  pub free : palm_free o t ≡ true
  pub one : (leb 2 t.w && leb t.w o.wlimit) ≡ true
  pub no_tap :
      (not o.clicking
        || leb o.maxtaptime (sub_u64 t.now_ns p.touchtime) && leb o.maxtaptime (sub_u64 t.now_ns 0))
      ≡ true
  pub small :
      (ltb o.bogusdxthresh (magnitude (delta_x t p))
        || ltb o.bogusdythresh (magnitude (delta_y t p)))
      ≡ false
  pub other_pad : o.isthinkpad ≡ false

-- The driver after the motion, and after the touch has been taken note of.
abbrev moved : Options → Touch → ℕ → Pad → Pad
moved o t time p = record p {
  touchtime = time;
  xrest = remainder (delta_x t p) o.divisorx;
  yrest = remainder (delta_y t p) o.divisory;
}

abbrev noticed : Pad → Pad
noticed p = record p { momentumscrollcurrent = pos 0 }

-- The event of the motion.
abbrev moving_event : Options → Touch → Pad → PointerEvent
moving_event o t p =
    relative (quotient (delta_x t p) o.divisorx) (quotient (delta_y t p) o.divisory) t.buttons
      t.now_abs

abbrev with_deltas : Touch → Pad → Touch
with_deltas t p = record t { dx = delta_x t p; dy = delta_y t p }

not_predrag : (m : Mode) → m ≡ move → is_mode predrag m ≡ false
not_predrag m e = rw e refl

module _ (o : Options) (t : Touch) (p : Pad) (v : IsMoving o t p) where
  not_released : release_finger o t p ≡ (t, p)
  unfolding release_finger
  not_released = ground (arith, v)

  same_but_time : cancel_tap o t p ≡ record p { touchtime = (cancel_tap o t p).touchtime }
  unfolding cancel_tap
  same_but_time = ground (arith, v, not_predrag p.touchmode v.mode)

  tap_gone :
      (not o.clicking || leb o.maxtaptime (sub_u64 t.now_ns (cancel_tap o t p).touchtime)) ≡ true
  unfolding cancel_tap
  tap_gone = ground (arith, v)

  motion_moves :
      (time : ℕ)
      → (not o.clicking || leb o.maxtaptime (sub_u64 t.now_ns time)) ≡ true
      → motion o p.touchmode t (record p { touchtime = time }) ≡ (with_deltas t p, moved o t time p)
  unfolding motion move_finger move_deltas
  motion_moves time h =
      ap (λ m. motion o m t (record p { touchtime = time })) v.mode ∙ ground (arith, v, h)

-- In the mode of moving, a finger changes nothing but the momentum.
module _ (o : Options) (t : Touch) (p : Pad) (mode : p.touchmode ≡ move)
    (finger : is_finger_touch o t.z ≡ true) (one : (leb 2 t.w && leb t.w o.wlimit) ≡ true) where
  captured : capture_tap o t p ≡ noticed p
  unfolding capture_tap
  captured = ground (arith, finger, one, ap is_touch_mode mode)

  drag_same : start_drag o t p ≡ p
  unfolding start_drag
  drag_same = ground (arith, ap (is_mode predrag) mode, ap (is_mode drag_no_touch) mode)

  multi_same : start_multi_touch o t p ≡ p
  unfolding start_multi_touch
  multi_same = ground (arith, one)

  circular_same : start_circular o t p ≡ p
  unfolding start_circular
  circular_same = ground (arith, ap (is_mode no_touch) mode)

  vertical_same : start_vertical o t p ≡ p
  unfolding start_vertical
  vertical_same = ground (arith, ap (is_mode no_touch) mode, ap (is_mode hscroll) mode)

  horizontal_same : start_horizontal o t p ≡ p
  unfolding start_horizontal
  horizontal_same = ground (arith, ap (is_mode no_touch) mode, ap (is_mode vscroll) mode)

  move_same : start_move o t p ≡ p
  unfolding start_move
  move_same = ground (arith, ap (is_mode no_touch) mode)

  switch_same : switch_mode o t p ≡ p
  unfolding switch_mode
  switch_same =
      ap
        (λ q. start_move o t (
          start_horizontal o t (start_vertical o t (start_circular o t (start_multi_touch o t q)))))
        drag_same
      ∙ ap (λ q. start_move o t (start_horizontal o t (start_vertical o t (start_circular o t q))))
          multi_same
      ∙ ap (λ q. start_move o t (start_horizontal o t (start_vertical o t q))) circular_same
      ∙ ap (λ q. start_move o t (start_horizontal o t q)) vertical_same
      ∙ ap (start_move o t) horizontal_same
      ∙ move_same

abbrev at_place : Touch → Pad → Pad
at_place t p = record p { lastx = t.x; lasty = t.y; lastf = t.f }

abbrev after_motion : Options → Touch × Pad → Pad
after_motion o r = at_place r.0 (dispatch_motion o r.0 (switch_mode o r.0 (capture_tap o r.0 r.1)))

abbrev after_release : Options → Touch × Pad → Pad
after_release o r = let p = cancel_tap o r.0 r.1 in after_motion o (motion o p.touchmode r.0 p)

by_stages :
    (o : Options) (t : Touch) (p : Pad)
    → finish_touch o t p ≡ after_release o (release_finger o t p)
unfolding finish_touch
by_stages o t p = refl

-- The driver after the touch.
abbrev pub moved_on : Options → Touch → Pad → Pad
moved_on o t p = record (moved o t (cancel_tap o t p).touchtime p) {
  momentumscrollcurrent = pos 0;
  calls = pointer (moving_event o t p) ∷ p.calls;
  lastx = t.x;
  lasty = t.y;
  lastf = t.f;
}

dispatch_plain :
    (o : Options) (t : Touch) (p : Pad)
    → o.isthinkpad ≡ false
    → dispatch_motion o t p
      ≡ dispatch_relative_pointer_event
          (quotient t.dx o.divisorx)
          (quotient t.dy o.divisory)
          t.buttons
          t.now_abs
          p
unfolding dispatch_motion
dispatch_plain o t p h = rw h refl

pub moving_step :
    (o : Options) (t : Touch) (p : Pad) → IsMoving o t p → finish_touch o t p ≡ moved_on o t p
moving_step o t p v =
    let time = (cancel_tap o t p).touchtime in
    let u = with_deltas t p in
    let q = moved o t time p in
    by_stages o t p
    ∙ ap (after_release o) (not_released o t p v)
    ∙ ap (λ k. after_motion o (motion o k.touchmode t k)) (same_but_time o t p v)
    ∙ ap (after_motion o) (motion_moves o t p v time (tap_gone o t p v))
    ∙ ap (λ k. at_place t (dispatch_motion o u (switch_mode o u k)))
        (captured o u q v.mode v.finger v.one)
    ∙ ap (λ k. at_place t (dispatch_motion o u k))
        (switch_same o u (noticed q) v.mode v.finger v.one)
    ∙ ap (at_place t) (dispatch_plain o u (noticed q) v.other_pad)
