-- ===== src/Trackpad/Gestures/Dispatch/DoubleTap.antt =====
-- The double tap that turns the trackpad off and on, packet by packet.
use mathlib.Core.Path.{subst}
use os_x_voodoo_ps2_controll.Base.{
  ℕ, ◌≡◌, ◌∙◌, ap, sym, refl, arith, true, false, not, ◌&&◌, List, ltb, ◌==◌, get_or, if◌then◌else◌,
}
use os_x_voodoo_ps2_controll.Trackpad.Gestures.{
  no_touch, wait1_release, wait2_tap, wait2_release, is_touch_mode, Options, Pad, Touch,
}
use os_x_voodoo_ps2_controll.Trackpad.Gestures.Parse.{width_of}
use os_x_voodoo_ps2_controll.Trackpad.Gestures.Zones.{
  is_outside_after_typing, watch_zone, is_dropped, is_zone_enabled,
}
use os_x_voodoo_ps2_controll.Trackpad.Gestures.Zones.Toggle.{
  is_tapped, is_lifted, within, first_tap, first_lift, second_tap, second_lift,
}
use os_x_voodoo_ps2_controll.Trackpad.Gestures.Dispatch.{
  finish_touch, filter_touch, dispatch_events,
}
use os_x_voodoo_ps2_controll.Trackpad.Gestures.Dispatch.Before.{
  before_filters, before_filters_lem, before_filters-Same,
}
use os_x_voodoo_ps2_controll.Trackpad.Gestures.Dispatch.Ignoring.{finish_touch-ignoreall}
use os_x_voodoo_ps2_controll.Trackpad.Gestures.Dispatch.Lifted.{finish_touch-lifted}

-- A touch that is not ignored after typing, and that the disable zone keeps.
kept_touch :
    (o : Options) (t : Touch) (p : Pad)
    → is_outside_after_typing o t p ≡ false
    → is_dropped o (watch_zone o t p) ≡ true
    → filter_touch o t p ≡ watch_zone o t p
unfolding filter_touch
kept_touch o t p h d = ground (arith, h, d)

lifted-inside :
    (o : Options) (t : Touch) (p : Pad)
    → is_lifted o t ≡ true
    → is_outside_after_typing o t p ≡ false
unfolding is_outside_after_typing
lifted-inside o t p h = ground (arith, h)

-- A touch that the zone does not keep, unless it has turned the trackpad off.
passed_touch :
    (o : Options) (t : Touch) (p q : Pad)
    → is_lifted o t ≡ true
    → watch_zone o t p ≡ q
    → q.touchmode ≡ no_touch
    → ((filter_touch o t p).ignoreall ≡ q.ignoreall)
      × (is_touch_mode (filter_touch o t p).touchmode ≡ false)
unfolding filter_touch
passed_touch o t p q h e idle =
    let inside = lifted-inside o t p h in
    subst
      (λ r.
        (((if is_outside_after_typing o t p
              then p
              else if is_dropped o r
              then r
              else finish_touch o t r).ignoreall
            ≡ q.ignoreall)
          × (is_touch_mode
                (if is_outside_after_typing o t p
                  then p
                  else if is_dropped o r
                  then r
                  else finish_touch o t r).touchmode
              ≡ false)))
      (sym e)
      (
        ground (arith, inside, finish_touch-ignoreall o t q),
        ground (arith, inside, finish_touch-lifted o t q h, ap is_touch_mode idle),
      )

module _ (to_ns : ℕ → ℕ) (o : Options) where
  -- A packet of the trackpad itself of a tap by one finger in the zone, which is not ignored after
  -- typing, once the finger has been tracked.
  pub record IsTap (now : ℕ) (packet : List ℕ) (p : Pad) : Type 0 where
    pub own : (o.passthru && width_of packet == 3) ≡ false
    pub tapped : is_tapped o (before_filters to_ns o now packet p).0 ≡ true
    pub heeded :
        is_outside_after_typing o
          (before_filters to_ns o now packet p).0
          (before_filters to_ns o now packet p).1
        ≡ false

  -- A packet of the trackpad itself without a finger.
  pub record IsLift (packet : List ℕ) : Type 0 where
    pub own : (o.passthru && width_of packet == 3) ≡ false
    pub lifted : ltb (get_or packet 2 0) o.z_finger ≡ true

  no_pressure :
      (now : ℕ) (packet : List ℕ) (p : Pad)
      → IsLift packet
      → is_lifted o (before_filters to_ns o now packet p).0 ≡ true
  no_pressure now packet p up =
      ground (arith, up.lifted, (before_filters-Same to_ns o now packet p).2)

  -- A time limit, between the times as the touch and the driver have them.
  timely :
      {from from' to to' : ℕ} (limit : ℕ)
      → from' ≡ from
      → to' ≡ to
      → within limit from to ≡ true
      → within limit from' to' ≡ true
  timely {from} {from'} {to} {to'} limit e f h =
      ap (λ n. within limit n to') e ∙ ap (within limit from) f ∙ h

  module _ (on : is_zone_enabled o ≡ true) where
    first_press :
        (now : ℕ) (packet : List ℕ) (p : Pad)
        → p.touchmode ≡ no_touch
        → IsTap now packet p
        → ((dispatch_events to_ns o now packet p).touchmode ≡ wait1_release)
          × ((dispatch_events to_ns o now packet p).touchtime ≡ to_ns now)
          × ((dispatch_events to_ns o now packet p).ignoreall ≡ p.ignoreall)
    first_press now packet p idle tap =
        let (t, q) = before_filters to_ns o now packet p in
        let same = before_filters-Same to_ns o now packet p in
        let w = first_tap o on t q (same.0.mode ∙ idle) tap.tapped in
        let e =
          before_filters_lem to_ns o now packet p tap.own
          ∙ kept_touch o t q tap.heeded (ap (is_dropped o) w ∙ ground (arith, on))
          ∙ w in
        (
          ap (λ (r : Pad). r.touchmode) e,
          ap (λ (r : Pad). r.touchtime) e ∙ same.1,
          ap (λ (r : Pad). r.ignoreall) e ∙ same.0.off,
        )

    first_release :
        (now : ℕ) (packet : List ℕ) (p : Pad)
        → p.touchmode ≡ wait1_release
        → IsLift packet
        → within o.maxtaptime p.touchtime (to_ns now) ≡ true
        → ((dispatch_events to_ns o now packet p).touchmode ≡ wait2_tap)
          × ((dispatch_events to_ns o now packet p).untouchtime ≡ to_ns now)
          × ((dispatch_events to_ns o now packet p).ignoreall ≡ p.ignoreall)
    first_release now packet p waits up quick =
        let (t, q) = before_filters to_ns o now packet p in
        let same = before_filters-Same to_ns o now packet p in
        let h = no_pressure now packet p up in
        let w =
          first_lift o on t q (same.0.mode ∙ waits) h
            (timely o.maxtaptime (same.0.touched) same.1 quick) in
        let e =
          before_filters_lem to_ns o now packet p up.own
          ∙ kept_touch o t q (lifted-inside o t q h) (ap (is_dropped o) w ∙ ground (arith, on))
          ∙ w in
        (
          ap (λ (r : Pad). r.touchmode) e,
          ap (λ (r : Pad). r.untouchtime) e ∙ same.1,
          ap (λ (r : Pad). r.ignoreall) e ∙ same.0.off,
        )

    second_press :
        (now : ℕ) (packet : List ℕ) (p : Pad)
        → p.touchmode ≡ wait2_tap
        → IsTap now packet p
        → within o.maxdragtime p.untouchtime (to_ns now) ≡ true
        → ((dispatch_events to_ns o now packet p).touchmode ≡ wait2_release)
          × ((dispatch_events to_ns o now packet p).touchtime ≡ to_ns now)
          × ((dispatch_events to_ns o now packet p).ignoreall ≡ p.ignoreall)
    second_press now packet p waits tap quick =
        let (t, q) = before_filters to_ns o now packet p in
        let same = before_filters-Same to_ns o now packet p in
        let w =
          second_tap o on t q (same.0.mode ∙ waits) tap.tapped
            (timely o.maxdragtime (same.0.untouched) same.1 quick) in
        let e =
          before_filters_lem to_ns o now packet p tap.own
          ∙ kept_touch o t q tap.heeded (ap (is_dropped o) w ∙ ground (arith, on))
          ∙ w in
        (
          ap (λ (r : Pad). r.touchmode) e,
          ap (λ (r : Pad). r.touchtime) e ∙ same.1,
          ap (λ (r : Pad). r.ignoreall) e ∙ same.0.off,
        )

    second_release :
        (now : ℕ) (packet : List ℕ) (p : Pad)
        → p.touchmode ≡ wait2_release
        → IsLift packet
        → within o.maxtaptime p.touchtime (to_ns now) ≡ true
        → ((dispatch_events to_ns o now packet p).ignoreall ≡ not p.ignoreall)
          × (is_touch_mode (dispatch_events to_ns o now packet p).touchmode ≡ false)
    second_release now packet p waits up quick =
        let (t, q) = before_filters to_ns o now packet p in
        let same = before_filters-Same to_ns o now packet p in
        let h = no_pressure now packet p up in
        let w =
          second_lift o on t q (same.0.mode ∙ waits) h
            (timely o.maxtaptime (same.0.touched) same.1 quick) in
        let e = before_filters_lem to_ns o now packet p up.own in
        let last = passed_touch o t q _ h w refl in
        (
          ap (λ (r : Pad). r.ignoreall) e ∙ last.0 ∙ ap not same.0.off,
          ap (λ (r : Pad). is_touch_mode r.touchmode) e ∙ last.1,
        )

    -- Four packets of the trackpad itself, from the mode without a touch, two taps of one finger in the
    -- disable zone that are not ignored after typing, each let go within the time of a tap, and the
    -- second one within the time of a drag after the first was let go, turn a trackpad whose zone is
    -- enabled off if it was on and on if it was off, and lead to a mode without a touch.
    pub double_tap :
        (now1 now2 now3 now4 : ℕ) (tap1 lift1 tap2 lift2 : List ℕ) (p : Pad)
        → p.touchmode ≡ no_touch
        → IsTap now1 tap1 p
        → IsLift lift1
        → within o.maxtaptime (to_ns now1) (to_ns now2) ≡ true
        → IsTap now3 tap2 (dispatch_events to_ns o now2 lift1 (dispatch_events to_ns o now1 tap1 p))
        → within o.maxdragtime (to_ns now2) (to_ns now3) ≡ true
        → IsLift lift2
        → within o.maxtaptime (to_ns now3) (to_ns now4) ≡ true
        → ((dispatch_events to_ns o now4 lift2 (
              dispatch_events to_ns o now3 tap2 (
                dispatch_events to_ns o now2 lift1
                  (dispatch_events to_ns o now1 tap1 p)))).ignoreall
            ≡ not p.ignoreall)
          × (is_touch_mode
                (dispatch_events to_ns o now4 lift2 (
                  dispatch_events to_ns o now3 tap2 (
                    dispatch_events to_ns o now2 lift1
                      (dispatch_events to_ns o now1 tap1 p)))).touchmode
              ≡ false)
    double_tap now1 now2 now3 now4 tap1 lift1 tap2 lift2 p idle t1 u1 q1 t2 q2 u2 q3 =
        let p1 = dispatch_events to_ns o now1 tap1 p in
        let p2 = dispatch_events to_ns o now2 lift1 p1 in
        let p3 = dispatch_events to_ns o now3 tap2 p2 in
        let a = first_press now1 tap1 p idle t1 in
        let b =
          first_release now2 lift1 p1 a.0 u1
            (ap (λ n. within o.maxtaptime n (to_ns now2)) a.1 ∙ q1) in
        let c =
          second_press now3 tap2 p2 b.0 t2
            (ap (λ n. within o.maxdragtime n (to_ns now3)) b.1 ∙ q2) in
        let d =
          second_release now4 lift2 p3 c.0 u2
            (ap (λ n. within o.maxtaptime n (to_ns now4)) c.1 ∙ q3) in
        (d.0 ∙ ap not (c.2 ∙ b.2 ∙ a.2), d.1)
