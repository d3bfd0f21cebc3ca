-- ===== src/Trackpad/Gestures/Dispatch/Before.antt =====
-- What dispatchEventsWithPacket does with a packet before its filters: the buttons, the tracking of the
-- finger and the clickpad report buttons, and leave the touch as it is.
use os_x_voodoo_ps2_controll.Base.{
  ℕ, ◌≤◌, ◌≡◌, ◌∙◌, refl, arith, Bool, true, false, ◌&&◌, List, ◌==◌, if◌then◌else◌, get_or, inl,
  inr, Bool-cases,
}
use os_x_voodoo_ps2_controll.Trackpad.Gestures.{Options, Pad, Touch}
use os_x_voodoo_ps2_controll.Trackpad.Gestures.Parse.{width_of, touch_of, packet_buttons}
use os_x_voodoo_ps2_controll.Trackpad.Gestures.Clickpad.{clickpad_packet}
use os_x_voodoo_ps2_controll.Trackpad.Gestures.Dispatch.{
  filter_touch, track_finger, touch_packet, dispatch_events,
}
use os_x_voodoo_ps2_controll.Trackpad.Gestures.Dispatch.Kept.{
  Same, Same-trans, Same-refl, packet_buttons-Same, track_finger-Same,
}
use os_x_voodoo_ps2_controll.Trackpad.Gestures.Dispatch.Clicked.{
  SameTouch, track_finger-SameTouch, clickpad_packet-Same,
}

-- The touch and the driver at the filters.
unfoldable pub before_filters : (ℕ → ℕ) → Options → ℕ → List ℕ → Pad → Touch × Pad
before_filters to_ns o now packet p =
    let (buttons, q) = packet_buttons to_ns o now packet p in
    let (t, r) = track_finger to_ns o packet (touch_of o q now (to_ns now) packet buttons) q in
    if o.clickpadtype == 0 then (t, r) else clickpad_packet o packet t r

pub before_filters_lem :
    (to_ns : ℕ → ℕ) (o : Options) (now : ℕ) (packet : List ℕ) (p : Pad)
    → (o.passthru && width_of packet == 3) ≡ false
    → dispatch_events to_ns o now packet p
      ≡ filter_touch o
          (before_filters to_ns o now packet p).0
          (before_filters to_ns o now packet p).1
unfolding before_filters dispatch_events touch_packet
before_filters_lem to_ns o now packet p own = elim (Bool-cases (o.clickpadtype == 0)) [
  | inl e ↦ ground (arith, own, e)
  | inr e ↦ ground (arith, own, e)
]

touch_of-pressure :
    (o : Options) (p : Pad) (now_abs now_ns : ℕ) (packet : List ℕ) (buttons : ℕ)
    → ((touch_of o p now_abs now_ns packet buttons).now_ns ≡ now_ns)
      × ((touch_of o p now_abs now_ns packet buttons).z ≤ get_or packet 2 0)
unfolding touch_of
touch_of-pressure o p now_abs now_ns packet buttons = ground arith

choose-Same :
    {p : Pad} {t : Touch} (b : Bool) (u v : Touch × Pad)
    → Same p u.1 × SameTouch t u.0
    → Same p v.1 × SameTouch t v.0
    → Same p (if b then u else v).1 × SameTouch t (if b then u else v).0
choose-Same true u v a c = a
choose-Same false u v a c = c

pub before_filters-Same :
    (to_ns : ℕ → ℕ) (o : Options) (now : ℕ) (packet : List ℕ) (p : Pad)
    → Same p (before_filters to_ns o now packet p).1
      × ((before_filters to_ns o now packet p).0.now_ns ≡ to_ns now)
      × ((before_filters to_ns o now packet p).0.z ≤ get_or packet 2 0)
unfolding before_filters
before_filters-Same to_ns o now packet p =
    let (buttons, q) = packet_buttons to_ns o now packet p in
    let t0 = touch_of o q now (to_ns now) packet buttons in
    let tracked = track_finger to_ns o packet t0 q in
    let first = packet_buttons-Same to_ns o now packet p in
    let second = track_finger-Same to_ns o packet t0 q in
    let same = track_finger-SameTouch to_ns o packet t0 q in
    let third = clickpad_packet-Same o packet tracked.0 tracked.1 in
    let last =
      choose-Same {p = tracked.1} {t = tracked.0} (o.clickpadtype == 0) tracked
        (clickpad_packet o packet tracked.0 tracked.1)
        (Same-refl, record { same_time = refl; pressure = refl }) third in
    let raw = touch_of-pressure o q now (to_ns now) packet buttons in
    (
      Same-trans first (Same-trans second last.0),
      last.1.same_time ∙ same.same_time ∙ raw.0,
      omega (arith, last.1.pressure, same.pressure, raw.1),
    )
