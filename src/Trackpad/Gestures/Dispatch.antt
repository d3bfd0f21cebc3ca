-- ===== src/Trackpad/Gestures/Dispatch.antt =====
-- dispatchEventsWithPacket, for every packet but those of a second finger in extended W mode, and the
-- timers of dragging and of momentum scrolling.
pub mod Reports
pub mod Kept
pub mod Clicked
pub mod Before
pub mod Lifted
pub mod DoubleTap
pub mod Ignoring
pub mod Disabled
pub mod Moving
pub mod Distance
use os_x_voodoo_ps2_controll.Base.{
  ℕ, true, false, not, ◌&&◌, List, ltb, ◌==◌, ◌!=◌, if◌then◌else◌, bit_and, bit_or, get_or,
}
use os_x_voodoo_ps2_controll.Base.Int.{pos, ◌+ℤ◌, ◌*ℤ◌, ◌==ℤ◌}
use os_x_voodoo_ps2_controll.MiddleButton.Trackpad.{from_passthru, from_cancel}
use os_x_voodoo_ps2_controll.Trackpad.Averages.{quotient}
use os_x_voodoo_ps2_controll.Trackpad.Gestures.{no_touch, set_scroll_timer, Options, Pad, Touch}
use os_x_voodoo_ps2_controll.Trackpad.Gestures.Calls.{
  call, dispatch_relative_pointer_event, dispatch_scroll_wheel_event, magnitude, remainder, middle,
}
use os_x_voodoo_ps2_controll.Trackpad.Gestures.Parse.{
  width_of, touch_of, packet_buttons, passthru_packet, finger_change, unsmooth, smooth,
  ignore_deltas,
}
use os_x_voodoo_ps2_controll.Trackpad.Gestures.Clickpad.{clickpad_packet}
use os_x_voodoo_ps2_controll.Trackpad.Gestures.Zones.{
  is_outside_after_typing, watch_zone, is_dropped,
}
use os_x_voodoo_ps2_controll.Trackpad.Gestures.Release.{release_finger, cancel_tap}
use os_x_voodoo_ps2_controll.Trackpad.Gestures.Motion.{motion}
use os_x_voodoo_ps2_controll.Trackpad.Gestures.Switch.{capture_tap, switch_mode}

-- "dispatch dx/dy and current button status". On a ThinkPad the middle button is withheld until it is
-- let go, unless it scrolled.
unfoldable pub dispatch_motion : Options → Touch → Pad → Pad
dispatch_motion o t p =
    let dx = quotient t.dx o.divisorx in
    let dy = quotient t.dy o.divisory in
    if not o.isthinkpad
    then dispatch_relative_pointer_event dx dy t.buttons t.now_abs p
    else if o.mousemiddlescroll && t.buttons == 4
    then record p { thinkpad_middle_button_pressed = true }
    else record (if not p.thinkpad_middle_button_pressed
        then dispatch_relative_pointer_event dx dy t.buttons t.now_abs p
        else if not p.thinkpad_middle_scrolled
        then dispatch_relative_pointer_event dx dy 4 t.now_abs p
        else p) { thinkpad_middle_button_pressed = false; thinkpad_middle_scrolled = false }

-- From the end of the filters on: the modes, the motion and its dispatch, and the last position.
unfoldable pub finish_touch : Options → Touch → Pad → Pad
finish_touch o t p =
    let (t1, p1) = release_finger o t p in
    let p2 = cancel_tap o t1 p1 in
    let (t2, p3) = motion o p2.touchmode t1 p2 in
    let p4 = dispatch_motion o t2 (switch_mode o t2 (capture_tap o t2 p3)) in
    record p4 { lastx = t2.x; lasty = t2.y; lastf = t2.f }

-- The filters of touches.
unfoldable pub filter_touch : Options → Touch → Pad → Pad
filter_touch o t p =
    if is_outside_after_typing o t p
    then p
    else let p' = watch_zone o t p in if is_dropped o p' then p' else finish_touch o t p'

-- "recalc middle buttons if finger is going down", and the position.
unfoldable pub track_finger : (ℕ → ℕ) → Options → List ℕ → Touch → Pad → Touch × Pad
track_finger to_ns o packet t p =
    let raw = bit_or (bit_and (get_or packet 0 0) 3) p.passbuttons in
    let (again, q) = middle to_ns raw t.now_abs from_cancel p in
    let down = p.lastf == 0 && ltb 0 t.f in
    let p1 : Pad = if down then q else p in
    let t1 : Touch = record t { buttons = if down then again else t.buttons } in
    let (t2, p2) = unsmooth o t1 (finger_change o t1 p1) in
    let (t3, p3) = smooth o t2 p2 in (t3, ignore_deltas t3 p3)

-- "deal with normal wmode touchpad packet"
unfoldable pub touch_packet : (ℕ → ℕ) → Options → ℕ → List ℕ → ℕ → Pad → Pad
touch_packet to_ns o now packet buttons p =
    let (t, q) = track_finger to_ns o packet (touch_of o p now (to_ns now) packet buttons) p in
    if o.clickpadtype == 0
    then filter_touch o t q
    else let (t', q') = clickpad_packet o packet t q in filter_touch o t' q'

-- A packet of six bytes, at the time `now`, that is not for dispatchEventsWithPacketEW.
unfoldable pub dispatch_events : (ℕ → ℕ) → Options → ℕ → List ℕ → Pad → Pad
dispatch_events to_ns o now packet p =
    let (buttons, q) = packet_buttons to_ns o now packet p in
    if o.passthru && width_of packet == 3
    then passthru_packet o now packet buttons q
    else touch_packet to_ns o now packet buttons q

-- onDragTimer
unfoldable pub on_drag_timer : (ℕ → ℕ) → Options → ℕ → Pad → Pad
on_drag_timer to_ns o now p =
    let (buttons, q) =
      middle to_ns p.lastbuttons now from_passthru (record p { touchmode = no_touch }) in
    if o.isthinkpad && o.mousemiddlescroll && buttons == 4
    then q
    else dispatch_relative_pointer_event (pos 0) (pos 0) buttons now q

-- onScrollTimer
unfoldable pub on_scroll_timer : Options → ℕ → Pad → Pad
on_scroll_timer o now p =
    let dy = quotient p.momentumscrollcurrent p.momentumscrollinterval +ℤ p.momentumscrollrest2 in
    let current =
      (p.momentumscrollcurrent *ℤ o.momentumscrollmultiplier) +ℤ p.momentumscrollrest1 in
    if p.momentumscrollcurrent ==ℤ pos 0
    then p
    else if not (ltb o.momentumscrollthreshy (magnitude dy))
    then record p { momentumscrollcurrent = pos 0 }
    else call (set_scroll_timer o.momentumscrolltimer)
        (record (dispatch_scroll_wheel_event
          (if o.wvdivisor != 0 then quotient dy o.wvdivisor else pos 0) (pos 0) (pos 0) now p) {
            momentumscrollrest2 = if o.wvdivisor != 0 then remainder dy o.wvdivisor else pos 0;
            momentumscrollrest1 = remainder current o.momentumscrolldivisor;
            momentumscrollcurrent = quotient current o.momentumscrolldivisor;
          })
