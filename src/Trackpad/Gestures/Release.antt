-- ===== src/Trackpad/Gestures/Release.antt =====
-- The finger leaves the trackpad: the start of momentum scrolling, the buttons of a tap, and the end of
-- a drag.
use os_x_voodoo_ps2_controll.Base.{
  ℕ, ◌-◌, false, not, ◌&&◌, ◌||◌, ltb, leb, ◌==◌, ◌!=◌, if◌then◌else◌, bit_and, bit_or, sub_u64,
}
use os_x_voodoo_ps2_controll.Base.Int.{pos, pos_part, ◌-ℤ◌, ◌*ℤ◌}
use os_x_voodoo_ps2_controll.Trackpad.Averages.{oldest, newest, reset_average}
use os_x_voodoo_ps2_controll.Trackpad.Gestures.{
  Mode, no_touch, predrag, drag_no_touch, multi_touch, drag, drag_lock, is_touch_mode, is_mode,
  set_scroll_timer, set_drag_timer, cancel_drag_timer, Options, Pad, Touch,
}
use os_x_voodoo_ps2_controll.Trackpad.Gestures.Calls.{
  call, dispatch_relative_pointer_event, magnitude, is_finger_touch,
}

-- The button of a tap, by the number of fingers.
unfoldable pub tap_button : Options → Pad → ℕ
tap_button o p =
    if p.wastriple && o.rtap
    then (if o.swapdoubletriple then 0x2 else 0x4)
    else if p.wasdouble && o.rtap
    then (if o.swapdoubletriple then 0x4 else 0x2)
    else 0x1

-- "check for scroll momentum start"
unfoldable pub start_momentum : Options → Pad → Pad
start_momentum o p =
    let interval =
      sub_u64 (pos_part (newest p.time_history)) (pos_part (oldest 32 p.time_history)) in
    let p' : Pad = record p { momentumscrollinterval = interval } in
    if not (is_mode multi_touch p.touchmode && o.momentumscroll && o.momentumscrolltimer != 0)
    then p
    else if not (ltb o.momentumscrollsamplesmin p.dy_history.kept)
    then p
    else if interval == 0
    then p'
    else call (set_scroll_timer o.momentumscrolltimer) (record p' {
      momentumscrollsum = p.dy_history.sum;
      momentumscrollcurrent = pos o.momentumscrolltimer *ℤ p.dy_history.sum;
      momentumscrollrest1 = pos 0;
      momentumscrollrest2 = pos 0;
    })

-- What is left behind is forgotten.
abbrev pub clear_rests : ℕ → Pad → Pad
clear_rests now p = record p {
  xrest = pos 0;
  yrest = pos 0;
  scrollrest = pos 0;
  in_swipe_left = false;
  in_swipe_right = false;
  in_swipe_up = false;
  in_swipe_down = false;
  xmoved = pos 0;
  ymoved = pos 0;
  untouchtime = now;
  tracksecondary = false;
}

-- A click between two releases in a drag: the buttons without the three lowest, and then the press and
-- the release of the left one. The test for the middle button comes after its bit has been cleared.
unfoldable pub click_in_drag : Options → Touch → Pad → Touch × Pad
click_in_drag o t p =
    let buttons = t.buttons - bit_and t.buttons 7 in
    if o.immediateclick then (t, p) else (
      record t { buttons = buttons },
      if o.isthinkpad && o.mousemiddlescroll && buttons == 4
          then p
          else dispatch_relative_pointer_event (pos 0) (pos 0) buttons t.now_abs
              (dispatch_relative_pointer_event (pos 0) (pos 0) (bit_or buttons 1) t.now_abs p),
    )

-- The release of a tap, by the mode.
unfoldable pub tap : Options → Mode → Touch → Pad → Touch × Pad
tap o drag t p =
    let (t', p') = click_in_drag o t p in
    (record t' { buttons = bit_or t'.buttons (tap_button o p) }, record p' { touchmode = no_touch })
tap o drag_lock t p = (t, record p { touchmode = no_touch })
tap o other t p =
    let several = (p.wastriple || p.wasdouble) && o.rtap in
    (
      record t { buttons = bit_or t.buttons (tap_button o p) },
      record p { touchmode = if not several && o.dragging then predrag else no_touch },
    )

-- Any other release.
unfoldable pub lift : Options → Pad → Pad
lift o p =
    let locked = o.draglock || p.draglocktemp != 0 in
    if not (
      (is_mode drag p.touchmode || is_mode drag_lock p.touchmode)
      && (locked || o.has_drag_timer && o.dragexitdelay != 0))
    then record p { touchmode = no_touch; draglocktemp = 0 }
    else if locked
    then record p { touchmode = drag_no_touch }
    else call (set_drag_timer o.dragexitdelay)
        (call cancel_drag_timer (record p { touchmode = drag_no_touch }))

-- "if (z<z_finger && isTouchMode())"
unfoldable pub release : Options → Touch → Pad → Touch × Pad
release o t p =
    let p1 = start_momentum o (clear_rests t.now_ns p) in
    let p2 : Pad = record p1 {
      time_history = reset_average p1.time_history;
      dy_history = reset_average p1.dy_history;
    } in
    let quick = ltb (sub_u64 t.now_ns p2.touchtime) o.maxtaptime && o.clicking in
    let (t', p3) = if quick then tap o p2.touchmode t p2 else (t, lift o p2) in
    (t', record p3 { wasdouble = false; wastriple = false })

unfoldable pub release_finger : Options → Touch → Pad → Touch × Pad
release_finger o t p =
    if ltb t.z o.z_finger && is_touch_mode p.touchmode then release o t p else (t, p)

-- "cancel pre-drag mode if second tap takes too long", and "cancel tap if touch point moves too far".
unfoldable pub cancel_tap : Options → Touch → Pad → Pad
cancel_tap o t p =
    let late = is_mode predrag p.touchmode && leb o.maxdragtime (sub_u64 t.now_ns p.untouchtime) in
    let p' : Pad = record p { touchmode = if late then no_touch else p.touchmode } in
    let dx = magnitude (t.xraw -ℤ p.touchx) in
    let dy = magnitude (t.yraw -ℤ p.touchy) in
    let far =
      not p.wasdouble && not p.wastriple && (ltb o.tapthreshx dx || ltb o.tapthreshy dy)
      || ltb o.dblthreshx dx
      || ltb o.dblthreshy dy in
    if is_touch_mode p'.touchmode && is_finger_touch o t.z && far
    then record p' { touchtime = 0 }
    else p'
