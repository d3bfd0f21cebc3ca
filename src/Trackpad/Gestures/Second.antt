-- ===== src/Trackpad/Gestures/Second.antt =====
-- dispatchEventsWithPacketEW: the packets of a second finger, and the choice between them and the
-- others in dispatchEventsWithPacket.
pub mod Still
pub mod Balance
mod Tests
use os_x_voodoo_ps2_controll.Base.{
  ℕ, ◌*◌, ◌/◌, true, false, not, ◌&&◌, ◌||◌, Option, none, some, List, ltb, ◌==◌, ◌!=◌,
  if◌then◌else◌, bit_and, bit_or, get_or, sub_u64,
}
use os_x_voodoo_ps2_controll.Base.Int.{ℤ, pos, ◌+ℤ◌, ◌-ℤ◌}
use os_x_voodoo_ps2_controll.Trackpad.Averages.{Average, filter, quotient, reset_average}
use os_x_voodoo_ps2_controll.Trackpad.Gestures.{no_touch, is_mode, Options, Pad, Touch}
use os_x_voodoo_ps2_controll.Trackpad.Gestures.Calls.{
  dispatch_relative_pointer_event, magnitude, remainder, is_finger_touch, is_in_right_click_zone,
  set_click_buttons,
}
use os_x_voodoo_ps2_controll.Trackpad.Gestures.Parse.{width_of, scaled, without_2, undecay}
use os_x_voodoo_ps2_controll.Trackpad.Gestures.Clickpad.{physical_click}
use os_x_voodoo_ps2_controll.Trackpad.Gestures.Zones.{is_outside_after_typing}
use os_x_voodoo_ps2_controll.Trackpad.Gestures.Dispatch.{dispatch_events}

-- The members that only the packets of a second finger use.
pub record Second : Type 0 where
  pub xrest2 : ℤ
  pub yrest2 : ℤ
  pub x2_avg : Average
  pub y2_avg : Average
  pub x2_undo : Option ℤ
  pub y2_undo : Option ℤ

-- The coordinates, which leave out the lowest bit, and the pressure.
unfoldable pub second_x : List ℕ → ℕ
second_x packet = bit_or (get_or packet 1 0 * 2) (bit_and (get_or packet 4 0) 0x0f * 512)

unfoldable pub second_y : List ℕ → ℕ
second_y packet = bit_or (get_or packet 2 0 * 2) (bit_and (get_or packet 4 0) 0xf0 * 32)

unfoldable pub second_z : List ℕ → ℕ
second_z packet =
    bit_or (bit_and (get_or packet 5 0) 0x0f * 2) (bit_and (get_or packet 3 0) 0x30 * 2)

-- The touch of a second finger, before smoothing. Nothing reads its width and its count of fingers.
unfoldable pub second_touch_of : Options → Pad → ℕ → ℕ → List ℕ → Touch
second_touch_of o p now_abs now_ns packet =
    let x = scaled o.xupmm o.yupmm (second_x packet) in
    let y = scaled o.yupmm o.xupmm (second_y packet) in
    let z = second_z packet in
    let x' : ℕ = if o.reportsv then without_2 x else x in
    let y' : ℕ = if o.reportsv then without_2 y else y in
    record {
      now_abs = now_abs;
      now_ns = now_ns;
      w = width_of packet;
      z = if o.reportsv then without_2 z else z;
      f = 0;
      xraw = pos x';
      yraw = pos y';
      x = pos x';
      y = pos y';
      buttons = bit_or (bit_and (get_or packet 0 0) 3) p.passbuttons;
      dx = pos 0;
      dy = pos 0;
    }

-- "if first secondary packet, clear some state..."
unfoldable pub start_second : Pad → Second → Second
start_second p s = if p.tracksecondary then s else record {
  xrest2 = pos 0;
  yrest2 = pos 0;
  x2_avg = reset_average s.x2_avg;
  y2_avg = reset_average s.y2_avg;
  x2_undo = none;
  y2_undo = none;
}

unfoldable pub unsmooth_second : Options → Touch → Second → Touch × Second
unsmooth_second o t s =
    if o.unsmoothinput
    then (
      record t { x = undecay t.x s.x2_undo; y = undecay t.y s.y2_undo },
      record s { x2_undo = some t.x; y2_undo = some t.y },
    )
    else (t, s)

unfoldable pub smooth_second : Options → Touch → Second → Touch × Second
smooth_second o t s =
    if not o.smoothinput
    then (t, s)
    else let (x, x2_avg) = filter 5 t.x s.x2_avg in
      let (y, y2_avg) = filter 5 t.y s.y2_avg in
      (record t { x = x; y = y }, record s { x2_avg = x2_avg; y2_avg = y2_avg })

-- The click holds: the second finger moves the pointer. A bogus delta clears the remainders of the first
-- finger.
unfoldable pub track_second : Options → Touch → Pad → Second → Pad × Second
track_second o t p s =
    let dx = (t.x -ℤ p.lastx2) +ℤ s.xrest2 in
    let dy = (p.lasty2 -ℤ t.y) +ℤ s.yrest2 in
    let bogus = ltb o.bogusdxthresh (magnitude dx) || ltb o.bogusdythresh (magnitude dy) in
    let p' : Pad = if bogus then record p { xrest = pos 0; yrest = pos 0 } else p in
    let dx' : ℤ = if bogus then pos 0 else dx in
    let dy' : ℤ = if bogus then pos 0 else dy in
    let buttons = bit_or t.buttons p.clickbuttons in
    if not p.tracksecondary then (p, s) else (
      if o.isthinkpad && o.mousemiddlescroll && buttons == 4
          then p'
          else dispatch_relative_pointer_event (quotient dx' o.divisorx) (quotient dy' o.divisory)
              buttons t.now_abs p',
      record s { xrest2 = remainder dx o.divisorx; yrest2 = remainder dy o.divisory },
    )

-- "change to right click if in right click zone"
unfoldable pub press_second : Options → ℕ → Touch → Pad → Pad
press_second o click t p =
    let right =
      is_in_right_click_zone o t.x t.y
      || ltb (sub_u64 t.now_ns p.touchtime) o.clickpadclicktime
      || is_mode no_touch p.touchmode in
    record (set_click_buttons o (if right then 0x2 else click) p) { clickedprimary = false }

-- "deal with ClickPad touchpad packet"
unfoldable pub second_click : Options → List ℕ → Touch → Pad → Touch × Pad
second_click o packet t p =
    let (click, t1, p1) = physical_click o packet t p in
    let p2 : Pad = if p1.clickbuttons == 0 && click != 0 then press_second o click t1 p1 else p1 in
    let p3 : Pad = if click == 0 then set_click_buttons o 0 p2 else p2 in
    let p4 : Pad =
      if o.isthinkpad && p3.thinkpad_button_state != 0
      then record p3 { clickbuttons = p3.thinkpad_button_state }
      else p3 in
    (record t1 { buttons = bit_or t1.buttons p4.clickbuttons }, p4)

-- The click does not hold: only the buttons are reported.
unfoldable pub report_second : Options → Touch × Pad → Pad
report_second o (t, p) =
    if o.isthinkpad && o.mousemiddlescroll && t.buttons == 4
    then p
    else dispatch_relative_pointer_event (pos 0) (pos 0) t.buttons t.now_abs p

unfoldable pub move_second : Options → List ℕ → Touch → Pad → Second → Pad × Second
move_second o packet t p s =
    if (o.clickpadtrackboth || p.clickedprimary) && p.clickbuttons != 0
    then track_second o t p s
    else if o.clickpadtype == 0
    then (report_second o (t, p), s)
    else (report_second o (second_click o packet t p), s)

-- From the smoothing on.
unfoldable pub finish_second : Options → List ℕ → Touch → Pad → Second → Pad × Second
finish_second o packet t p s =
    let (p', s') = move_second o packet t p s in
    if is_outside_after_typing o t p
    then (p, s)
    else (record p' { lastx2 = t.x; lasty2 = t.y; tracksecondary = true }, s')

unfoldable pub dispatch_events_ew : (ℕ → ℕ) → Options → ℕ → List ℕ → Pad → Second → Pad × Second
dispatch_events_ew to_ns o now packet p s =
    let (t1, s1) =
      unsmooth_second o (second_touch_of o p now (to_ns now) packet) (start_second p s) in
    let (t2, s2) = smooth_second o t1 s1 in
    if p.ignoreall || get_or packet 5 0 / 16 != 1 || not (is_finger_touch o (second_z packet))
    then (p, s)
    else finish_second o packet t2 p s2

-- dispatchEventsWithPacket, for every packet.
unfoldable pub dispatch_wmode : (ℕ → ℕ) → Options → ℕ → List ℕ → Pad → Second → Pad × Second
dispatch_wmode to_ns o now packet p s =
    if p.extendedwmode && width_of packet == 2
    then dispatch_events_ew to_ns o now packet p s
    else (dispatch_events to_ns o now packet p, s)
