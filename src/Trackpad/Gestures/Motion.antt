-- ===== src/Trackpad/Gestures/Motion.antt =====
-- What the motion of fingers does in each mode: deltas of the pointer, scrolling, and swipes.
use os_x_voodoo_ps2_controll.Base.{
  ℕ, Bool, true, false, not, ◌&&◌, ◌||◌, ltb, leb, ◌==◌, ◌!=◌, if◌then◌else◌, bit_or, sub_u64,
}
use os_x_voodoo_ps2_controll.Base.Int.{ℤ, pos, ◌+ℤ◌, ◌-ℤ◌, ltb_ℤ, ◌==ℤ◌}
use os_x_voodoo_ps2_controll.Trackpad.Averages.{Average, quotient, filter, newest, reset_average}
use os_x_voodoo_ps2_controll.Trackpad.Gestures.{
  Mode, no_touch, predrag, drag_no_touch, move, vscroll, hscroll, cscroll, multi_touch, drag,
  drag_lock, wait1_release, wait2_tap, wait2_release, is_mode, swipe_up, swipe_down, swipe_left,
  swipe_right, swipe, Options, Pad, Touch,
}
use os_x_voodoo_ps2_controll.Trackpad.Gestures.Calls.{
  call, dispatch_scroll_wheel_event, above, magnitude, negate, remainder, after_typing,
}

abbrev pub palm_free : Options → Touch → Bool
palm_free o t = not o.palm || leb t.w o.wlimit && leb t.z o.zlimit

-- The deltas since the last packet, with what was left over by the division, unless they are too large.
unfoldable pub move_deltas : Options → Touch → Pad → Touch × Pad
move_deltas o t p =
    let dx = (t.x -ℤ p.lastx) +ℤ p.xrest in
    let dy = (p.lasty -ℤ t.y) +ℤ p.yrest in
    if ltb o.bogusdxthresh (magnitude dx) || ltb o.bogusdythresh (magnitude dy)
    then (record t { dx = pos 0; dy = pos 0 }, record p { xrest = pos 0; yrest = pos 0 })
    else (
      record t { dx = dx; dy = dy },
      record p { xrest = remainder dx o.divisorx; yrest = remainder dy o.divisory },
    )

-- MODE_MOVE, and the end of the two drag modes: "ignore moves while waiting for taps".
unfoldable pub move_finger : Options → Touch → Pad → Touch × Pad
move_finger o t p =
    if p.lastf == t.f
      && palm_free o t
      && (not (is_mode move p.touchmode)
          || not o.clicking
          || leb o.maxtaptime (sub_u64 t.now_ns p.touchtime))
    then move_deltas o t p
    else (t, p)

abbrev pub held_left : Touch → Touch
held_left t = record t { buttons = bit_or t.buttons 1 }

-- "stopped or changed direction, clear history", and "put movement and time in history for later".
unfoldable pub remember : ℤ → ℕ → Pad → Pad
remember dy now p =
    let turned =
      ltb_ℤ dy (pos 0) && not (ltb_ℤ (newest p.dy_history) (pos 0))
      || not (ltb_ℤ dy (pos 0)) && ltb_ℤ (newest p.dy_history) (pos 0)
      || dy ==ℤ pos 0 in
    let dys : Average = if turned then reset_average p.dy_history else p.dy_history in
    let times : Average = if turned then reset_average p.time_history else p.time_history in
    record p { dy_history = (filter 32 dy dys).1; time_history = (filter 32 (pos now) times).1 }

-- Scrolling with two fingers. An axis that does not scroll has no delta, and one below its threshold
-- leaves the whole delta as its rest.
unfoldable pub scroll_two : Options → Touch → Pad → Pad
scroll_two o t p =
    let wide = o.whdivisor != 0 && o.hscroll in
    let dy : ℤ = if o.wvdivisor != 0 then (t.y -ℤ p.lasty) +ℤ p.yrest else pos 0 in
    let dx : ℤ = if wide then (p.lastx -ℤ t.x) +ℤ p.xrest else pos 0 in
    let small_x = ltb (magnitude dx) o.scrolldxthresh in
    let small_y = ltb (magnitude dy) o.scrolldythresh in
    let p' = remember dy t.now_ns (record p {
      xrest = if small_x then dx else if wide then remainder dx o.whdivisor else pos 0;
      yrest = if small_y then dy else if o.wvdivisor != 0 then remainder dy o.wvdivisor else pos 0;
    }) in
    let dx' : ℤ = if small_x then pos 0 else dx in
    let dy' : ℤ = if small_y then pos 0 else dy in
    if magnitude dx' == 0 && magnitude dy' == 0
    then p'
    else dispatch_scroll_wheel_event (if o.wvdivisor != 0 then quotient dy' o.wvdivisor else pos 0)
        (if wide then quotient dx' o.whdivisor else pos 0) (pos 0) t.now_abs p'

-- "two finger (0 is really two fingers, but...)"
unfoldable pub two_fingers : Options → Touch → Pad → Touch × Pad
two_fingers o t p =
    if p.extendedwmode && t.w == 0 && p.clickbuttons != 0
    then (if (o.clickpadtrackboth || not p.clickedprimary) && p.lastf == t.f && palm_free o t
        then move_deltas o t p
        else (t, p))
    else if p.lastf != t.f || o.palm && ltb o.zlimit t.z
    then (t, p)
    else if not o.wsticky && leb t.w o.wlimit && ltb 3 t.w
    then (
      t,
      record p {
        dy_history = reset_average p.dy_history;
        time_history = reset_average p.time_history;
        clickedprimary = p.clickbuttons != 0;
        tracksecondary = false;
        touchmode = move;
      },
    )
    else if o.palm_wt && after_typing o t p
    then (t, p)
    else (t, scroll_two o t p)

-- "dispatching 3 finger movement"
unfoldable pub three_fingers : Options → Touch → Pad → Pad
three_fingers o t p =
    let xmoved = p.xmoved +ℤ (p.lastx -ℤ t.x) in
    let ymoved = p.ymoved +ℤ (t.y -ℤ p.lasty) in
    let p' : Pad = record p { xmoved = xmoved; ymoved = ymoved } in
    if above ymoved o.swipedy && not p.in_swipe_up
    then call (swipe swipe_up t.now_abs)
        (record p' { in_swipe_up = true; in_swipe_down = false; ymoved = pos 0 })
    else if ltb_ℤ ymoved (negate o.swipedy) && not p.in_swipe_down
    then call (swipe swipe_down t.now_abs)
        (record p' { in_swipe_down = true; in_swipe_up = false; ymoved = pos 0 })
    else if ltb_ℤ xmoved (negate o.swipedx) && not p.in_swipe_right
    then call (swipe swipe_right t.now_abs)
        (record p' { in_swipe_right = true; in_swipe_left = false; xmoved = pos 0 })
    else if above xmoved o.swipedx && not p.in_swipe_left
    then call (swipe swipe_left t.now_abs)
        (record p' { in_swipe_left = true; in_swipe_right = false; xmoved = pos 0 })
    else p'

-- Scrolling along an edge: `d` is the distance with what was left over, `event` its dispatch.
unfoldable pub scroll_edge : ℕ → ℕ → ℤ → (ℤ → Pad → Pad) → Pad → Pad
scroll_edge divisor threshold d event p =
    let small = ltb (magnitude d) threshold in
    let p' : Pad = record p { scrollrest = if small then d else remainder d divisor } in
    if small || magnitude d == 0 then p' else event (quotient d divisor) p'

abbrev pub vertical : Touch → ℤ → Pad → Pad
vertical t d p = dispatch_scroll_wheel_event d (pos 0) (pos 0) t.now_abs p

abbrev pub horizontal : Touch → ℤ → Pad → Pad
horizontal t d p = dispatch_scroll_wheel_event (pos 0) d (pos 0) t.now_abs p

-- The distance around the centre.
abbrev pub turned : Options → Touch → Pad → ℤ
turned o t p =
    (if ltb_ℤ t.y o.centery then t.x -ℤ p.lastx else p.lastx -ℤ t.x)
    +ℤ (if ltb_ℤ t.x o.centerx then p.lasty -ℤ t.y else t.y -ℤ p.lasty)
    +ℤ p.scrollrest

abbrev pub too_wide : Options → Touch → Bool
too_wide o t = ltb o.wlimit t.w || ltb o.zlimit t.z

-- The movement, by the mode.
unfoldable pub motion : Options → Mode → Touch → Pad → Touch × Pad
motion o drag t p =
    move_finger o
      (if not o.immediateclick || ltb o.maxdbltaptime (sub_u64 t.now_ns p.touchtime)
        then held_left t
        else t)
      p
motion o drag_lock t p = move_finger o (held_left t) p
motion o move t p = move_finger o t p
motion o multi_touch t p = if t.w == 1 then (t, three_fingers o t p) else two_fingers o t p
motion o vscroll t p =
    if not o.vsticky && (ltb_ℤ t.x o.redge || too_wide o t)
    then (t, record p { touchmode = no_touch })
    else if o.palm_wt && after_typing o t p
    then (t, p)
    else (
      t,
      scroll_edge o.vscrolldivisor o.scrolldythresh ((t.y -ℤ p.lasty) +ℤ p.scrollrest) (vertical t)
          p,
    )
motion o hscroll t p =
    if not o.hsticky && (above t.y o.bedge || too_wide o t)
    then (t, record p { touchmode = no_touch })
    else if o.palm_wt && after_typing o t p
    then (t, p)
    else (
      t,
      scroll_edge o.hscrolldivisor o.scrolldxthresh ((p.lastx -ℤ t.x) +ℤ p.scrollrest)
          (horizontal t) p,
    )
motion o cscroll t p =
    if o.palm_wt && after_typing o t p
    then (t, p)
    else (t, scroll_edge o.cscrolldivisor o.scrolldxthresh (turned o t p) (vertical t) p)
motion o drag_no_touch t p = (held_left t, p)
motion o predrag t p = (
  if not o.immediateclick && (not o.palm_wt || not (after_typing o t p)) then held_left t else t,
  p,
)
motion o no_touch t p = (t, p)
motion o wait1_release t p = (t, p)
motion o wait2_tap t p = (t, p)
motion o wait2_release t p = (t, p)
