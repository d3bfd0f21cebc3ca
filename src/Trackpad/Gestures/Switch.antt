-- ===== src/Trackpad/Gestures/Switch.antt =====
-- The time of a touch, and the next mode.
use os_x_voodoo_ps2_controll.Base.{
  Bool, true, false, not, ◌&&◌, ◌||◌, ltb, leb, ◌==◌, ◌!=◌, if◌then◌else◌, bit_and,
}
use os_x_voodoo_ps2_controll.Base.Int.{pos, ltb_ℤ, ◌==ℤ◌}
use os_x_voodoo_ps2_controll.Trackpad.Gestures.{
  no_touch, predrag, drag_no_touch, move, vscroll, hscroll, cscroll, multi_touch, drag, drag_lock,
  is_touch_mode, is_mode, cancel_drag_timer, Options, Pad, Touch,
}
use os_x_voodoo_ps2_controll.Trackpad.Gestures.Calls.{call, above, is_finger_touch, after_typing}

-- "taps don't count if too close to typing or if currently in momentum scroll"
unfoldable pub capture_tap : Options → Touch → Pad → Pad
capture_tap o t p =
    let counts = not (o.palm_wt && after_typing o t p) && p.momentumscrollcurrent ==ℤ pos 0 in
    let p1 : Pad =
      if counts && not (is_touch_mode p.touchmode)
      then record p { touchtime = t.now_ns; touchx = t.x; touchy = t.y }
      else p in
    let p2 : Pad =
      if not counts
      then p1
      else if t.w == 0
      then record p1 { wasdouble = true }
      else if leb 3 p.emulator.button_count && t.w == 1
      then record p1 { wastriple = true }
      else p1 in
    -- "any touch cancels momentum scroll"
    if is_finger_touch o t.z then record p2 { momentumscrollcurrent = pos 0 } else p

-- A second tap becomes a drag, and a drag that was left goes on.
unfoldable pub start_drag : Options → Touch → Pad → Pad
start_drag o t p =
    if not (is_finger_touch o t.z)
    then p
    else if is_mode predrag p.touchmode
    then record p { touchmode = drag; draglocktemp = bit_and p.modifierdown o.draglocktempmask }
    else if is_mode drag_no_touch p.touchmode
    then (let p' : Pad = record p { touchmode = drag_lock } in
        if o.has_drag_timer then call cancel_drag_timer p' else p')
    else p

unfoldable pub start_multi_touch : Options → Touch → Pad → Pad
start_multi_touch o t p =
    if not (is_mode multi_touch p.touchmode)
      && (ltb o.wlimit t.w || ltb t.w 2)
      && is_finger_touch o t.z
    then record p { touchmode = multi_touch; tracksecondary = false }
    else p

-- The edge or corner where circular scrolling starts, by `ctrigger`: 1, 3, 5 and 7 are the edges from
-- the top on, 2, 4, 6 and 8 the corners between them, and 9 is any edge.
unfoldable pub is_trigger : Options → Touch → Bool
is_trigger o t =
    let top = above t.y o.tedge in
    let right = above t.x o.redge in
    let bottom = ltb_ℤ t.y o.bedge in
    let left = ltb_ℤ t.x o.ledge in
    let at = o.ctrigger in
    top && (at == 1 || at == 9)
    || top && right && at == 2
    || right && (at == 3 || at == 9)
    || right && bottom && at == 4
    || bottom && (at == 5 || at == 9)
    || bottom && left && at == 6
    || left && (at == 7 || at == 9)
    || left && top && at == 8

unfoldable pub start_circular : Options → Touch → Pad → Pad
start_circular o t p =
    if o.scroll
      && o.cscrolldivisor != 0
      && is_mode no_touch p.touchmode
      && ltb o.z_finger t.z
      && is_trigger o t
    then record p { touchmode = cscroll }
    else p

unfoldable pub start_vertical : Options → Touch → Pad → Pad
start_vertical o t p =
    if (is_mode no_touch p.touchmode || is_mode hscroll p.touchmode && not (ltb_ℤ t.y o.bedge))
      && ltb o.z_finger t.z
      && above t.x o.redge
      && o.vscrolldivisor != 0
      && o.scroll
    then record p { touchmode = vscroll; scrollrest = pos 0 }
    else p

unfoldable pub start_horizontal : Options → Touch → Pad → Pad
start_horizontal o t p =
    if (is_mode no_touch p.touchmode || is_mode vscroll p.touchmode && not (above t.x o.redge))
      && ltb o.z_finger t.z
      && ltb_ℤ t.y o.bedge
      && o.hscrolldivisor != 0
      && o.hscroll
      && o.scroll
    then record p { touchmode = hscroll; scrollrest = pos 0 }
    else p

unfoldable pub start_move : Options → Touch → Pad → Pad
start_move o t p =
    if is_mode no_touch p.touchmode && ltb o.z_finger t.z then record p { touchmode = move } else p

-- "switch modes, depending on input"
unfoldable pub switch_mode : Options → Touch → Pad → Pad
switch_mode o t p = start_move o t (
    start_horizontal o t
      (start_vertical o t (start_circular o t (start_multi_touch o t (start_drag o t p)))))
