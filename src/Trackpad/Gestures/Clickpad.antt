-- ===== src/Trackpad/Gestures/Clickpad.antt =====
-- The buttons of a ClickPad, and of the trackpoint of a ThinkPad.
use os_x_voodoo_ps2_controll.Base.{
  ℕ, Bool, not, ◌&&◌, ◌||◌, List, ltb, ◌==◌, ◌!=◌, if◌then◌else◌, bit_and, bit_or, get_or, sub_u64,
}
use os_x_voodoo_ps2_controll.Base.Int.{ℤ}
use os_x_voodoo_ps2_controll.Trackpad.Gestures.{no_touch, multi_touch, is_mode, Options, Pad, Touch}
use os_x_voodoo_ps2_controll.Trackpad.Gestures.Calls.{
  is_finger_touch, is_in_right_click_zone, is_in_left_click_zone, set_click_buttons,
}

-- "parse packets for buttons - TrackPoint Buttons may not be passthru", when byte 3 says 2.
unfoldable pub trackpoint_buttons : ℕ → ℕ → ℕ
trackpoint_buttons lb rb =
    if lb == 1 then 0x1 else if rb == 1 then 0x2 else if lb == 2 then 0x4 else 0x0

-- The click buttons of a packet.
unfoldable pub physical_click : Options → List ℕ → Touch → Pad → ℕ × Touch × Pad
physical_click o packet t p =
    let bp = bit_and (get_or packet 3 0) 3 in
    let buttons =
      trackpoint_buttons (bit_and (get_or packet 4 0) 3) (bit_and (get_or packet 5 0) 3) in
    if o.isthinkpad && bp == 2
    then (
      buttons,
      record t { buttons = buttons },
      set_click_buttons o buttons (record p { thinkpad_button_state = buttons }),
    )
    else (bp, t, p)

-- "change to right click if in right click zone, or was two finger click"
unfoldable pub is_right_click : Options → ℤ → ℤ → Touch → Pad → Bool
is_right_click o x y t p =
    is_finger_touch o t.z
    && (o.rightclick_corner == 2 && is_in_right_click_zone o x y
        || o.rightclick_corner == 1 && is_in_left_click_zone o x y
        || t.w == 0
          && (ltb (sub_u64 t.now_ns p.touchtime) o.clickpadclicktime
              || is_mode no_touch p.touchmode))

-- A ClickPad that is pressed when it was not.
unfoldable pub press_clickpad : Options → ℕ → Touch → Pad → Pad
press_clickpad o click t p =
    let primary = not (is_mode multi_touch p.touchmode) in
    let secondary = p.extendedwmode && not primary && p.tracksecondary in
    let x : ℤ = if secondary then p.lastx2 else t.x in
    let y : ℤ = if secondary then p.lasty2 else t.y in
    set_click_buttons o (if is_right_click o x y t p then 0x2 else click)
      (record p { clickedprimary = primary })

-- "deal with ClickPad touchpad packet"
unfoldable pub clickpad_packet : Options → List ℕ → Touch → Pad → Touch × Pad
clickpad_packet o packet t p =
    let (click, t1, p1) = physical_click o packet t p in
    let p2 : Pad =
      if p1.clickbuttons == 0 && click != 0 then press_clickpad o click t1 p1 else p1 in
    let p3 : Pad = if click == 0 then set_click_buttons o 0 p2 else p2 in
    let p4 : Pad =
      if o.isthinkpad && p3.thinkpad_button_state != 0
      then record p3 { clickbuttons = p3.thinkpad_button_state }
      else p3 in
    let buttons = bit_or t1.buttons p4.clickbuttons in
    (record t1 { buttons = buttons }, record p4 { lastbuttons = buttons })
