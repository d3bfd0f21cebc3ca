-- ===== src/Trackpad/Gestures/Parse.antt =====
-- The start of dispatchEventsWithPacket: the buttons and the fingers of a packet, packets that pass
-- through, and the smoothing of coordinates.
pub mod Layout
use os_x_voodoo_ps2_controll.Base.{
  ℕ, ◌+◌, ◌-◌, ◌*◌, ◌/◌, true, false, not, ◌&&◌, ◌||◌, Option, none, some, List, ltb, leb, ◌==◌,
  ◌!=◌, if◌then◌else◌, bit_and, bit_or, get_or,
}
use os_x_voodoo_ps2_controll.Base.Int.{ℤ, pos, ◌-ℤ◌, ◌*ℤ◌}
use os_x_voodoo_ps2_controll.MiddleButton.Trackpad.{from_passthru, from_trackpad}
use os_x_voodoo_ps2_controll.Trackpad.Averages.{filter, reset_average}
use os_x_voodoo_ps2_controll.Trackpad.Gestures.{Options, Pad, Touch}
use os_x_voodoo_ps2_controll.Trackpad.Gestures.Calls.{
  dispatch_relative_pointer_event, dispatch_scroll_wheel_event, magnitude, negate, middle,
}

-- w: bits 3 and 2, bit 1 and bit 0.
unfoldable pub width_of : List ℕ → ℕ
width_of packet =
    bit_or (bit_or (bit_and (get_or packet 3 0) 0x4 / 4) (bit_and (get_or packet 0 0) 0x4 / 2))
      (bit_and (get_or packet 0 0) 0x30 / 4)

-- Coordinates of 13 bits.
unfoldable pub x_of : List ℕ → ℕ
x_of packet =
    bit_or (bit_or (get_or packet 4 0) (bit_and (get_or packet 1 0) 0x0f * 256))
      (bit_and (get_or packet 3 0) 0x10 * 256)

unfoldable pub y_of : List ℕ → ℕ
y_of packet =
    bit_or (bit_or (get_or packet 5 0) (bit_and (get_or packet 1 0) 0xf0 * 16))
      (bit_and (get_or packet 3 0) 0x20 * 128)

-- "scale x & y to the axis which has the most resolution"
abbrev pub scaled : ℕ → ℕ → ℕ → ℕ
scaled upmm other v = if ltb upmm other then v * other / upmm else v

-- A number without bit 1.
abbrev pub without_2 : ℕ → ℕ
without_2 v = v - bit_and v 2

-- The touch that a packet with `w` is, before smoothing.
unfoldable pub touch_of : Options → Pad → ℕ → ℕ → List ℕ → ℕ → Touch
touch_of o p now_abs now_ns packet buttons =
    let w = width_of packet in
    let z = get_or packet 2 0 in
    let f : ℕ = if ltb o.z_finger z then (if leb 4 w then 1 else w + 2) else 0 in
    let x = scaled o.xupmm o.yupmm (x_of packet) in
    let y = scaled o.yupmm o.xupmm (y_of packet) in
    let wide = p.extendedwmode && o.reportsv && ltb 1 f in
    let x' : ℕ = if wide then without_2 x else x in
    let y' : ℕ = if wide then without_2 y else y in
    record {
      now_abs = now_abs;
      now_ns = now_ns;
      w = w;
      z = if wide then z / 2 * 2 else z;
      f = f;
      xraw = pos x';
      yraw = pos y';
      x = pos x';
      y = pos y';
      buttons = buttons;
      dx = pos 0;
      dy = pos 0;
    }

-- `passbuttons` and `lastbuttons`, and "allow middle button to be simulated with two buttons down".
unfoldable pub packet_buttons : (ℕ → ℕ) → Options → ℕ → List ℕ → Pad → ℕ × Pad
packet_buttons to_ns o now packet p =
    let through = width_of packet == 3 in
    let pass : ℕ = if o.passthru && through then bit_and (get_or packet 1 0) 7 else p.passbuttons in
    let buttons = bit_or (bit_and (get_or packet 0 0) 3) pass in
    let p' : Pad = record p { passbuttons = pass; lastbuttons = buttons } in
    if o.clickpadtype == 0 || through
    then middle to_ns buttons now (if through then from_passthru else from_trackpad) p'
    else (buttons, p')

-- A delta of 9 bits: the sign is in byte 1.
abbrev pub signed_delta : ℕ → ℕ → ℤ
signed_delta sign low = if sign != 0 then pos low -ℤ pos 256 else pos low

-- "middle button treats deltas for scrolling"
unfoldable pub scroll_through : Options → ℤ → ℤ → ℕ → Pad → Pad
scroll_through o dx dy now p =
    let sideways = ltb (magnitude dy) (magnitude dx) in
    let scrollx : ℤ = if sideways then dx *ℤ o.mousescrollmultiplierx else pos 0 in
    let scrolly : ℤ = if sideways then pos 0 else dy *ℤ o.mousescrollmultipliery in
    let nub = o.isthinkpad && p.thinkpad_middle_button_pressed in
    let scrollx' : ℤ = if nub then scrollx *ℤ o.thinkpad_nub_scroll_x_multiplier else scrollx in
    let scrolly' : ℤ = if nub then scrolly *ℤ o.thinkpad_nub_scroll_y_multiplier else scrolly in
    dispatch_scroll_wheel_event scrolly' (negate scrollx') (pos 0) now (record p {
      thinkpad_middle_scrolled =
          p.thinkpad_middle_scrolled || magnitude dx != 0 || magnitude dy != 0;
    })

-- "If this is a thinkpad, we do extra logic here to see if we're doing a middle click"
unfoldable pub move_through : Options → ℤ → ℤ → ℕ → ℕ → Pad → Pad
move_through o dx dy buttons now p =
    if not o.isthinkpad
    then dispatch_relative_pointer_event dx (negate dy) buttons now p
    else if o.mousemiddlescroll && buttons == 4
    then record p { thinkpad_middle_button_pressed = true }
    else record (dispatch_relative_pointer_event dx (negate dy) buttons now (
        if p.thinkpad_middle_button_pressed && not p.thinkpad_middle_scrolled
        then dispatch_relative_pointer_event dx (negate dy) 4 now p
        else p)) { thinkpad_middle_button_pressed = false; thinkpad_middle_scrolled = false }

-- "now deal with pass through packet moving/scrolling"
unfoldable pub passthru_packet : Options → ℕ → List ℕ → ℕ → Pad → Pad
passthru_packet o now packet buttons p =
    let byte1 = get_or packet 1 0 in
    let physical = bit_or (bit_and (get_or packet 0 0) 3) (bit_and (get_or packet 3 0) 3) in
    let combined =
      bit_or (bit_or (bit_or buttons physical) p.clickbuttons) p.thinkpad_button_state in
    let dx = signed_delta (bit_and byte1 0x10) (get_or packet 4 0) in
    let dy = signed_delta (bit_and byte1 0x20) (get_or packet 5 0) in
    if o.mousemiddlescroll && (bit_and byte1 4 != 0 || p.thinkpad_button_state == 4)
    then move_through o (pos 0) (pos 0) combined now (scroll_through o dx dy now p)
    else move_through o (dx *ℤ o.mousemultiplierx) (dy *ℤ o.mousemultipliery) combined now p

abbrev pub reset_averages : Pad → Pad
reset_averages p = record p {
  x_undo = none;
  y_undo = none;
  x_avg = reset_average p.x_avg;
  y_avg = reset_average p.y_avg;
}

-- UndecayAverage<int, int64_t, 1, 1, 2>
abbrev pub undecay : ℤ → Option ℤ → ℤ
undecay x none = x
undecay x (some last) = (x *ℤ pos 2) -ℤ last

-- "reset averages after finger change", and deltas that are ignored for a while.
unfoldable pub finger_change : Options → Touch → Pad → Pad
finger_change o t p =
    let p' : Pad =
      if ltb 0 p.lastf && ltb 0 t.f && p.lastf != t.f
      then record p { ignoredeltas = o.ignoredeltasstart }
      else p in
    if p.lastf != t.f then reset_averages p' else p'

unfoldable pub unsmooth : Options → Touch → Pad → Touch × Pad
unsmooth o t p =
    if o.unsmoothinput
    then (
      record t { x = undecay t.x p.x_undo; y = undecay t.y p.y_undo },
      record p { x_undo = some t.x; y_undo = some t.y },
    )
    else (t, p)

unfoldable pub smooth : Options → Touch → Pad → Touch × Pad
smooth o t p =
    if not o.smoothinput
    then (t, p)
    else let (x, x_avg) = filter 5 t.x p.x_avg in
      let (y, y_avg) = filter 5 t.y p.y_avg in
      (record t { x = x; y = y }, record p { x_avg = x_avg; y_avg = y_avg })

unfoldable pub ignore_deltas : Touch → Pad → Pad
ignore_deltas t p =
    let p' : Pad = record p { lastx = t.x; lasty = t.y; ignoredeltas = p.ignoredeltas - 1 } in
    if p.ignoredeltas == 0 then p else if p.ignoredeltas == 1 then reset_averages p' else p'
