-- ===== src/Trackpad/Alps.antt =====
-- ApplePS2ALPSGlidePoint (VoodooPS2Trackpad/VoodooPS2ALPSGlidePoint.cpp and .h): the interrupt
-- routine, packetReady, the scroll areas and the dispatch of relative packets.
pub mod Assembly
use os_x_voodoo_ps2_controll.Base.{
  ℕ, ◌+◌, ◌*◌, Bool, true, false, not, ◌&&◌, ◌||◌, List, [], ◌∷◌, ◌++◌, ltb, ◌==◌, ◌!=◌,
  if◌then◌else◌, bit_and, bit_or, get_or,
}
use os_x_voodoo_ps2_controll.Base.Int.{ℤ, pos, ◌-ℤ◌}
use os_x_voodoo_ps2_controll.Device.{
  InterruptResult, packet_ready, packet_buffering, PointerEvent, relative,
}
use os_x_voodoo_ps2_controll.Ring.{Ring, count, poke, advance_head}
use os_x_voodoo_ps2_controll.Ring.Drain.{drain}
use os_x_voodoo_ps2_controll.Ring.Packets.{slot}

abbrev pub packet_length_small : ℕ
packet_length_small = 3

abbrev pub packet_length_large : ℕ
packet_length_large = 6

abbrev pub packet_length_max : ℕ
packet_length_max = 6

abbrev pub ring_size : ℕ
ring_size = packet_length_max * 32

pub record GlidePoint : Type 0 where
  pub ring : Ring ℕ
  pub packet_byte_count : ℕ

-- "packet[_packetByteCount++] = data;" and what follows it.
pub store : ℕ → GlidePoint → InterruptResult × GlidePoint
store x d =
    let r = poke d.ring d.packet_byte_count x in
    let stored = d.packet_byte_count + 1 in
    if packet_length_large == stored
      || (packet_length_small == stored
          && bit_and (get_or (slot packet_length_max r) 0 0) 0xc8 == 0x08)
    then (
      packet_ready,
      record d { ring = advance_head ring_size packet_length_max r; packet_byte_count = 0 },
    )
    else (packet_buffering, record d { ring = r; packet_byte_count = stored })

pub interrupt_occurred : ℕ → GlidePoint → InterruptResult × GlidePoint
unfolding store
interrupt_occurred x d =
    if d.packet_byte_count == 0 && bit_and x 0xc8 != 0x08 && bit_and x 0xf8 != 0xf8
    then (packet_buffering, d)
    else if not (ltb d.packet_byte_count 1) && x == 0x80
    then (packet_buffering, record d { packet_byte_count = 0 })
    else store x d

-- Of a packet that is dispatched: absolute or relative.
pub handle_packet : {D : Type 0} → (List ℕ → D → D) → (List ℕ → D → D) → List ℕ → D → D
handle_packet absolute_event relative_event packet s =
    if bit_and (get_or packet 0 0) 0xf8 == 0xf8
    then absolute_event packet s
    else relative_event packet s

pub packet_ready_loop :
    {D : Type 0} → (List ℕ → D → D) → (List ℕ → D → D) → GlidePoint → D → GlidePoint × D
packet_ready_loop absolute_event relative_event d s =
    let (r, s') =
      drain ring_size packet_length_max (handle_packet absolute_event relative_event)
        (count ring_size d.ring) d.ring s in
    (record d { ring = r }, s')

abbrev pub scroll_none : ℕ
scroll_none = 0

abbrev pub scroll_horiz : ℕ
scroll_horiz = 1

abbrev pub scroll_vert : ℕ
scroll_vert = 2

-- `insideScrollArea`: what it answers is also what it leaves in `_scrolling`.
pub inside_scroll_area : ℕ → ℕ → ℕ → ℕ
inside_scroll_area scrolling x y =
    if ltb 900 x && ltb 650 y
    then (if scrolling == scroll_vert then scroll_vert else scroll_horiz)
    else if ltb 900 x
    then scroll_vert
    else if ltb 650 y
    then scroll_horiz
    else scroll_none

abbrev pub set_button : ℕ → ℕ → ℕ
set_button byte0 b = if bit_and byte0 b != 0 then b else 0

-- "if ( (packet[0] & 0x1) ) buttons |= 0x1;" and so on.
abbrev pub buttons_of : ℕ → ℕ
buttons_of byte0 =
    bit_or (bit_or (bit_or 0 (set_button byte0 0x1)) (set_button byte0 0x2)) (set_button byte0 0x4)

abbrev pub extend : ℕ → ℕ → ℕ → ℤ
extend byte0 sign low = if bit_and byte0 sign != 0 then pos low -ℤ pos 256 else pos low

pub relative_event : List ℕ → ℕ → PointerEvent
relative_event packet now =
    let byte0 = get_or packet 0 0 in
    relative (extend byte0 0x10 (get_or packet 1 0)) (extend byte0 0x20 (get_or packet 2 0))
      (buttons_of byte0) now
