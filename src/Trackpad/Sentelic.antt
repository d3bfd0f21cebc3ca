-- ===== src/Trackpad/Sentelic.antt =====
-- ApplePS2SentelicFSP (VoodooPS2Trackpad/VoodooPS2SentelicFSP.cpp and .h): the interrupt routine,
-- packetReady and the dispatch of a packet.
pub mod Motion
use os_x_voodoo_ps2_controll.Base.{
  ℕ, ◌+◌, ◌-◌, ◌*◌, ◌/◌, ◌%◌, Bool, true, false, not, ◌&&◌, ◌||◌, List, [], ◌∷◌, ◌++◌, ltb, ◌==◌,
  ◌!=◌, if◌then◌else◌, bit_and, bit_or, get_or,
}
use os_x_voodoo_ps2_controll.Base.Int.{ℤ, pos, ◌-ℤ◌, signed32}
use os_x_voodoo_ps2_controll.Device.{
  InterruptResult, packet_ready, packet_buffering, sc_acknowledge, PointerEvent, relative,
  scroll_event,
}
use os_x_voodoo_ps2_controll.Ring.{Ring, count, poke, advance_head}
use os_x_voodoo_ps2_controll.Ring.Drain.{drain}

abbrev pub packet_length_max : ℕ
packet_length_max = 4

abbrev pub ring_size : ℕ
ring_size = packet_length_max * 32

pub record Fsp : Type 0 where
  pub ring : Ring ℕ
  pub packet_byte_count : ℕ
  pub packet_size : ℕ
  pub touch_pad_mode_byte : ℕ

pub interrupt_occurred : ℕ → Fsp → InterruptResult × Fsp
interrupt_occurred x d =
    if d.packet_byte_count == 0 && (x == sc_acknowledge || bit_and x 0x08 == 0)
    then (packet_buffering, d)
    else let r = poke d.ring d.packet_byte_count x in
      let stored = d.packet_byte_count + 1 in
      if stored == d.packet_size
      then (
        packet_ready,
        record d { ring = advance_head ring_size packet_length_max r; packet_byte_count = 0 },
      )
      else (packet_buffering, record d { ring = r; packet_byte_count = stored })

abbrev pub sign_extend : ℕ → ℕ → ℕ → ℕ
sign_extend byte0 sign low = bit_or (if bit_and byte0 sign != 0 then 0xffff_ff00 else 0) low

abbrev pub set_button : ℕ → ℕ → ℕ
set_button byte0 b = if bit_and byte0 b != 0 then b else 0

-- The buttons of a packet: a tap counts only while gestures are on.
pub packet_buttons : ℕ → ℕ → ℕ
packet_buttons mode byte0 =
    if mode == 0x00 || byte0 / 64 != 0x03
    then bit_or (bit_or (bit_or 0 (set_button byte0 0x1)) (set_button byte0 0x2))
        (set_button byte0 0x4)
    else 0

-- dispatchRelativePointerEventWithPacket: the events, in order. The negation of `dy` is on 32-bit
-- numbers without sign.
pub events_of : ℕ → ℕ → List ℕ → ℕ → List PointerEvent
events_of mode packet_size packet now =
    let byte0 = get_or packet 0 0 in
    let byte3 = get_or packet 3 0 in
    let dx = signed32 (sign_extend byte0 0x10 (get_or packet 1 0)) in
    let dy =
      signed32 ((0x1_0000_0000 - sign_extend byte0 0x20 (get_or packet 2 0)) % 0x1_0000_0000) in
    let dz = pos (bit_and byte3 8) -ℤ pos (bit_and byte3 7) in
    relative dx dy (packet_buttons mode byte0) now
    ∷ (if packet_size == 4 then scroll_event dz (pos 0) (pos 0) now ∷ [] else [])

-- The events that were dispatched, and how often the clock was read.
pub record Output : Type 0 where
  pub events : List PointerEvent
  pub clock_reads : ℕ

pub handle_packet : (ℕ → ℕ) → ℕ → ℕ → List ℕ → Output → Output
handle_packet uptime mode packet_size packet s = record s {
  events = s.events ++ events_of mode packet_size packet (uptime s.clock_reads);
  clock_reads = s.clock_reads + 1;
}

pub packet_ready_loop : (ℕ → ℕ) → Fsp → Output → Fsp × Output
packet_ready_loop uptime d s =
    let (r, s') =
      drain ring_size packet_length_max (handle_packet uptime d.touch_pad_mode_byte d.packet_size)
        (count ring_size d.ring) d.ring s in
    (record d { ring = r }, s')
