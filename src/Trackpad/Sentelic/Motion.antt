-- ===== src/Trackpad/Sentelic/Motion.antt =====
-- What the Sentelic driver makes of the bytes of a packet.
use os_x_voodoo_ps2_controll.Base.{
  ℕ, ◌-◌, ◌/◌, ◌%◌, ◌≤◌, ◌<◌, ◌≡◌, refl, arith, true, ◌&&◌, ◌==◌, ◌!=◌, if◌then◌else◌, bit_and,
  bit_or,
}
use os_x_voodoo_ps2_controll.Base.Bytes.{every_below, byte_table}
use os_x_voodoo_ps2_controll.Base.Int.{pos, ◌-ℤ◌, signed32}
use os_x_voodoo_ps2_controll.Ring.{count}
use os_x_voodoo_ps2_controll.Ring.Aligned.{Aligned, poke-Aligned, advance_head-Aligned}
use os_x_voodoo_ps2_controll.Ring.Drain.{Drained, drain-Drained}
use os_x_voodoo_ps2_controll.Mouse.Motion.{sign_bits}
use os_x_voodoo_ps2_controll.Trackpad.Sentelic.{
  Fsp, Output, ring_size, packet_length_max, interrupt_occurred, sign_extend, packet_buttons,
  set_button, handle_packet, packet_ready_loop,
}

pub record IsValid (d : Fsp) : Type 0 where
  pub aligned : Aligned ring_size packet_length_max d.ring
  pub incomplete : d.packet_byte_count < d.packet_size
  pub fits : d.packet_size ≤ packet_length_max

-- The interrupt routine of the Sentelic driver keeps the ring in whole slots and the bytes of a
-- packet fewer than its size, whatever byte arrives.
pub sentelic_interrupt-IsValid : (x : ℕ) (d : Fsp) → IsValid d → IsValid (interrupt_occurred x d).1
unfolding interrupt_occurred
sentelic_interrupt-IsValid x d v = ground (
  arith,
  poke-Aligned v.aligned d.packet_byte_count x,
  advance_head-Aligned (poke-Aligned v.aligned d.packet_byte_count x),
)

-- The work loop handles every packet that is stored, once and in order, and leaves the ring empty.
pub sentelic_loop-Drained :
    (uptime : ℕ → ℕ) (d : Fsp) (s : Output)
    → IsValid d
    → Drained ring_size packet_length_max
        (handle_packet uptime d.touch_pad_mode_byte d.packet_size)
        d.ring
        s
        ((packet_ready_loop uptime d s).0.ring, (packet_ready_loop uptime d s).1)
unfolding packet_ready_loop
sentelic_loop-Drained uptime d s v =
    drain-Drained ring_size packet_length_max _ (count ring_size d.ring) d.ring s v.aligned
      (omega arith)

-- The 32-bit negation of a sign extended byte, read as a signed number, is the negation of the
-- byte's delta.
pub negated-delta :
    (byte0 sign low : ℕ)
    → low < 256
    → signed32 ((0x1_0000_0000 - sign_extend byte0 sign low) % 0x1_0000_0000)
      ≡ (pos 0 -ℤ (if bit_and byte0 sign != 0 then pos low -ℤ pos 256 else pos low))
unfolding ◌-ℤ◌
negated-delta byte0 sign low h = ground (arith, sign_bits low h)

buttons_table :
    every_below 256 (λ x.
      bit_or (bit_or (bit_or 0 (set_button x 0x1)) (set_button x 0x2)) (set_button x 0x4) == x % 8)
    ≡ true
unfolding every_below
buttons_table = refl

-- With gestures off a tap presses no button; otherwise the buttons are the three lowest bits.
pub packet_buttons_lem :
    (mode byte0 : ℕ)
    → byte0 < 256
    → packet_buttons mode byte0 ≡ (if mode != 0 && byte0 / 64 == 3 then 0 else byte0 % 8)
unfolding packet_buttons
packet_buttons_lem mode byte0 h = ground (
  arith,
  byte_table
      (λ x.
        bit_or (bit_or (bit_or 0 (set_button x 0x1)) (set_button x 0x2)) (set_button x 0x4)
        == x % 8)
      buttons_table byte0 h,
)
