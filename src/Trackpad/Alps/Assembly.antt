-- ===== src/Trackpad/Alps/Assembly.antt =====
-- The interrupt routine of the ALPS driver, and what it makes of scroll areas and deltas.
use os_x_voodoo_ps2_controll.Base.{ℕ, ◌≤◌, ◌<◌, ◌≡◌, arith, ◌||◌, List, ltb, ◌!=◌}
use os_x_voodoo_ps2_controll.Base.Int.{◌-ℤ◌}
use os_x_voodoo_ps2_controll.Ring.{count}
use os_x_voodoo_ps2_controll.Ring.Aligned.{Aligned, poke-Aligned, advance_head-Aligned}
use os_x_voodoo_ps2_controll.Ring.Drain.{Drained, drain-Drained}
use os_x_voodoo_ps2_controll.Mouse.{delta}
use os_x_voodoo_ps2_controll.Mouse.Motion.{delta_lem}
use os_x_voodoo_ps2_controll.Trackpad.Alps.{
  GlidePoint, ring_size, packet_length_max, packet_length_large, store, interrupt_occurred,
  handle_packet, packet_ready_loop, inside_scroll_area, scroll_none, scroll_vert, extend,
}

pub record IsValid (d : GlidePoint) : Type 0 where
  pub aligned : Aligned ring_size packet_length_max d.ring
  pub incomplete : d.packet_byte_count < packet_length_large

-- The interrupt routine of the ALPS driver keeps the ring in whole slots and the bytes of a packet
-- fewer than six, whatever byte arrives.
pub alps_interrupt-IsValid :
    (x : ℕ) (d : GlidePoint) → IsValid d → IsValid (interrupt_occurred x d).1
unfolding interrupt_occurred store
alps_interrupt-IsValid x d v = ground (
  arith,
  poke-Aligned v.aligned d.packet_byte_count x,
  advance_head-Aligned (poke-Aligned v.aligned d.packet_byte_count x),
)

-- The work loop handles every packet that is stored, once and in order, and leaves the ring empty.
pub alps_loop-Drained :
    {D : Type 0} (absolute_event relative_event : List ℕ → D → D) (d : GlidePoint) (s : D)
    → IsValid d
    → Drained ring_size packet_length_max (handle_packet absolute_event relative_event) d.ring s (
      (packet_ready_loop absolute_event relative_event d s).0.ring,
      (packet_ready_loop absolute_event relative_event d s).1,
    )
unfolding packet_ready_loop
alps_loop-Drained absolute_event relative_event d s v =
    drain-Drained ring_size packet_length_max _ (count ring_size d.ring) d.ring s v.aligned
      (omega arith)

-- A point scrolls exactly if it is behind one of the two edges, and in one direction only; where both
-- edges meet, a vertical scroll that has begun goes on.
pub inside_scroll_area_lem :
    (scrolling x y : ℕ)
    → ((inside_scroll_area scrolling x y != scroll_none) ≡ (ltb 900 x || ltb 650 y))
      × (inside_scroll_area scrolling x y ≤ 2)
      × (scrolling ≡ scroll_vert → 900 < x → inside_scroll_area scrolling x y ≡ scroll_vert)
unfolding inside_scroll_area
inside_scroll_area_lem scrolling x y = (ground arith, ground arith, λ e h. ground arith)

-- The ALPS driver, which subtracts 256, and the mouse driver, which extends the sign, read the same
-- delta from a packet.
pub extend-delta : (byte0 sign low : ℕ) → low < 256 → extend byte0 sign low ≡ delta byte0 sign low
unfolding ◌-ℤ◌
extend-delta byte0 sign low h = ground (arith, delta_lem byte0 sign low h)
