-- ===== src/Keyboard/Packets.antt =====
-- The packets of the keyboard: the interrupt routine keeps the ring in whole slots, and packetReady
-- empties it.
use os_x_voodoo_ps2_controll.Base.{
  ℕ, zero, suc, ◌+◌, ◌/◌, ◌%◌, ◌≤◌, ◌≡◌, arith, List, ◌!=◌, if◌then◌else◌, length, get_or,
}
use os_x_voodoo_ps2_controll.Device.{sc_reset}
use os_x_voodoo_ps2_controll.Ring.{Ring, count, poke}
use os_x_voodoo_ps2_controll.Ring.Aligned.{Aligned, poke-Aligned, advance_head-Aligned}
use os_x_voodoo_ps2_controll.Ring.Drain.{drain, Drained, drain-Drained}
use os_x_voodoo_ps2_controll.Keyboard.{
  Keyboard, ring_size, packet_length, packet_time_offset, poke_value, publish, key_data,
  interrupt_occurred,
}
use os_x_voodoo_ps2_controll.Keyboard.Held.{interrupt-size}

pub record IsValid (k : Keyboard) : Type 0 where
  pub aligned : Aligned ring_size packet_length k.ring
  pub extended : k.extend_count ≤ 2
  pub units : length k.key_bit_vector ≡ 16

pub poke_value-Aligned :
    (n i x : ℕ) (r : Ring ℕ)
    → Aligned ring_size packet_length r
    → Aligned ring_size packet_length (poke_value n i x r)
unfolding poke_value
poke_value-Aligned zero i x r a = a
poke_value-Aligned (suc n) i x r a =
    poke_value-Aligned n (i + 1) (x / 256) (poke r i (x % 256)) (poke-Aligned a i (x % 256))

publish-Aligned :
    (now first second : ℕ) (r : Ring ℕ)
    → Aligned ring_size packet_length r
    → Aligned ring_size packet_length (publish now first second r)
publish-Aligned now first second r a =
    advance_head-Aligned (
      poke_value-Aligned 8 packet_time_offset now _
        (poke-Aligned (poke-Aligned a 0 first) 1 second))

-- The interrupt routine keeps the ring in whole packets, the extend count at most 2 and the key bit
-- vector at its size, whatever byte arrives.
pub interrupt_occurred-Keeps :
    (uptime : ℕ → ℕ) (x : ℕ) (k : Keyboard) → IsValid k → IsValid (interrupt_occurred uptime x k).1
unfolding interrupt_occurred key_data
interrupt_occurred-Keeps uptime x k v = ground (
  arith,
  v,
  interrupt-size uptime x k,
  publish-Aligned (uptime k.clock_reads) 0 sc_reset k.ring v.aligned,
  publish-Aligned (uptime k.clock_reads) (k.extend_count + 1) x k.ring v.aligned,
)

-- The loop of packetReady: `handle` is what it does with a packet.
module _ {D : Type 0} (handle : List ℕ → D → D) where
  unfoldable pub packet_ready_loop : Keyboard → D → Keyboard × D
  packet_ready_loop k d =
      let (r, d') =
        drain ring_size packet_length
          (λ packet s. if get_or packet 0 0 != 0 then handle packet s else s)
          (count ring_size k.ring) k.ring d in
      (record k { ring = r }, d')

  -- The work loop handles every packet that is stored, once and in order, and leaves the ring empty.
  pub keyboard_loop-Drained :
      (k : Keyboard) (d : D)
      → IsValid k
      → Drained ring_size packet_length
          (λ packet s. if get_or packet 0 0 != 0 then handle packet s else s)
          k.ring
          d
          ((packet_ready_loop k d).0.ring, (packet_ready_loop k d).1)
  unfolding packet_ready_loop
  keyboard_loop-Drained k d v =
      drain-Drained ring_size packet_length _ (count ring_size k.ring) k.ring d v.aligned
        (omega arith)
