-- ===== src/Keyboard/Announce.antt =====
-- The packets that the interrupt routine of the keyboard writes into the ring.
use os_x_voodoo_ps2_controll.Base.{
  ℕ, zero, suc, ◌+◌, ◌/◌, ◌%◌, ◌^◌, ◌≤◌, ◌<◌, ◌≡◌, ◌∙◌, ap, sym, refl, arith, Bool, true, false,
  not, ◌||◌, List, [], ◌∷◌, ◌==◌, ◌!=◌, if◌then◌else◌, bit_and, length, get_or, set,
}
use mathlib.Core.Path.{subst}
use os_x_voodoo_ps2_controll.Device.{sc_up_bit}
use os_x_voodoo_ps2_controll.Ring.{Ring, count, poke}
use os_x_voodoo_ps2_controll.Ring.Valid.{contents}
use os_x_voodoo_ps2_controll.Ring.Packets.{
  slot, slot-poke, length-slot, contents-poke, count-poke, contents-advance_head, Publishes,
}
use os_x_voodoo_ps2_controll.Ring.Aligned.{Aligned, Aligned-HasSlots, poke-Aligned}
use os_x_voodoo_ps2_controll.Keyboard.{
  Keyboard, ring_size, packet_length, packet_time_offset, poke_value, publish, key_data,
  interrupt_occurred, raw_key, is_key_down, breakless_key,
}
use os_x_voodoo_ps2_controll.Keyboard.Held.{IsCode, is_ready, interrupt-held}
use os_x_voodoo_ps2_controll.Keyboard.Packets.{IsValid, poke_value-Aligned}
use os_x_voodoo_ps2_controll.Keyboard.Macros.{packet_time}
use os_x_voodoo_ps2_controll.Keyboard.Values.{
  put_value, get_or-put_value, IsSmall, value_of-put_value,
}

slot-poke_value :
    (n i x : ℕ) (r : Ring ℕ)
    → i + n ≤ packet_length
    → slot packet_length (poke_value n i x r) ≡ put_value n i x (slot packet_length r)
unfolding put_value poke_value
slot-poke_value zero i x r h = refl
slot-poke_value (suc n) i x r h =
    slot-poke_value n (i + 1) (x / 256) (poke r i (x % 256)) (omega arith)
    ∙ ap (put_value n (i + 1) (x / 256))
        (slot-poke ring_size packet_length r i (x % 256) (omega arith))

stored-poke_value :
    (n i x : ℕ) (r : Ring ℕ)
    → Aligned ring_size packet_length r
    → i + n ≤ packet_length
    → (contents (poke_value n i x r) ≡ contents r)
      × (count ring_size (poke_value n i x r) ≡ count ring_size r)
unfolding poke_value
stored-poke_value zero i x r a h = (refl, refl)
stored-poke_value (suc n) i x r a h =
    let rest =
      stored-poke_value n (i + 1) (x / 256) (poke r i (x % 256)) (poke-Aligned a i (x % 256))
        (omega arith) in
    (
      rest.0
          ∙ contents-poke ring_size packet_length r i (x % 256) (Aligned-HasSlots a) (omega arith),
      rest.1 ∙ count-poke ring_size packet_length r i (x % 256),
    )

-- Between two states of the ring a packet was appended, if there was room for it: two bytes of key data
-- and then, from the eighth byte on, the time.
pub record Announced (now first second : ℕ) (r r' : Ring ℕ) : Type 0 where
  pub packet : List ℕ
  pub padded : length packet ≡ packet_length
  pub first_byte : get_or packet 0 0 ≡ first
  pub second_byte : get_or packet 1 0 ≡ second
  pub time : packet_time packet ≡ now
  pub published : Publishes ring_size packet_length packet r r'

IsSmall-time : (now : ℕ) → now < 2 ^ 64 → IsSmall 8 now
unfolding IsSmall
IsSmall-time now h = omega arith

module _ (now first second : ℕ) (r : Ring ℕ) (a : Aligned ring_size packet_length r) where
  abbrev keyed : Ring ℕ
  keyed = poke (poke r 0 first) 1 second

  abbrev timed : Ring ℕ
  timed = poke_value 8 packet_time_offset now keyed

  keyed-Aligned : Aligned ring_size packet_length keyed
  keyed-Aligned = poke-Aligned (poke-Aligned a 0 first) 1 second

  timed-Aligned : Aligned ring_size packet_length timed
  timed-Aligned = poke_value-Aligned 8 packet_time_offset now keyed keyed-Aligned

  slot-keyed : slot packet_length keyed ≡ set (set (slot packet_length r) 0 first) 1 second
  slot-keyed =
      slot-poke ring_size packet_length (poke r 0 first) 1 second (omega arith)
      ∙ ap (λ l. set l 1 second) (slot-poke ring_size packet_length r 0 first (omega arith))

  length-keyed : length (slot packet_length keyed) ≡ packet_length
  length-keyed = length-slot ring_size packet_length keyed (Aligned-HasSlots keyed-Aligned)

  slot-timed :
      slot packet_length timed ≡ put_value 8 packet_time_offset now (slot packet_length keyed)
  slot-timed = slot-poke_value 8 packet_time_offset now keyed (omega arith)

  two_bytes :
      (l : List ℕ)
      → length l ≡ packet_length
      → (get_or (set (set l 0 first) 1 second) 0 0 ≡ first)
        × (get_or (set (set l 0 first) 1 second) 1 0 ≡ second)
  two_bytes (x ∷ y ∷ l) h = (refl, refl)
  two_bytes [] h = absurd (omega arith)
  two_bytes (x ∷ []) h = absurd (omega arith)

  stored-timed : (contents timed ≡ contents r) × (count ring_size timed ≡ count ring_size r)
  stored-timed =
      let rest = stored-poke_value 8 packet_time_offset now keyed keyed-Aligned (omega arith) in
      (
        rest.0
            ∙ contents-poke ring_size packet_length (poke r 0 first) 1 second
                (Aligned-HasSlots (poke-Aligned a 0 first)) (omega arith)
            ∙ contents-poke ring_size packet_length r 0 first (Aligned-HasSlots a) (omega arith),
        rest.1
            ∙ count-poke ring_size packet_length (poke r 0 first) 1 second
            ∙ count-poke ring_size packet_length r 0 first,
      )

  pub publish-Announced : now < 2 ^ 64 → Announced now first second r (publish now first second r)
  publish-Announced h =
      let both =
        two_bytes (slot packet_length r)
          (length-slot ring_size packet_length r (Aligned-HasSlots a)) in
      record {
        packet = slot packet_length timed;
        padded = length-slot ring_size packet_length timed (Aligned-HasSlots timed-Aligned);
        first_byte =
            ap (λ l. get_or l 0 0) slot-timed
            ∙ get_or-put_value 8 packet_time_offset now 0 _ (omega arith)
            ∙ ap (λ l. get_or l 0 0) slot-keyed
            ∙ both.0;
        second_byte =
            ap (λ l. get_or l 1 0) slot-timed
            ∙ get_or-put_value 8 packet_time_offset now 1 _ (omega arith)
            ∙ ap (λ l. get_or l 1 0) slot-keyed
            ∙ both.1;
        time =
            ap packet_time slot-timed
            ∙ value_of-put_value 8 packet_time_offset now _ (omega (arith, length-keyed))
                (IsSmall-time now h);
        published = ground (
          arith,
          contents-advance_head ring_size packet_length timed (Aligned-HasSlots timed-Aligned),
          stored-timed,
        );
      }

-- The ring after a scan code, by whether the interrupt routine says that a packet is ready.
pub interrupt-ring :
    (uptime : ℕ → ℕ) (x : ℕ) (k : Keyboard)
    → IsCode x k
    → (interrupt_occurred uptime x k).1.ring ≡ (
        if is_ready (interrupt_occurred uptime x k).0
        then publish (uptime k.clock_reads) (k.extend_count + 1) x k.ring
        else k.ring)
unfolding interrupt_occurred key_data
interrupt-ring uptime x k c = ground (arith, c)

by_result :
    (b b' : Bool) (P : Ring ℕ → Type 0) (new r r' : Ring ℕ)
    → b' ≡ b
    → r' ≡ (if b' then new else r)
    → P new
    → if b then P r' else (r' ≡ r)
by_result true b' P new r r' e f p = subst P (sym (f ∙ ap (λ c. if c then new else r) e)) p
by_result false b' P new r r' e f p = f ∙ ap (λ c. if c then new else r) e

-- In a valid state and with a clock below 2 ^ 64, a scan code of a key that generates break codes, outside
-- the Pause sequence and the announcement of a reset, appends one packet to the ring, if there is room for
-- it: which of the two sets of codes it is of, the code and the time of the interrupt. Only the make of a
-- key that is down already leaves the ring as it is. The result says which it was. After it the key is
-- down if it was a make and up if it was a break, every other key is as it was, and the next byte starts
-- a new code.
pub interrupt-announces :
    (uptime : ℕ → ℕ) (x other : ℕ) (k : Keyboard)
    → IsValid k
    → IsCode x k
    → uptime k.clock_reads < 2 ^ 64
    → bit_and (get_or k.ps2_flags (raw_key k.extend_count x) 0) breakless_key ≡ 0
    → (is_ready (interrupt_occurred uptime x k).0 ≡ (
        bit_and x sc_up_bit != 0 || not (is_key_down (raw_key k.extend_count x) k.key_bit_vector)))
      × (if bit_and x sc_up_bit != 0
            || not (is_key_down (raw_key k.extend_count x) k.key_bit_vector)
          then Announced
              (uptime k.clock_reads)
              (k.extend_count + 1)
              x
              k.ring
              (interrupt_occurred uptime x k).1.ring
          else (interrupt_occurred uptime x k).1.ring ≡ k.ring)
      × (is_key_down other (interrupt_occurred uptime x k).1.key_bit_vector ≡ (
          if other == raw_key k.extend_count x
          then bit_and x sc_up_bit == 0
          else is_key_down other k.key_bit_vector))
      × ((interrupt_occurred uptime x k).1.extend_count ≡ 0)
interrupt-announces uptime x other k v c h breaks =
    let held = interrupt-held uptime x other k c v.units breaks in
    let ring = interrupt-ring uptime x k c in
    let new = publish-Announced (uptime k.clock_reads) (k.extend_count + 1) x k.ring v.aligned h in
    (
      held.0,
      by_result
          (bit_and x sc_up_bit != 0
            || not (is_key_down (raw_key k.extend_count x) k.key_bit_vector))
          _ (Announced (uptime k.clock_reads) (k.extend_count + 1) x k.ring) _ k.ring _ held.0 ring
          new,
      held.1,
      held.2,
    )
