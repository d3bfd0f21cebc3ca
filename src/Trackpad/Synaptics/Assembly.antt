-- ===== src/Trackpad/Synaptics/Assembly.antt =====
-- The interrupt routine of the Synaptics touch pad puts packets of six bytes together.
use os_x_voodoo_ps2_controll.Base.{
  ℕ, ◌+◌, ◌<◌, ◌≡◌, ◌∙◌, ap, refl, arith, false, ◌&&◌, List, [], ◌∷◌, ◌++◌, ltb, ◌==◌, ◌!=◌,
  if◌then◌else◌, bit_and, length, set, get_or,
}
use os_x_voodoo_ps2_controll.Device.{sc_reset}
use os_x_voodoo_ps2_controll.Ring.{Ring, count, poke, advance_head}
use os_x_voodoo_ps2_controll.Ring.Valid.{contents}
use os_x_voodoo_ps2_controll.Ring.Packets.{
  slot, slot-poke, length-slot, contents-poke, count-poke, contents-advance_head, Publishes,
}
use os_x_voodoo_ps2_controll.Ring.Aligned.{
  Aligned, Aligned-HasSlots, poke-Aligned, advance_head-Aligned,
}
use os_x_voodoo_ps2_controll.Ring.Drain.{Drained, drain-Drained}
use os_x_voodoo_ps2_controll.Trackpad.Synaptics.{
  TouchPad, ring_size, packet_length, post, interrupt_occurred, packet_ready_loop,
}

pub record IsValid (d : TouchPad) : Type 0 where
  pub aligned : Aligned ring_size packet_length d.ring
  pub incomplete : d.packet_byte_count < packet_length

post-Aligned :
    (reason : ℕ) (r : Ring ℕ)
    → Aligned ring_size packet_length r
    → Aligned ring_size packet_length (post reason r)
post-Aligned reason r a = advance_head-Aligned (poke-Aligned (poke-Aligned a 0 0) 1 reason)

store-Aligned :
    (i x : ℕ) (r : Ring ℕ)
    → Aligned ring_size packet_length r
    → Aligned ring_size packet_length (advance_head ring_size packet_length (poke r i x))
store-Aligned i x r a = advance_head-Aligned (poke-Aligned a i x)

-- The interrupt routine of the Synaptics touch pad keeps the ring in whole slots and the bytes of a
-- packet fewer than six, whatever byte arrives.
pub synaptics_interrupt-IsValid :
    (x : ℕ) (d : TouchPad) → IsValid d → IsValid (interrupt_occurred x d).1
unfolding interrupt_occurred
synaptics_interrupt-IsValid x d v = ground (
  arith,
  post-Aligned sc_reset d.ring v.aligned,
  post-Aligned 0 d.ring v.aligned,
  post-Aligned 3 d.ring v.aligned,
  poke-Aligned v.aligned d.packet_byte_count x,
  store-Aligned d.packet_byte_count x d.ring v.aligned,
)

-- The work loop handles every packet that is stored, once and in order, and leaves the ring empty.
pub synaptics_loop-Drained :
    {D : Type 0} (dispatch : List ℕ → D → D) (d : TouchPad) (s : D)
    → IsValid d
    → Drained ring_size packet_length
        (λ packet t. if get_or packet 0 0 != 0 then dispatch packet t else t)
        d.ring
        s
        ((packet_ready_loop dispatch d s).0.ring, (packet_ready_loop dispatch d s).1)
unfolding packet_ready_loop
synaptics_loop-Drained dispatch d s v =
    drain-Drained ring_size packet_length _ (count ring_size d.ring) d.ring s v.aligned
      (omega arith)

-- Six bytes, written into the slot one after another.
abbrev fill : ℕ → ℕ → ℕ → ℕ → ℕ → ℕ → Ring ℕ → Ring ℕ
fill a b c x y z r = poke (poke (poke (poke (poke (poke r 0 a) 1 b) 2 c) 3 x) 4 y) 5 z

six :
    (xs : List ℕ) (a b c x y z : ℕ)
    → length xs ≡ 6
    → set (set (set (set (set (set xs 0 a) 1 b) 2 c) 3 x) 4 y) 5 z ≡ a ∷ b ∷ c ∷ x ∷ y ∷ z ∷ []
six (a ∷ b ∷ c ∷ x ∷ y ∷ z ∷ []) a' b' c' x' y' z' h = refl
six [] a b c x y z h = absurd (omega arith)
six (u ∷ []) a b c x y z h = absurd (omega arith)
six (u ∷ v ∷ []) a b c x y z h = absurd (omega arith)
six (u ∷ v ∷ w ∷ []) a b c x y z h = absurd (omega arith)
six (u ∷ v ∷ w ∷ u' ∷ []) a b c x y z h = absurd (omega arith)
six (u ∷ v ∷ w ∷ u' ∷ v' ∷ []) a b c x y z h = absurd (omega arith)
six (u ∷ v ∷ w ∷ u' ∷ v' ∷ w' ∷ t ∷ l) a b c x y z h = absurd (omega arith)

abbrev pub next : ℕ → TouchPad → TouchPad
next x d = (interrupt_occurred x d).1

-- The byte `y` does not complete an announcement of a reset, $AA $00, after `x`.
abbrev pub Quiet : ℕ → ℕ → Type 0
Quiet x y = (x == sc_reset && y == 0) ≡ false

abbrev with_byte : ℕ → TouchPad → TouchPad
with_byte x d = record d {
  last_data = x;
  ring = poke d.ring d.packet_byte_count x;
  packet_byte_count = d.packet_byte_count + 1;
}

next-middle :
    (x : ℕ) (d : TouchPad)
    → Quiet d.last_data x
    → (d.packet_byte_count ≡ 0 → bit_and x 0xc8 ≡ 0x80)
    → (d.packet_byte_count ≡ 3 → bit_and x 0xc8 ≡ 0xc0)
    → d.packet_byte_count < 5
    → next x d ≡ with_byte x d
unfolding interrupt_occurred
next-middle x d quiet first fourth more = ground arith

next-last :
    (x : ℕ) (d : TouchPad)
    → Quiet d.last_data x
    → d.packet_byte_count ≡ 5
    → next x d ≡ record d {
      last_data = x;
      ring = advance_head ring_size packet_length (poke d.ring 5 x);
      packet_byte_count = 0;
    }
unfolding interrupt_occurred
next-last x d quiet done = ground arith

fill-Aligned :
    (a b c x y z : ℕ) (r : Ring ℕ)
    → Aligned ring_size packet_length r
    → Aligned ring_size packet_length (fill a b c x y z r)
fill-Aligned a b c x y z r v =
    poke-Aligned
      (poke-Aligned (poke-Aligned (poke-Aligned (poke-Aligned (poke-Aligned v 0 a) 1 b) 2 c) 3 x) 4
        y)
      5 z

slot-fill :
    (a b c x y z : ℕ) (r : Ring ℕ)
    → Aligned ring_size packet_length r
    → slot packet_length (fill a b c x y z r) ≡ a ∷ b ∷ c ∷ x ∷ y ∷ z ∷ []
slot-fill a b c x y z r v =
    slot-poke ring_size packet_length _ 5 z (omega arith)
    ∙ ap (λ l. set l 5 z)
        (slot-poke ring_size packet_length _ 4 y (omega arith)
          ∙ ap (λ l. set l 4 y)
              (slot-poke ring_size packet_length _ 3 x (omega arith)
                ∙ ap (λ l. set l 3 x)
                    (slot-poke ring_size packet_length _ 2 c (omega arith)
                      ∙ ap (λ l. set l 2 c)
                          (slot-poke ring_size packet_length _ 1 b (omega arith)
                            ∙ ap (λ l. set l 1 b)
                                (slot-poke ring_size packet_length r 0 a (omega arith))))))
    ∙ six (slot packet_length r) a b c x y z
        (length-slot ring_size packet_length r (Aligned-HasSlots v))

-- Poking inside the slot changes neither what is stored nor how much.
poke-stored :
    (i x : ℕ) (r : Ring ℕ)
    → Aligned ring_size packet_length r
    → i < packet_length
    → contents (poke r i x) ≡ contents r
poke-stored i x r v h = contents-poke ring_size packet_length r i x (Aligned-HasSlots v) h

fill-stored :
    (a b c x y z : ℕ) (r : Ring ℕ)
    → Aligned ring_size packet_length r
    → contents (fill a b c x y z r) ≡ contents r
fill-stored a b c x y z r v =
    let v1 = poke-Aligned v 0 a in
    let v2 = poke-Aligned v1 1 b in
    let v3 = poke-Aligned v2 2 c in
    let v4 = poke-Aligned v3 3 x in
    let v5 = poke-Aligned v4 4 y in
    poke-stored 5 z _ v5 (omega arith)
    ∙ poke-stored 4 y _ v4 (omega arith)
    ∙ poke-stored 3 x _ v3 (omega arith)
    ∙ poke-stored 2 c _ v2 (omega arith)
    ∙ poke-stored 1 b _ v1 (omega arith)
    ∙ poke-stored 0 a r v (omega arith)

fill-count :
    (a b c x y z : ℕ) (r : Ring ℕ) → count ring_size (fill a b c x y z r) ≡ count ring_size r
fill-count a b c x y z r =
    poke-count 5 z _
    ∙ poke-count 4 y _
    ∙ poke-count 3 x _
    ∙ poke-count 2 c _
    ∙ poke-count 1 b _
    ∙ poke-count 0 a r
  where
    poke-count : (i x : ℕ) (r : Ring ℕ) → count ring_size (poke r i x) ≡ count ring_size r
    poke-count i x r = count-poke ring_size packet_length r i x

six-next :
    (a b c x y z : ℕ) (d : TouchPad)
    → d.packet_byte_count ≡ 0
    → bit_and a 0xc8 ≡ 0x80
    → bit_and x 0xc8 ≡ 0xc0
    → Quiet d.last_data a
    → Quiet a b
    → Quiet b c
    → Quiet c x
    → Quiet x y
    → Quiet y z
    → next z (next y (next x (next c (next b (next a d))))) ≡ record d {
      last_data = z;
      ring = advance_head ring_size packet_length (fill a b c x y z d.ring);
      packet_byte_count = 0;
    }
six-next a b c x y z d start first fourth qa qb qc qx qy qz =
    let d1 : TouchPad = record d { last_data = a; ring = poke d.ring 0 a; packet_byte_count = 1 } in
    let d2 = with_byte b d1 in
    let d3 = with_byte c d2 in
    let d4 = with_byte x d3 in
    let d5 = with_byte y d4 in
    let e1 : next a d ≡ d1 =
      ground (arith, next-middle a d qa (λ _. first) (λ e. absurd (omega arith)) (omega arith)) in
    ap (λ s. next z (next y (next x (next c (next b s))))) e1
    ∙ ap (λ s. next z (next y (next x (next c s))))
        (next-middle b d1 qb (λ e. absurd (omega arith)) (λ e. absurd (omega arith)) (omega arith))
    ∙ ap (λ s. next z (next y (next x s)))
        (next-middle c d2 qc (λ e. absurd (omega arith)) (λ e. absurd (omega arith)) (omega arith))
    ∙ ap (λ s. next z (next y s))
        (next-middle x d3 qx (λ e. absurd (omega arith)) (λ _. fourth) (omega arith))
    ∙ ap (λ s. next z s)
        (next-middle y d4 qy (λ e. absurd (omega arith)) (λ e. absurd (omega arith)) (omega arith))
    ∙ next-last z d5 qz refl

-- In a valid state between two packets, six bytes arrive, of which the first and the fourth carry
-- the marks of a packet, and none announces a reset: they are appended to the ring as one packet if
-- there is room for it, else nothing is stored; in both cases the next byte starts a packet.
pub synaptics_assemble :
    (a b c x y z : ℕ) (d : TouchPad)
    → IsValid d
    → d.packet_byte_count ≡ 0
    → bit_and a 0xc8 ≡ 0x80
    → bit_and x 0xc8 ≡ 0xc0
    → Quiet d.last_data a
    → Quiet a b
    → Quiet b c
    → Quiet c x
    → Quiet x y
    → Quiet y z
    → Publishes ring_size packet_length
        (a ∷ b ∷ c ∷ x ∷ y ∷ z ∷ [])
        d.ring
        (next z (next y (next x (next c (next b (next a d)))))).ring
      × ((next z (next y (next x (next c (next b (next a d)))))).packet_byte_count ≡ 0)
synaptics_assemble a b c x y z d v start first fourth qa qb qc qx qy qz =
    let r = fill a b c x y z d.ring in
    let n = six-next a b c x y z d start first fourth qa qb qc qx qy qz in
    (
      ap (λ (t : TouchPad). contents t.ring) n
          ∙ contents-advance_head ring_size packet_length r
              (Aligned-HasSlots (fill-Aligned a b c x y z d.ring v.aligned))
          ∙ ap
              (λ k.
                if ltb (k + packet_length) ring_size
                then contents r ++ slot packet_length r
                else contents r)
              (fill-count a b c x y z d.ring)
          ∙ ap
              (λ l.
                if ltb (count ring_size d.ring + packet_length) ring_size
                then l ++ slot packet_length r
                else l)
              (fill-stored a b c x y z d.ring v.aligned)
          ∙ ap
              (λ l.
                if ltb (count ring_size d.ring + packet_length) ring_size
                then contents d.ring ++ l
                else contents d.ring)
              (slot-fill a b c x y z d.ring v.aligned),
      ap (λ (t : TouchPad). t.packet_byte_count) n,
    )
