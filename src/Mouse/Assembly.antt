-- ===== src/Mouse/Assembly.antt =====
-- The interrupt routine of the mouse: its invariant, and how it puts packets together from bytes.
use os_x_voodoo_ps2_controll.Base.{
  ℕ, suc, ◌+◌, ◌≤◌, ◌<◌, ◌≡◌, ◌≢◌, ◌∙◌, ap, refl, arith, false, ◌&&◌, ◌||◌, List, [], ◌∷◌, ◌++◌,
  ◌==◌, bit_and, take, length, append_assoc,
}
use os_x_voodoo_ps2_controll.Device.{sc_reset, sc_acknowledge}
use os_x_voodoo_ps2_controll.Ring.{Ring, poke, advance_head}
use os_x_voodoo_ps2_controll.Ring.Packets.{
  slot, contents-poke, prefix-poke, length-slot, Publishes, poke-Publishes, count-poke,
}
use os_x_voodoo_ps2_controll.Ring.Aligned.{
  Aligned, Aligned-HasSlots, poke-Aligned, advance_head-Aligned,
}
use os_x_voodoo_ps2_controll.Mouse.{Mouse, ring_size, packet_length_max, post, interrupt_occurred}

-- Packets are shorter than a slot, and are never complete between two interrupts.
pub record IsValid (d : Mouse) : Type 0 where
  pub aligned : Aligned ring_size packet_length_max d.ring
  pub incomplete : d.packet_byte_count < d.packet_length
  pub fits : d.packet_length ≤ packet_length_max
  pub resets : d.mouse_reset_count ≤ 5

post-Aligned :
    (reason : ℕ) (r : Ring ℕ)
    → Aligned ring_size packet_length_max r
    → Aligned ring_size packet_length_max (post reason r)
post-Aligned reason r a = advance_head-Aligned (poke-Aligned (poke-Aligned a 0 0) 1 reason)

store-Aligned :
    (i x : ℕ) (r : Ring ℕ)
    → Aligned ring_size packet_length_max r
    → Aligned ring_size packet_length_max (advance_head ring_size packet_length_max (poke r i x))
store-Aligned i x r a = advance_head-Aligned (poke-Aligned a i x)

-- The interrupt routine keeps the ring in whole slots, the bytes of a packet fewer than its length,
-- and the resets that it has posted in a row at most five, whatever byte arrives.
pub interrupt_occurred-IsValid :
    (x : ℕ) (d : Mouse) → IsValid d → IsValid (interrupt_occurred x d).1
unfolding interrupt_occurred
interrupt_occurred-IsValid x d v = ground (
  arith,
  post-Aligned sc_reset d.ring v.aligned,
  post-Aligned sc_acknowledge d.ring v.aligned,
  poke-Aligned v.aligned d.packet_byte_count x,
  store-Aligned d.packet_byte_count x d.ring v.aligned,
)

-- The bytes one after another.
pub feed : List ℕ → Mouse → Mouse
feed [] d = d
feed (x ∷ xs) d = feed xs (interrupt_occurred x d).1

-- The bytes hold no announcement of a reset, $AA $00.
abbrev pub NoReset : ℕ → List ℕ → Type 0
NoReset last [] = Unit {0}
NoReset last (x ∷ xs) = ((last == sc_reset && x == 0) ≡ false) × NoReset x xs

-- From `d` to `d'` the bytes were put together to one packet, padded to a slot, and the packet was
-- appended to the ring, if there was room for it.
pub record Assembled (d : Mouse) (bytes : List ℕ) (d' : Mouse) : Type 0 where
  pub packet : List ℕ
  pub padded : length packet ≡ packet_length_max
  pub holds : take d.packet_length packet ≡ bytes
  pub published : Publishes ring_size packet_length_max packet d.ring d'.ring
  pub synchronized : d'.packet_byte_count ≡ 0
  pub resets : d'.mouse_reset_count ≡ 0
  pub untouched : d'.state ≡ d.state
  pub same_length : d'.packet_length ≡ d.packet_length
  pub valid : IsValid d'

middle_byte :
    (x : ℕ) (d : Mouse)
    → (d.last_data == sc_reset && x == 0) ≡ false
    → (d.packet_byte_count ≡ 0 → (x == sc_acknowledge || bit_and x 0x08 == 0) ≡ false)
    → d.packet_byte_count + 1 ≢ d.packet_length
    → (interrupt_occurred x d).1 ≡ record d {
      last_data = x;
      ring = poke d.ring d.packet_byte_count x;
      packet_byte_count = d.packet_byte_count + 1;
    }
unfolding interrupt_occurred
middle_byte x d quiet start more = ground arith

last_byte :
    (x : ℕ) (d : Mouse)
    → (d.last_data == sc_reset && x == 0) ≡ false
    → 0 < d.packet_byte_count
    → d.packet_byte_count + 1 ≡ d.packet_length
    → (interrupt_occurred x d).1 ≡ record d {
      last_data = x;
      mouse_reset_count = 0;
      ring = advance_head ring_size packet_length_max (poke d.ring d.packet_byte_count x);
      packet_byte_count = 0;
    }
unfolding interrupt_occurred
last_byte x d quiet started done = ground arith

-- A byte inside a packet goes into the slot.
abbrev with_byte : ℕ → Mouse → Mouse
with_byte x d = record d {
  last_data = x;
  ring = poke d.ring d.packet_byte_count x;
  packet_byte_count = d.packet_byte_count + 1;
}

with_byte-IsValid :
    (x : ℕ) (d : Mouse)
    → IsValid d
    → d.packet_byte_count + 1 < d.packet_length
    → IsValid (with_byte x d)
with_byte-IsValid x d v h = record {
  aligned = poke-Aligned v.aligned d.packet_byte_count x;
  incomplete = h;
  fits = v.fits;
  resets = v.resets;
}

with_byte-Assembled :
    (x : ℕ) (bytes : List ℕ) (d d' : Mouse)
    → IsValid d
    → Assembled (with_byte x d) bytes d'
    → Assembled d bytes d'
with_byte-Assembled x bytes d d' v a = record {
  packet = a.packet;
  padded = a.padded;
  holds = a.holds;
  published = ground (
    arith,
    a.published,
    contents-poke ring_size packet_length_max d.ring d.packet_byte_count x
        (Aligned-HasSlots v.aligned) (omega (arith, v.incomplete, v.fits)),
    count-poke ring_size packet_length_max d.ring d.packet_byte_count x,
  );
  synchronized = a.synchronized;
  resets = a.resets;
  untouched = a.untouched;
  same_length = a.same_length;
  valid = a.valid;
}

prefix-with_byte :
    (x : ℕ) (got : List ℕ) (d : Mouse)
    → IsValid d
    → take d.packet_byte_count (slot packet_length_max d.ring) ≡ got
    → take (suc d.packet_byte_count) (slot packet_length_max (poke d.ring d.packet_byte_count x))
      ≡ got ++ x ∷ []
prefix-with_byte x got d v g =
    prefix-poke ring_size packet_length_max d.ring d.packet_byte_count x
      (Aligned-HasSlots v.aligned) (omega (arith, v.incomplete, v.fits))
    ∙ ap (λ l. l ++ x ∷ []) g

assemble_rest :
    (xs got : List ℕ) (d : Mouse)
    → IsValid d
    → 0 < d.packet_byte_count
    → d.packet_byte_count + length xs ≡ d.packet_length
    → NoReset d.last_data xs
    → take d.packet_byte_count (slot packet_length_max d.ring) ≡ got
    → Assembled d (got ++ xs) (feed xs d)
unfolding feed
assemble_rest [] got d v h e quiet g = absurd (omega (arith, v.incomplete))
assemble_rest (x ∷ []) got d v h e quiet g =
    let r' = poke d.ring d.packet_byte_count x in
    let w = Aligned-HasSlots (poke-Aligned v.aligned d.packet_byte_count x) in
    let eq = last_byte x d quiet.0 h (omega arith) in
    rw eq (record {
      packet = slot packet_length_max r';
      padded = length-slot ring_size packet_length_max r' w;
      holds =
          ap (λ k. take k (slot packet_length_max r')) {x = d.packet_length}
            {y = suc d.packet_byte_count} (omega arith)
          ∙ prefix-with_byte x got d v g;
      published =
          poke-Publishes ring_size packet_length_max d.ring d.packet_byte_count x
            (Aligned-HasSlots v.aligned) w (omega (arith, v.incomplete, v.fits));
      synchronized = refl;
      resets = refl;
      untouched = refl;
      same_length = refl;
      valid = rw eq at (interrupt_occurred-IsValid x d v);
    })
assemble_rest (x ∷ y ∷ ys) got d v h e quiet g =
    let eq = middle_byte x d quiet.0 (λ z. absurd (omega arith)) (omega arith) in
    let w = with_byte-IsValid x d v (omega arith) in
    let g' =
      ap (λ k. take k (slot packet_length_max (poke d.ring d.packet_byte_count x)))
        {x = d.packet_byte_count + 1} {y = suc d.packet_byte_count} (omega arith)
      ∙ prefix-with_byte x got d v g in
    let a =
      assemble_rest (y ∷ ys) (got ++ x ∷ []) (with_byte x d) w (omega arith) (omega arith) quiet.1
        g' in
    rw eq (with_byte-Assembled x (got ++ x ∷ y ∷ ys) d _ v (rw append_assoc at a))

-- In a valid state between two packets, bytes that make up a packet, of the negotiated length, with
-- a first byte that can start one and without an announcement of a reset, are put together to that
-- packet, which is appended to the ring if there is room; the state is valid and between two
-- packets again.
pub assemble :
    (x y : ℕ) (ys : List ℕ) (d : Mouse)
    → IsValid d
    → d.packet_byte_count ≡ 0
    → suc (suc (length ys)) ≡ d.packet_length
    → (x == sc_acknowledge || bit_and x 0x08 == 0) ≡ false
    → NoReset d.last_data (x ∷ y ∷ ys)
    → Assembled d (x ∷ y ∷ ys) (feed (x ∷ y ∷ ys) d)
unfolding feed
assemble x y ys d v h e starts quiet =
    let eq = middle_byte x d quiet.0 (λ z. starts) (omega arith) in
    let w = with_byte-IsValid x d v (omega arith) in
    let g' =
      ap (λ k. take k (slot packet_length_max (poke d.ring d.packet_byte_count x)))
        {x = d.packet_byte_count + 1} {y = suc d.packet_byte_count} (omega arith)
      ∙ prefix-with_byte x [] d v (ap (λ k. take k (slot packet_length_max d.ring)) h) in
    rw eq (
      with_byte-Assembled x (x ∷ y ∷ ys) d _ v
        (assemble_rest (y ∷ ys) (x ∷ []) (with_byte x d) w (omega arith) (omega arith) quiet.1 g'))
