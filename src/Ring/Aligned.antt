-- ===== src/Ring/Aligned.antt =====
-- "It is best that your buffer size is a multiple of the packet size": then every slot lies whole
-- in the array, and each operation of the drivers keeps it so.
use native.Mathlib.Nat.{div-add-mod, add-mod_right}
use os_x_voodoo_ps2_controll.Base.{ℕ, ◌+◌, ◌*◌, ◌/◌, ◌%◌, ◌≤◌, ◌<◌, ◌≡◌, ◌∙◌, arith}
use os_x_voodoo_ps2_controll.Ring.{Ring, span, count, advance_head, advance_tail, poke}
use os_x_voodoo_ps2_controll.Ring.Valid.{
  IsValid, advance_head-IsValid, advance_tail-IsValid, poke-IsValid,
}
use os_x_voodoo_ps2_controll.Ring.Packets.{HasSlots}

pub record Aligned {A : Type 0} (n move : ℕ) (r : Ring A) : Type 0 where
  pub valid : IsValid n r
  pub some_size : 0 < move
  pub size : n % move ≡ 0
  pub head_at : r.head % move ≡ 0
  pub tail_at : r.tail % move ≡ 0

lt_of_mul : (i j p : ℕ) → i * p < j * p → i < j
lt_of_mul i j p h = grind arith

mul_step : (i j p : ℕ) → i < j → i * p + p ≤ j * p
mul_step i j p h = grind arith

slot_step : (i j p : ℕ) → i * p < j * p → i * p + p ≤ j * p
slot_step i j p h = mul_step i j p (lt_of_mul i j p h)

multiple : (x p : ℕ) → x % p ≡ 0 → x ≡ x / p * p
multiple x p h = grind (arith, div-add-mod x p)

-- So multiples of the packet size that differ do so by a packet at least.
pub slot_lt : (x y p : ℕ) → x % p ≡ 0 → y % p ≡ 0 → x < y → x + p ≤ y
slot_lt x y p h k lt =
    let e = multiple x p h in
    let f = multiple y p k in omega (arith, e, f, slot_step (x / p) (y / p) p (omega (arith, e, f)))

add-multiple : (x p : ℕ) → x % p ≡ 0 → (x + p) % p ≡ 0
add-multiple x p h = add-mod_right x p ∙ h

module _ {A : Type 0} {n move : ℕ} {r : Ring A} (a : Aligned n move r) where
  pub Aligned-HasSlots : HasSlots n move r
  unfolding count span
  Aligned-HasSlots = ground (
    arith,
    slot_lt r.head n move a.head_at a.size,
    slot_lt r.tail n move a.tail_at a.size,
    slot_lt r.head r.tail move a.head_at a.tail_at,
  )

  -- A ring that is not empty holds a whole packet.
  pub Aligned-count : 0 < count n r → move ≤ count n r
  unfolding count span
  Aligned-count h = ground (
    arith,
    slot_lt r.tail r.head move a.tail_at a.head_at,
    slot_lt r.tail n move a.tail_at a.size,
  )

  pub poke-Aligned : (i : ℕ) (x : A) → Aligned n move (poke r i x)
  unfolding poke
  poke-Aligned i x = record {
    valid = poke-IsValid n i x r a.valid;
    some_size = a.some_size;
    size = a.size;
    head_at = a.head_at;
    tail_at = a.tail_at;
  }

module _ {A : Type 0} {n move : ℕ} {r : Ring A} (a : Aligned n move r) where
  move-le : move ≤ n
  move-le = ground (arith, a.valid, Aligned-HasSlots a)

  pub advance_head-Aligned : Aligned n move (advance_head n move r)
  unfolding advance_head span
  advance_head-Aligned =
      let v = Aligned-HasSlots a in
      let k : move ≤ n = move-le in
      record {
        valid = advance_head-IsValid n move r move-le a.valid;
        some_size = a.some_size;
        size = a.size;
        head_at =
            ground (arith, a.valid, a.head_at, v.head_slot, add-multiple r.head move a.head_at);
        tail_at = ground (arith, a.tail_at);
      }

  pub advance_tail-Aligned : Aligned n move (advance_tail n move r)
  unfolding advance_tail
  advance_tail-Aligned =
      let v = Aligned-HasSlots a in
      record {
        valid = advance_tail-IsValid n move r move-le a.valid;
        some_size = a.some_size;
        size = a.size;
        head_at = a.head_at;
        tail_at =
            ground (arith, a.valid, a.tail_at, v.tail_slot, add-multiple r.tail move a.tail_at);
      }
