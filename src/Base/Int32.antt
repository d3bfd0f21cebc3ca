-- ===== src/Base/Int32.antt =====
-- An `int` of 32 bits as an integer, which wraps.
use Prim.Native.Nat.{ℕ, ◌+◌, ◌-◌, ◌%◌, ◌^◌, ◌≤◌, ◌<◌}
use mathlib.Core.Path.{◌≡◌, ◌∙◌, ap, sym}
use native.Mathlib.Omega.{arith}
use os_x_voodoo_ps2_controll.Base.Int.{
  signed32, ℤ, pos, negsuc, ◌+ℤ◌, ◌-ℤ◌, pos_part, neg_part, +ℤ_parts, -ℤ_parts,
}

-- The lowest 32 bits, and the `int` that they stand for.
abbrev pub residue : ℤ → ℕ
residue (pos a) = a % 2 ^ 32
residue (negsuc a) = 2 ^ 32 - 1 - a % 2 ^ 32

unfoldable pub wrap_int : ℤ → ℤ
wrap_int z = signed32 (residue z)

residue_parts : (z : ℤ) → (residue z + neg_part z) % 2 ^ 32 ≡ pos_part z % 2 ^ 32
residue_parts (pos a) = omega arith
residue_parts (negsuc a) = omega arith

residue-wrap : (z : ℤ) → residue (wrap_int z) ≡ residue z
unfolding wrap_int
residue-wrap (pos a) = ground arith
residue-wrap (negsuc a) = ground arith

residue-lt : (z : ℤ) → residue z < 2 ^ 32
residue-lt (pos a) = omega arith
residue-lt (negsuc a) = omega arith

residue-add : (a b : ℤ) → residue (a +ℤ b) ≡ (residue a + residue b) % 2 ^ 32
residue-add a b = omega (
  arith,
  +ℤ_parts a b,
  residue_parts a,
  residue_parts b,
  residue_parts (a +ℤ b),
  residue-lt (a +ℤ b),
)

residue-sub : (a b : ℤ) → residue (a -ℤ b) ≡ (residue a + (2 ^ 32 - residue b)) % 2 ^ 32
residue-sub a b = omega (
  arith,
  -ℤ_parts a b,
  residue_parts a,
  residue_parts b,
  residue_parts (a -ℤ b),
  residue-lt b,
  residue-lt (a -ℤ b),
)

-- An addition or a subtraction may be wrapped early.
pub wrap-add : (a b : ℤ) → wrap_int (wrap_int a +ℤ b) ≡ wrap_int (a +ℤ b)
unfolding wrap_int
wrap-add a b = ap signed32 (
    residue-add (wrap_int a) b
    ∙ ap (λ r. (r + residue b) % 2 ^ 32) (residue-wrap a)
    ∙ sym (residue-add a b))

pub wrap-sub : (a b : ℤ) → wrap_int (wrap_int a -ℤ b) ≡ wrap_int (a -ℤ b)
unfolding wrap_int
wrap-sub a b = ap signed32 (
    residue-sub (wrap_int a) b
    ∙ ap (λ r. (r + (2 ^ 32 - residue b)) % 2 ^ 32) (residue-wrap a)
    ∙ sym (residue-sub a b))

-- A sum that fits an int is not changed by the wrap.
pub wrap-small : (z : ℤ) → pos_part z < 2 ^ 31 → neg_part z ≤ 2 ^ 31 → wrap_int z ≡ z
unfolding wrap_int
wrap-small (pos a) h k = ground (arith, h)
wrap-small (negsuc a) h k = ground (arith, k)
