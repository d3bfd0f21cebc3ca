-- ===== src/Base/Bits.antt =====
-- The single bits of a number, under `bit_and` and `bit_or`.
use Prim.Native.Nat.{min, max, digits, bit_and-bitwise, bit_or-bitwise}
use os_x_voodoo_ps2_controll.Base.Bytes.{none-bit_and, none-bit_or}
use os_x_voodoo_ps2_controll.Base.{
  ℕ, zero, suc, ◌+◌, ◌-◌, ◌*◌, ◌/◌, ◌%◌, ◌^◌, ◌≤◌, ◌<◌, ◌≡◌, ◌∙◌, ap, refl, sym, arith, ◌==◌, ◌!=◌,
  if◌then◌else◌, bit_and, bit_or,
}

-- The recursion of both operations is on a count that the first number serves for: any larger count
-- gives the same.
enough :
    (z : ℕ → ℕ) (f : ℕ → ℕ → ℕ) (k l w mask : ℕ)
    → w ≤ k
    → w ≤ l
    → digits z f k w mask ≡ digits z f l w mask
enough z f (suc k) (suc l) (suc w) mask p q =
    ap (λ d. d * 2 + f (suc w % 2) (mask % 2))
      (enough z f k l (suc w / 2) (mask / 2) (omega arith) (omega arith))
enough z f (suc k) zero (suc w) mask p q = absurd (omega arith)
enough z f zero l (suc w) mask p q = absurd (omega arith)
enough z f (suc k) (suc l) zero mask p q = refl
enough z f (suc k) zero zero mask p q = refl
enough z f zero (suc l) zero mask p q = refl
enough z f zero zero zero mask p q = refl

-- The lowest digit, and the others.
lowest :
    (z : ℕ → ℕ) (f : ℕ → ℕ → ℕ) (w mask : ℕ)
    → digits z f (suc w) (suc w) mask
      ≡ digits z f (suc w / 2) (suc w / 2) (mask / 2) * 2 + f (suc w % 2) (mask % 2)
lowest z f w mask =
    ap (λ d. d * 2 + f (suc w % 2) (mask % 2))
      (enough z f w (suc w / 2) (suc w / 2) (mask / 2) (omega arith) (omega arith))

or_step : (w mask : ℕ) → bit_or w mask ≡ bit_or (w / 2) (mask / 2) * 2 + max (w % 2) (mask % 2)
or_step (suc w) mask =
    bit_or-bitwise (suc w) mask
    ∙ lowest (λ d. d) max w mask
    ∙ ap (λ d. d * 2 + max (suc w % 2) (mask % 2)) (sym (bit_or-bitwise (suc w / 2) (mask / 2)))
or_step zero mask = omega (arith, none-bit_or mask, none-bit_or (mask / 2))

and_step : (w mask : ℕ) → bit_and w mask ≡ bit_and (w / 2) (mask / 2) * 2 + min (w % 2) (mask % 2)
and_step (suc w) mask =
    bit_and-bitwise (suc w) mask
    ∙ lowest (λ d. zero) min w mask
    ∙ ap (λ d. d * 2 + min (suc w % 2) (mask % 2)) (sym (bit_and-bitwise (suc w / 2) (mask / 2)))
and_step zero mask = omega (arith, none-bit_and mask, none-bit_and (mask / 2))

pub bit : ℕ → ℕ → ℕ
bit zero w = w % 2
bit (suc k) w = bit k (w / 2)

and-zero : (n w : ℕ) → w ≤ n → bit_and w 0 ≡ 0
and-zero zero w h = omega (
  arith,
  bit_and-bitwise w 0,
  ap (λ v. bit_and v 0) {x = w} {y = 0} (omega arith),
  bit_and-bitwise 0 0,
)
and-zero (suc n) w h = omega (arith, and_step w 0, and-zero n (w / 2) (omega arith))

or-zero : (n w : ℕ) → w ≤ n → bit_or w 0 ≡ w
or-zero zero w h =
    omega (arith, ap (λ v. bit_or v 0) {x = w} {y = 0} (omega arith), bit_or-bitwise 0 0)
or-zero (suc n) w h = omega (arith, or_step w 0, or-zero n (w / 2) (omega arith))

half-power : (k : ℕ) → 2 ^ suc k / 2 ≡ 2 ^ k
half-power k = omega arith

even-power : (k : ℕ) → 2 ^ suc k % 2 ≡ 0
even-power k = omega arith

half-or : (a b : ℕ) → bit_or a b / 2 ≡ bit_or (a / 2) (b / 2)
half-or a b = omega (arith, or_step a b)

half-and : (a b : ℕ) → bit_and a b / 2 ≡ bit_and (a / 2) (b / 2)
half-and a b = omega (arith, and_step a b)

double : (a b c d : ℕ) → a ≡ b * d → c ≡ d * 2 → a * 2 ≡ b * c
double a b c d e f = grind (arith, e, f)

positive : (n : ℕ) → 0 < 2 ^ n
positive zero = omega arith
positive (suc n) = omega (arith, positive n)

pub below : (n k : ℕ) → k < n → 2 ^ k < 2 ^ n
below zero k h = absurd (omega arith)
below (suc n) zero h = omega (arith, positive n)
below (suc n) (suc k) h = omega (arith, below n k (omega arith))

-- The test of a bit.
pub and-power : (k w : ℕ) → bit_and w (2 ^ k) ≡ bit k w * 2 ^ k
unfolding bit
and-power zero w = omega (arith, and_step w 1, and-zero (w / 2) (w / 2) (omega arith))
and-power (suc k) w =
    let halves : bit_and w (2 ^ suc k) ≡ bit_and (w / 2) (2 ^ k) * 2 =
      omega (arith, and_step w (2 ^ suc k), ap (bit_and (w / 2)) (half-power k), even-power k) in
    halves ∙ double _ (bit k (w / 2)) (2 ^ suc k) (2 ^ k) (and-power k (w / 2)) (omega arith)

-- Setting a bit sets that bit alone.
pub bit-or : (j k w : ℕ) → bit j (bit_or w (2 ^ k)) ≡ (if j == k then 1 else bit j w)
unfolding bit
bit-or zero zero w = omega (arith, or_step w 1)
bit-or zero (suc k) w = ground (arith, or_step w (2 ^ suc k), even-power k)
bit-or (suc j) zero w = ground (
  arith,
  ap (bit j) {x = bit_or w 1 / 2} {y = w / 2}
      (omega (arith, or_step w 1, or-zero (w / 2) (w / 2) (omega arith))),
)
bit-or (suc j) (suc k) w = ground (
  arith,
  ap (bit j) (half-or w (2 ^ suc k) ∙ ap (bit_or (w / 2)) (half-power k)),
  bit-or j k (w / 2),
)

bit-ones : (n j w : ℕ) → j < n → bit j (bit_and w (2 ^ n - 1)) ≡ bit j w
unfolding bit
bit-ones zero j w h = absurd (omega arith)
bit-ones (suc n) zero w h = omega (arith, and_step w (2 ^ suc n - 1), positive n)
bit-ones (suc n) (suc j) w h =
    ap (bit j) (
      half-and w (2 ^ suc n - 1)
      ∙ ap (bit_and (w / 2)) {x = (2 ^ suc n - 1) / 2} {y = 2 ^ n - 1} (omega (arith, positive n)))
    ∙ bit-ones n j (w / 2) (omega arith)

-- Clearing a bit of an `n`-bit number clears that bit alone.
pub bit-and :
    (n j k w : ℕ)
    → j < n
    → k < n
    → bit j (bit_and w (2 ^ n - 1 - 2 ^ k)) ≡ (if j == k then 0 else bit j w)
unfolding bit
bit-and zero j k w h h' = absurd (omega arith)
bit-and (suc n) zero zero w h h' = omega (arith, and_step w (2 ^ suc n - 1 - 1), positive n)
bit-and (suc n) (suc j) zero w h h' = ground (
  arith,
  ap (bit j) (
      half-and w (2 ^ suc n - 1 - 1)
      ∙ ap (bit_and (w / 2)) {x = (2 ^ suc n - 1 - 1) / 2} {y = 2 ^ n - 1}
          (omega (arith, positive n))),
  bit-ones n j (w / 2) (omega arith),
)
bit-and (suc n) zero (suc k) w h h' =
    ground (arith, and_step w (2 ^ suc n - 1 - 2 ^ suc k), below n k (omega arith))
bit-and (suc n) (suc j) (suc k) w h h' = ground (
  arith,
  ap (bit j) (
      half-and w (2 ^ suc n - 1 - 2 ^ suc k)
      ∙ ap (bit_and (w / 2)) {x = (2 ^ suc n - 1 - 2 ^ suc k) / 2} {y = 2 ^ n - 1 - 2 ^ k}
          (omega (arith, below n k (omega arith)))),
  bit-and n j k (w / 2) (omega arith) (omega arith),
)

pub bit-le : (k w : ℕ) → bit k w ≤ 1
unfolding bit
bit-le zero w = omega arith
bit-le (suc k) w = bit-le k (w / 2)

nonzero_times : (u p x : ℕ) → u ≤ 1 → 0 < p → x ≡ u * p → (x != 0) ≡ (u != 0)
nonzero_times zero p x h pos e = ground (arith, e)
nonzero_times (suc zero) p x h pos e = ground (arith, e)
nonzero_times (suc (suc u)) p x h pos e = absurd (omega arith)

pub test-bit : (k w : ℕ) → (bit_and w (2 ^ k) != 0) ≡ (bit k w != 0)
test-bit k w =
    nonzero_times (bit k w) (2 ^ k) (bit_and w (2 ^ k)) (bit-le k w) (positive k) (and-power k w)

pub bit-none : (k : ℕ) → bit k 0 ≡ 0
unfolding bit
bit-none zero = refl
bit-none (suc k) = bit-none k
