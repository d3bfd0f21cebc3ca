-- ===== src/Trackpad/Averages.antt =====
-- SimpleAverage<int, N> of VoodooPS2Trackpad/VoodooPS2SynapticsTouchPad.h: the average of the last N
-- values. The values of time_history are unsigned, and are added to the same int.
use os_x_voodoo_ps2_controll.Base.{
  ℕ, zero, suc, ◌+◌, ◌-◌, ◌≤◌, ◌<◌, ◌≡◌, ◌∙◌, ap, sym, arith, List, [], ◌∷◌, ◌++◌, length, take,
  set, get_or, leb, ltb, ◌==◌, if◌then◌else◌, take-suc-set, length-set, take-all, inl, inr,
  Bool-cases, get_or-set, ◌/◌, ◌^◌,
}
use os_x_voodoo_ps2_controll.Base.Int.{
  ℤ, pos, negsuc, ◌+ℤ◌, ◌-ℤ◌, pos_part, neg_part, +ℤ_parts, -ℤ_parts, eq_of_parts,
}
use os_x_voodoo_ps2_controll.Base.Int32.{wrap_int, wrap-add, wrap-sub, wrap-small}

pub record Average : Type 0 where
  pub buffer : List ℤ
  pub kept : ℕ
  pub sum : ℤ
  pub index : ℕ

-- The division of C, towards 0.
abbrev pub quotient : ℤ → ℕ → ℤ
quotient (pos a) n = pos (a / n)
quotient (negsuc a) n = pos 0 -ℤ pos (suc a / n)

module _ (n : ℕ) where
  pub filter : ℤ → Average → ℤ × Average
  filter x a =
      let added = wrap_int (a.sum +ℤ x) in
      let sum : ℤ =
        if a.kept == n then wrap_int (added -ℤ get_or a.buffer a.index (pos 0)) else added in
      let count : ℕ = if ltb a.kept n then a.kept + 1 else a.kept in
      (
        quotient sum count,
        record {
          buffer = set a.buffer a.index x;
          kept = count;
          sum = sum;
          index = if leb n (a.index + 1) then 0 else a.index + 1;
        },
      )

-- "undefined if nothing in here, return zero"
pub oldest : ℕ → Average → ℤ
oldest n a =
    if a.kept == 0
    then pos 0
    else if ltb a.kept n
    then get_or a.buffer 0 (pos 0)
    else get_or a.buffer a.index (pos 0)

pub newest : Average → ℤ
newest a =
    if a.kept == 0
    then pos 0
    else if a.index == 0
    then get_or a.buffer (a.kept - 1) (pos 0)
    else get_or a.buffer (a.index - 1) (pos 0)

pub average : Average → ℤ
average a = if a.kept == 0 then pos 0 else quotient a.sum a.kept

pub reset_average : Average → Average
reset_average a = record a { kept = 0; sum = pos 0; index = 0 }

unfoldable pub total : List ℤ → ℤ
total [] = pos 0
total (x ∷ xs) = x +ℤ total xs

-- The sum is that of the values in the buffer, as an int, which is filled from its start and then overwritten in
-- turn.
pub record IsSum (n : ℕ) (a : Average) : Type 0 where
  pub size : length a.buffer ≡ n
  pub some_size : 0 < n
  pub place : a.index < n
  pub filled : a.kept ≤ n
  pub filling : a.kept < n → a.index ≡ a.kept
  pub sum_of : a.sum ≡ wrap_int (total (take a.kept a.buffer))

abbrev pub kept_total : Average → ℤ
kept_total a = total (take a.kept a.buffer)

total-append : (xs : List ℤ) (x : ℤ) → total (xs ++ x ∷ []) ≡ total xs +ℤ x
unfolding total
total-append [] x = eq_of_parts _ _ (omega (arith, +ℤ_parts x (pos 0), +ℤ_parts (pos 0) x))
total-append (y ∷ xs) x = eq_of_parts _ _ (
    omega (
      arith,
      +ℤ_parts y (total (xs ++ x ∷ [])),
      +ℤ_parts (total xs) x,
      +ℤ_parts (y +ℤ total xs) x,
      +ℤ_parts y (total xs),
      ap pos_part (total-append xs x),
      ap neg_part (total-append xs x),
    ))

total-set :
    (xs : List ℤ) (i : ℕ) (x : ℤ)
    → i < length xs
    → total (set xs i x) ≡ (total xs +ℤ x) -ℤ get_or xs i (pos 0)
unfolding total
total-set [] i x h = absurd (omega arith)
total-set (y ∷ xs) zero x h = eq_of_parts _ _ (
    omega (
      arith,
      +ℤ_parts x (total xs),
      +ℤ_parts y (total xs),
      +ℤ_parts (y +ℤ total xs) x,
      -ℤ_parts ((y +ℤ total xs) +ℤ x) y,
    ))
total-set (y ∷ xs) (suc i) x h = eq_of_parts _ _ (
    omega (
      arith,
      ap pos_part (total-set xs i x (omega arith)),
      ap neg_part (total-set xs i x (omega arith)),
      +ℤ_parts y (total (set xs i x)),
      +ℤ_parts (total xs) x,
      -ℤ_parts (total xs +ℤ x) (get_or xs i (pos 0)),
      +ℤ_parts y (total xs),
      +ℤ_parts (y +ℤ total xs) x,
      -ℤ_parts ((y +ℤ total xs) +ℤ x) (get_or xs i (pos 0)),
    ))

total-full :
    (n : ℕ) (x : ℤ) (a : Average)
    → IsSum n a
    → a.kept ≡ n
    → (total (take a.kept a.buffer) +ℤ x) -ℤ get_or a.buffer a.index (pos 0)
      ≡ total (take n (set a.buffer a.index x))
total-full n x a s full =
    ap (λ t. (total t +ℤ x) -ℤ get_or a.buffer a.index (pos 0))
      (take-all a.kept a.buffer (omega (arith, s.size)))
    ∙ sym (total-set a.buffer a.index x (omega (arith, s.size, s.place)))
    ∙ ap total (
        sym (
          take-all n (set a.buffer a.index x)
            (omega (arith, length-set a.buffer a.index x, s.size))))

full-sum :
    (n : ℕ) (x : ℤ) (a : Average)
    → IsSum n a
    → a.kept ≡ n
    → wrap_int (wrap_int (a.sum +ℤ x) -ℤ get_or a.buffer a.index (pos 0))
      ≡ wrap_int (total (take n (set a.buffer a.index x)))
full-sum n x a s full =
    ap (λ t. wrap_int (wrap_int (t +ℤ x) -ℤ get_or a.buffer a.index (pos 0))) s.sum_of
    ∙ ap (λ t. wrap_int (t -ℤ get_or a.buffer a.index (pos 0)))
        (wrap-add (total (take a.kept a.buffer)) x)
    ∙ wrap-sub (total (take a.kept a.buffer) +ℤ x) (get_or a.buffer a.index (pos 0))
    ∙ ap wrap_int (total-full n x a s full)

part-sum :
    (n : ℕ) (x : ℤ) (a : Average)
    → IsSum n a
    → a.kept < n
    → wrap_int (a.sum +ℤ x) ≡ wrap_int (total (take (suc a.kept) (set a.buffer a.index x)))
part-sum n x a s more =
    ap (λ t. wrap_int (t +ℤ x)) s.sum_of
    ∙ wrap-add (total (take a.kept a.buffer)) x
    ∙ ap wrap_int (
        sym (total-append (take a.kept a.buffer) x)
        ∙ ap total (sym (take-suc-set a.buffer a.kept x (omega (arith, s.size))))
        ∙ ap (λ i. total (take (suc a.kept) (set a.buffer i x))) (sym (s.filling more)))

filter-sum :
    (n : ℕ) (x : ℤ) (a : Average)
    → IsSum n a
    → (filter n x a).1.sum ≡ wrap_int (total (take (filter n x a).1.kept (filter n x a).1.buffer))
unfolding filter
filter-sum n x a s = elim (Bool-cases (a.kept == n)) [
  | inl e ↦
      let full : a.kept ≡ n = ground (arith, e) in
      ground (
        arith,
        e,
        full-sum n x a s full,
        ap (λ k. wrap_int (total (take k (set a.buffer a.index x)))) full,
      )
  | inr e ↦
      let more : a.kept < n = ground (arith, e, s.filled) in
      ground (
        arith,
        e,
        part-sum n x a s more,
        ap (λ k. wrap_int (total (take k (set a.buffer a.index x)))) {x = a.kept + 1}
            {y = suc a.kept} (omega arith),
      )
]

-- Where the sum is that of the values that are kept, wrapped to an int of 32 bits, a new value keeps it
-- so, whether the buffer is filling or full; it is then the newest, and the answer is that sum divided
-- by the number of values that are kept.
pub filter-IsSum :
    (n : ℕ) (x : ℤ) (a : Average)
    → IsSum n a
    → IsSum n (filter n x a).1
      × ((filter n x a).0 ≡ average (filter n x a).1)
      × (newest (filter n x a).1 ≡ x)
unfolding filter average newest
filter-IsSum n x a s = (
  record {
    size = length-set a.buffer a.index x ∙ s.size;
    some_size = s.some_size;
    place = ground (arith, s.place, s.some_size);
    filled = ground (arith, s.filled);
    filling = ground (arith, s.place, s.filled, s.filling);
    sum_of = filter-sum n x a s;
  },
  ground (arith, s.filled, s.some_size),
  ground (
    arith,
    s.place,
    s.filled,
    s.filling,
    s.some_size,
    get_or-set a.buffer a.index x (pos 0) (omega (arith, s.size, s.place)),
    ap (λ i. get_or (set a.buffer a.index x) i (pos 0)) {x = n - 1} {y = a.index},
    ap (λ i. get_or (set a.buffer a.index x) i (pos 0)) {x = a.kept} {y = a.index},
  ),
)

-- Where the sum of the values that are kept after a new one fits an int, the answer is their average.
filter-exact :
    (n : ℕ) (x : ℤ) (a : Average)
    → IsSum n a
    → pos_part (kept_total (filter n x a).1) < 2 ^ 31
    → neg_part (kept_total (filter n x a).1) ≤ 2 ^ 31
    → (filter n x a).0 ≡ quotient (kept_total (filter n x a).1) (filter n x a).1.kept
unfolding filter
filter-exact n x a s h k =
    ap (λ z. quotient z (filter n x a).1.kept) (filter-sum n x a s ∙ wrap-small _ h k)
