-- ===== src/Base/Lists.antt =====
-- Lists measured and indexed by native numbers, under the library's names.
use Prim.Native.Nat.{ℕ, zero, suc, ◌+◌, ◌-◌, ◌≤◌, ◌<◌, min}
use mathlib.Core.Path.{◌≡◌, refl, ap, sym, ◌∙◌}
use mathlib.Core.Logic.{◌≢◌}
use mathlib.Core.List.{List, [], ◌∷◌, ◌++◌}
use mathlib.Core.Option.{Option, none, some}
use native.Mathlib.Omega.{arith}

module _ {ℓ} {A : Type ℓ} where
  abbrev pub length : List A → ℕ
  length [] = 0
  length (x ∷ xs) = suc (length xs)

  abbrev pub get_elem? : List A → ℕ → Option A
  get_elem? [] i = none
  get_elem? (x ∷ xs) zero = some x
  get_elem? (x ∷ xs) (suc i) = get_elem? xs i

  abbrev pub get_or : List A → ℕ → A → A
  get_or [] i d = d
  get_or (x ∷ xs) zero d = x
  get_or (x ∷ xs) (suc i) d = get_or xs i d

  -- A write out of bounds changes nothing.
  abbrev pub set : List A → ℕ → A → List A
  set [] i v = []
  set (x ∷ xs) zero v = v ∷ xs
  set (x ∷ xs) (suc i) v = x ∷ set xs i v

  abbrev pub take : ℕ → List A → List A
  take zero xs = []
  take (suc n) [] = []
  take (suc n) (x ∷ xs) = x ∷ take n xs

  abbrev pub drop : ℕ → List A → List A
  drop zero xs = xs
  drop (suc n) [] = []
  drop (suc n) (x ∷ xs) = drop n xs

  abbrev pub replicate : ℕ → A → List A
  replicate zero a = []
  replicate (suc n) a = a ∷ replicate n a

  pub length-append : (xs ys : List A) → length (xs ++ ys) ≡ length xs + length ys
  length-append [] ys = omega arith
  length-append (x ∷ xs) ys = omega (arith, length-append xs ys)

  pub length-replicate : (n : ℕ) (a : A) → length (replicate n a) ≡ n
  length-replicate zero a = refl
  length-replicate (suc n) a = ap suc (length-replicate n a)

module _ {ℓ} {A : Type ℓ} where
  pub length-set : (xs : List A) (i : ℕ) (v : A) → length (set xs i v) ≡ length xs
  length-set [] i v = refl
  length-set (x ∷ xs) zero v = refl
  length-set (x ∷ xs) (suc i) v = ap suc (length-set xs i v)

  pub length-take : (n : ℕ) (xs : List A) → length (take n xs) ≡ min n (length xs)
  length-take zero xs = omega arith
  length-take (suc n) [] = omega arith
  length-take (suc n) (x ∷ xs) = omega (arith, length-take n xs)

  pub length-drop : (n : ℕ) (xs : List A) → length (drop n xs) ≡ length xs - n
  length-drop zero xs = omega arith
  length-drop (suc n) [] = omega arith
  length-drop (suc n) (x ∷ xs) = omega (arith, length-drop n xs)

  pub take-nil : (k : ℕ) → take {A = A} k [] ≡ []
  take-nil zero = refl
  take-nil (suc k) = refl

  pub drop-nil : (k : ℕ) → drop {A = A} k [] ≡ []
  drop-nil zero = refl
  drop-nil (suc k) = refl

  pub take-all : (n : ℕ) (xs : List A) → length xs ≤ n → take n xs ≡ xs
  take-all zero [] h = refl
  take-all zero (x ∷ xs) h = absurd (omega arith)
  take-all (suc n) [] h = refl
  take-all (suc n) (x ∷ xs) h = ap (◌∷◌ x) (take-all n xs (omega arith))

  pub drop-all : (n : ℕ) (xs : List A) → length xs ≤ n → drop n xs ≡ []
  drop-all zero [] h = refl
  drop-all zero (x ∷ xs) h = absurd (omega arith)
  drop-all (suc n) [] h = refl
  drop-all (suc n) (x ∷ xs) h = drop-all n xs (omega arith)

  pub take-append : (xs ys : List A) → take (length xs) (xs ++ ys) ≡ xs
  take-append [] ys = refl
  take-append (x ∷ xs) ys = ap (◌∷◌ x) (take-append xs ys)

  pub drop-append : (xs ys : List A) → drop (length xs) (xs ++ ys) ≡ ys
  drop-append [] ys = refl
  drop-append (x ∷ xs) ys = drop-append xs ys

  pub drop-drop : (i j : ℕ) (xs : List A) → drop i (drop j xs) ≡ drop (j + i) xs
  drop-drop i zero xs = ap (λ k. drop k xs) {x = i} {y = 0 + i} (omega arith)
  drop-drop i (suc j) [] = drop-nil i ∙ sym (drop-nil (suc j + i))
  drop-drop i (suc j) (x ∷ xs) =
      drop-drop i j xs ∙ ap (λ k. drop k (x ∷ xs)) {x = suc (j + i)} {y = suc j + i} (omega arith)

  -- A run of `i + j` is a run of `i` and then one of `j`.
  pub take-add : (i j : ℕ) (xs : List A) → take (i + j) xs ≡ take i xs ++ take j (drop i xs)
  take-add zero j xs = ap (λ k. take k xs) (omega arith)
  take-add (suc i) j [] = take-nil (suc i + j) ∙ sym (take-nil j)
  take-add (suc i) j (x ∷ xs) =
      ap (λ k. take k (x ∷ xs)) {x = suc i + j} {y = suc (i + j)} (omega arith)
      ∙ ap (◌∷◌ x) (take-add i j xs)

  pub drop-set_above : (xs : List A) (i j : ℕ) (v : A) → j < i → drop i (set xs j v) ≡ drop i xs
  drop-set_above [] i j v h = refl
  drop-set_above (x ∷ xs) zero j v h = absurd (omega arith)
  drop-set_above (x ∷ xs) (suc i) zero v h = refl
  drop-set_above (x ∷ xs) (suc i) (suc j) v h = drop-set_above xs i j v (omega arith)

  pub drop-set : (xs : List A) (i j : ℕ) (v : A) → drop i (set xs (i + j) v) ≡ set (drop i xs) j v
  drop-set xs zero j v = ap (λ k. set xs k v) (omega arith)
  drop-set [] (suc i) j v = refl
  drop-set (x ∷ xs) (suc i) j v =
      ap (λ k. drop (suc i) (set (x ∷ xs) k v)) {x = suc i + j} {y = suc (i + j)} (omega arith)
      ∙ drop-set xs i j v

  pub take-set_below : (xs : List A) (i j : ℕ) (v : A) → i ≤ j → take i (set xs j v) ≡ take i xs
  take-set_below [] i j v h = refl
  take-set_below (x ∷ xs) zero j v h = refl
  take-set_below (x ∷ xs) (suc i) zero v h = absurd (omega arith)
  take-set_below (x ∷ xs) (suc i) (suc j) v h = ap (◌∷◌ x) (take-set_below xs i j v (omega arith))

  pub take-set : (xs : List A) (i j : ℕ) (v : A) → j < i → take i (set xs j v) ≡ set (take i xs) j v
  take-set [] zero j v h = refl
  take-set [] (suc i) j v h = refl
  take-set (x ∷ xs) zero j v h = absurd (omega arith)
  take-set (x ∷ xs) (suc i) zero v h = refl
  take-set (x ∷ xs) (suc i) (suc j) v h = ap (◌∷◌ x) (take-set xs i j v (omega arith))

  -- Writing at the end of a prefix extends the prefix.
  pub take-suc-set :
      (xs : List A) (j : ℕ) (v : A)
      → j < length xs
      → take (suc j) (set xs j v) ≡ take j xs ++ v ∷ []
  take-suc-set [] j v h = absurd (omega arith)
  take-suc-set (x ∷ xs) zero v h = refl
  take-suc-set (x ∷ xs) (suc j) v h = ap (◌∷◌ x) (take-suc-set xs j v (omega arith))

  pub get_elem?-eq-head :
      (xs : List A) (i : ℕ)
      → i < length xs
      → (x : A) × (get_elem? xs i ≡ some x) × (drop i xs ≡ x ∷ drop (suc i) xs)
  get_elem?-eq-head [] i h = absurd (omega arith)
  get_elem?-eq-head (x ∷ xs) zero h = (x, refl, refl)
  get_elem?-eq-head (x ∷ xs) (suc i) h = get_elem?-eq-head xs i (omega arith)

  pub drop-take : (i j : ℕ) (xs : List A) → drop i (take j xs) ≡ take (j - i) (drop i xs)
  drop-take zero j xs = ap (λ k. take k xs) {x = j} {y = j - 0} (omega arith)
  drop-take (suc i) zero xs =
      ap (λ k. take k (drop (suc i) xs)) {x = 0} {y = 0 - suc i} (omega arith)
  drop-take (suc i) (suc j) [] = sym (take-nil (suc j - suc i))
  drop-take (suc i) (suc j) (x ∷ xs) =
      drop-take i j xs ∙ ap (λ k. take k (drop i xs)) {x = j - i} {y = suc j - suc i} (omega arith)

  pub take-take : (i j : ℕ) (xs : List A) → i ≤ j → take i (take j xs) ≡ take i xs
  take-take zero j xs h = refl
  take-take (suc i) zero xs h = absurd (omega arith)
  take-take (suc i) (suc j) [] h = refl
  take-take (suc i) (suc j) (x ∷ xs) h = ap (◌∷◌ x) (take-take i j xs (omega arith))

  pub take-append_left : (i : ℕ) (xs ys : List A) → i ≤ length xs → take i (xs ++ ys) ≡ take i xs
  take-append_left zero xs ys h = refl
  take-append_left (suc i) [] ys h = absurd (omega arith)
  take-append_left (suc i) (x ∷ xs) ys h = ap (◌∷◌ x) (take-append_left i xs ys (omega arith))

  pub drop-append_left :
      (i : ℕ) (xs ys : List A) → i ≤ length xs → drop i (xs ++ ys) ≡ drop i xs ++ ys
  drop-append_left zero xs ys h = refl
  drop-append_left (suc i) [] ys h = absurd (omega arith)
  drop-append_left (suc i) (x ∷ xs) ys h = drop-append_left i xs ys (omega arith)

  pub take-append-drop : (i : ℕ) (xs : List A) → xs ≡ take i xs ++ drop i xs
  take-append-drop zero xs = refl
  take-append-drop (suc i) [] = refl
  take-append-drop (suc i) (x ∷ xs) = ap (◌∷◌ x) (take-append-drop i xs)

  pub nil_of_length : (xs : List A) → length xs ≡ 0 → xs ≡ []
  nil_of_length [] h = refl
  nil_of_length (x ∷ xs) h = absurd (omega arith)

  pub get_or-take : (n i : ℕ) (xs : List A) (d : A) → i < n → get_or (take n xs) i d ≡ get_or xs i d
  get_or-take zero i xs d h = absurd (omega arith)
  get_or-take (suc n) i [] d h = refl
  get_or-take (suc n) zero (x ∷ xs) d h = refl
  get_or-take (suc n) (suc i) (x ∷ xs) d h = get_or-take n i xs d (omega arith)

  pub get_or-set : (xs : List A) (i : ℕ) (v d : A) → i < length xs → get_or (set xs i v) i d ≡ v
  get_or-set [] i v d h = absurd (omega arith)
  get_or-set (x ∷ xs) zero v d h = refl
  get_or-set (x ∷ xs) (suc i) v d h = get_or-set xs i v d (omega arith)

  pub get_or-set_other :
      (xs : List A) (i j : ℕ) (v d : A) → j ≢ i → get_or (set xs i v) j d ≡ get_or xs j d
  get_or-set_other [] i j v d ne = refl
  get_or-set_other (x ∷ xs) zero zero v d ne = absurd (ne refl)
  get_or-set_other (x ∷ xs) zero (suc j) v d ne = refl
  get_or-set_other (x ∷ xs) (suc i) zero v d ne = refl
  get_or-set_other (x ∷ xs) (suc i) (suc j) v d ne =
      get_or-set_other xs i j v d (λ e. ne (ap suc e))
