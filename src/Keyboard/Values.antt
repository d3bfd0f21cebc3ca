-- ===== src/Keyboard/Values.antt =====
-- The bytes of a value in a packet, written and read back.
use os_x_voodoo_ps2_controll.Base.{
  ℕ, zero, suc, ◌+◌, ◌/◌, ◌%◌, ◌≤◌, ◌<◌, ◌≡◌, ◌∙◌, ap, sym, refl, arith, List, [], ◌∷◌, length,
  get_or, set, take, drop, length-set, get_or-set, get_or-set_other,
}
use os_x_voodoo_ps2_controll.Keyboard.Macros.{value_of}

-- The bytes of a value, written into a list.
unfoldable pub put_value : ℕ → ℕ → ℕ → List ℕ → List ℕ
put_value zero i x l = l
put_value (suc n) i x l = put_value n (i + 1) (x / 256) (set l i (x % 256))

length-put_value : (n i x : ℕ) (l : List ℕ) → length (put_value n i x l) ≡ length l
unfolding put_value
length-put_value zero i x l = refl
length-put_value (suc n) i x l =
    length-put_value n (i + 1) (x / 256) (set l i (x % 256)) ∙ length-set l i (x % 256)

pub get_or-put_value :
    (n i x j : ℕ) (l : List ℕ) → j < i → get_or (put_value n i x l) j 0 ≡ get_or l j 0
unfolding put_value
get_or-put_value zero i x j l h = refl
get_or-put_value (suc n) i x j l h =
    get_or-put_value n (i + 1) (x / 256) j (set l i (x % 256)) (omega arith)
    ∙ get_or-set_other l i j (x % 256) 0 (λ e. absurd (omega arith))

-- A value of that many bytes.
unfoldable pub IsSmall : ℕ → ℕ → Type 0
IsSmall zero x = x ≡ 0
IsSmall (suc n) x = IsSmall n (x / 256)

take-drop-suc :
    (n i : ℕ) (l : List ℕ)
    → i < length l
    → take (suc n) (drop i l) ≡ get_or l i 0 ∷ take n (drop (i + 1) l)
take-drop-suc n i [] h = absurd (omega arith)
take-drop-suc n zero (y ∷ l) h = refl
take-drop-suc n (suc i) (y ∷ l) h =
    take-drop-suc n i l (omega arith)
    ∙ ap (λ k. get_or l i 0 ∷ take n (drop k (y ∷ l))) {x = suc (i + 1)} {y = suc i + 1}
        (omega arith)

pub value_of-put_value :
    (n i x : ℕ) (l : List ℕ)
    → i + n ≤ length l
    → IsSmall n x
    → value_of (take n (drop i (put_value n i x l))) ≡ x
unfolding put_value IsSmall value_of
value_of-put_value zero i x l h small = sym small
value_of-put_value (suc n) i x l h small =
    let l' = set l i (x % 256) in
    let rest = put_value n (i + 1) (x / 256) l' in
    ap value_of (
      take-drop-suc n i rest
        (omega (arith, length-put_value n (i + 1) (x / 256) l', length-set l i (x % 256))))
    ∙ omega (
      arith,
      get_or-put_value n (i + 1) (x / 256) i l' (omega arith),
      get_or-set l i (x % 256) 0 (omega arith),
      value_of-put_value n (i + 1) (x / 256) l' (omega (arith, length-set l i (x % 256))) small,
    )
