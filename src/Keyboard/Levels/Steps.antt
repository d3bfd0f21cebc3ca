-- ===== src/Keyboard/Levels/Steps.antt =====
-- The steps of modifyScreenBrightness and modifyKeyboardBacklight through a table of levels.
use os_x_voodoo_ps2_controll.Base.{
  some, ℕ, zero, suc, ◌+◌, ◌-◌, ◌≤◌, ◌<◌, ◌≡◌, ◌∙◌, ap, arith, Bool, true, false, ◌&&◌, List, [],
  ◌∷◌, ltb, if◌then◌else◌, length, get_or, drop, length-drop, sym, not, ◌⊎◌, inl, inr, Option-cases,
  Bool-cases,
}
use os_x_voodoo_ps2_controll.Keyboard.Events.{Method, evaluate_object, Typist, World}
use os_x_voodoo_ps2_controll.Keyboard.Levels.{below_level, find_level, next_index, modify_level}

-- The index that a step leads to is inside the table, and not before its first level.
pub next_index-lt :
    (low current : ℕ) (up : Bool) (levels : List ℕ)
    → low < length levels
    → (low ≤ next_index low current up levels) × (next_index low current up levels < length levels)
unfolding next_index
next_index-lt low current up levels h = ground arith

abbrev Above : ℕ → List ℕ → Type 0
Above x [] = Unit
Above x (y ∷ ys) = (below_level x y ≡ true) × Above x ys

-- Each level is less than all that follow it.
abbrev pub IsRising : List ℕ → Type 0
IsRising [] = Unit
IsRising (x ∷ xs) = Above x xs × IsRising xs

Above-get :
    (x i : ℕ) (xs : List ℕ) → Above x xs → i < length xs → below_level x (get_or xs i 0) ≡ true
Above-get x i [] a h = absurd (omega arith)
Above-get x zero (y ∷ ys) a h = a.0
Above-get x (suc i) (y ∷ ys) a h = Above-get x i ys a.1 (omega arith)

below_itself : (x : ℕ) → below_level x x ≡ false
below_itself x = ground arith

-- A level of the table is found at its own place.
find_level-at :
    (i index : ℕ) (levels : List ℕ)
    → IsRising levels
    → i < length levels
    → find_level (get_or levels i 0) index levels ≡ index + i
unfolding find_level
find_level-at i index [] r h = absurd (omega arith)
find_level-at zero index (x ∷ xs) r h = ground (arith, below_itself x)
find_level-at (suc i) index (x ∷ xs) r h =
    ground
      (arith, Above-get x i xs r.0 (omega arith), find_level-at i (suc index) xs r.1 (omega arith))

get_or-drop : (low i : ℕ) (xs : List ℕ) → low ≤ i → get_or (drop low xs) (i - low) 0 ≡ get_or xs i 0
get_or-drop zero i xs h = ap (λ j. get_or xs j 0) {x = i - 0} {y = i} (omega arith)
get_or-drop (suc low) zero xs h = absurd (omega arith)
get_or-drop (suc low) (suc i) [] h = ground arith
get_or-drop (suc low) (suc i) (x ∷ xs) h =
    ap (λ j. get_or (drop low xs) j 0) {x = suc i - suc low} {y = i - low} (omega arith)
    ∙ get_or-drop low i xs (omega arith)

find_level-low :
    (low i : ℕ) (levels : List ℕ)
    → IsRising (drop low levels)
    → low ≤ i
    → i < length levels
    → find_level (get_or levels i 0) low (drop low levels) ≡ i
find_level-low low i levels r h l =
    ap (λ x. find_level x low (drop low levels)) (sym (get_or-drop low i levels h))
    ∙ find_level-at (i - low) low (drop low levels) r (omega (arith, length-drop low levels))
    ∙ omega arith

-- From a level of a table that rises, a step leads to the next level up or down, and from the last or
-- the first one it leads nowhere.
pub next_index-rising :
    (low i : ℕ) (up : Bool) (levels : List ℕ)
    → IsRising (drop low levels)
    → low ≤ i
    → i < length levels
    → next_index low (get_or levels i 0) up levels ≡ (
        if up
        then (if ltb (i + 1) (length levels) then i + 1 else i)
        else (if ltb low i then i - 1 else low))
unfolding next_index
next_index-rising low i up levels r h l = ground (arith, find_level-low low i levels r h l)

-- In a table that rises, from a level that is not the last a step up and then a step down lead back to
-- it, and from one that is not the first a step down and then a step up do.
pub next_index-back :
    (low i : ℕ) (up : Bool) (levels : List ℕ)
    → IsRising (drop low levels)
    → low ≤ i
    → i < length levels
    → (if up then i + 1 < length levels else low < i)
    → next_index low
        (get_or levels (next_index low (get_or levels i 0) up levels) 0)
        (not up)
        levels
      ≡ i
next_index-back low i true levels r h l m = ground (
  arith,
  next_index-rising low i true levels r h l,
  ap (λ j. next_index low (get_or levels j 0) false levels)
      {x = next_index low (get_or levels i 0) true levels} {y = i + 1}
      (ground (arith, next_index-rising low i true levels r h l)),
  next_index-rising low (i + 1) false levels r (omega arith) m,
)
next_index-back low i false levels r h l m = ground (
  arith,
  ap (λ j. next_index low (get_or levels j 0) true levels)
      {x = next_index low (get_or levels i 0) false levels} {y = i - 1}
      (ground (arith, next_index-rising low i false levels r h l)),
  next_index-rising low (i - 1) true levels r (omega arith) (omega arith),
)

-- When ACPI reports a level of a table that rises from its first level on, and gives a number, the make
-- of a key sets, once, the next level up or down in the table, or the same level at the end of it, and
-- the break sets nothing.
pub modify_level-step :
    (w : World) (query change : Method) (low i : ℕ) (up down : Bool) (levels : List ℕ) (s : Typist)
    → IsRising (drop low levels)
    → low ≤ i
    → i < length levels
    → w.evaluate_integer query s.effects ≡ some (get_or levels i 0)
    → w.gives_number s.effects ≡ true
    → (modify_level w query change low up down levels s).effects ≡ (
        if down
        then evaluate_object change (
            get_or levels
              (if up
                then (if ltb (i + 1) (length levels) then i + 1 else i)
                else (if ltb low i then i - 1 else low))
              0)
          ∷ s.effects
        else s.effects)
unfolding modify_level
modify_level-step w query change low i up true levels s r h l q g =
    ground (arith, q, g, ap (λ j. get_or levels j 0) (next_index-rising low i up levels r h l))
modify_level-step w query change low i up false levels s r h l q g = ground (arith, q, g)

-- Whatever ACPI reports, what a key sets is a level of the table, not one of the entries before its
-- first level; if it sets one, it sets it once and on the make of the key.
pub modify_level-level :
    (w : World) (query change : Method) (low : ℕ) (up down : Bool) (levels : List ℕ) (s : Typist)
    → low < length levels
    → ((modify_level w query change low up down levels s).effects ≡ s.effects)
      ⊎ ((i : ℕ) × (down ≡ true)
          × (low ≤ i)
          × (i < length levels)
          × ((modify_level w query change low up down levels s).effects
              ≡ evaluate_object change (get_or levels i 0) ∷ s.effects))
unfolding modify_level
modify_level-level w query change low up down levels s h =
    elim (Option-cases (w.evaluate_integer query s.effects)) [
      | inl q ↦ ground (arith, q)
      | inr (current, q) ↦ elim (Bool-cases (w.gives_number s.effects && down)) [
        | inl e ↦ inr (
          next_index low current up levels,
          ground (arith, e),
          (next_index-lt low current up levels h).0,
          (next_index-lt low current up levels h).1,
          ground (arith, q, e),
        )
        | inr e ↦ inl (ground (arith, q, e))
      ]
    ]
