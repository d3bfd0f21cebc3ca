-- ===== src/Keyboard/Dispatch/Stock.antt =====
-- The tables that the driver starts with: every modifier has a key of its own, and the power key has
-- one code.
use os_x_voodoo_ps2_controll.Base.{
  ℕ, zero, suc, ◌≤◌, ◌≡◌, ◌≢◌, ◌∙◌, ap, refl, sym, arith, Bool, true, ◌&&◌, ◌||◌, List, [], ◌∷◌,
  ltb, leb, ◌==◌, ◌!=◌, bit_and, length, get_or, Bool-cases, inl, inr,
}
use os_x_voodoo_ps2_controll.Base.Bytes.{every_below, every-test, none-bit_and}
use os_x_voodoo_ps2_controll.Keyboard.{breakless_key}
use os_x_voodoo_ps2_controll.Keyboard.Tables.{ps2_to_adb_map_stock}
use os_x_voodoo_ps2_controll.Keyboard.Tables.Flags.{ps2_flags_stock}
use os_x_voodoo_ps2_controll.Keyboard.Dispatch.Tracking.{modifier, IsTable}

-- The key of a modifier.
abbrev key_of : ℕ → ℕ
key_of n =
    get_or (0 ∷ 0x1d ∷ 0x11d ∷ 0x2a ∷ 0x36 ∷ 0x38 ∷ 0x138 ∷ 0x15b ∷ 0x15c ∷ 0x163 ∷ 0x15d ∷ []) n 0

-- The test of one entry of a table.
unfoldable is_fit : List ℕ → ℕ → Bool
is_fit flags key =
    let n = modifier flags key in
    leb n 16 && bit_and (get_or flags key 0) breakless_key == 0 && (n == 0 || key_of n == key)

pub beyond : (xs : List ℕ) (i : ℕ) → length xs ≤ i → get_or xs i 0 ≡ 0
beyond [] i h = refl
beyond (x ∷ xs) zero h = absurd (omega arith)
beyond (x ∷ xs) (suc i) h = beyond xs i (omega arith)

module _ (flags : List ℕ) (size : length flags ≤ 512)
    (fit : every_below 512 (is_fit flags) ≡ true) where
  every-fit : (key : ℕ) → is_fit flags key ≡ true
  unfolding is_fit
  every-fit key = elim (Bool-cases (ltb key 512)) [
    | inl e ↦ every-test (is_fit flags) 512 key (ground (arith, e)) fit
    | inr e ↦ ground (arith, e, beyond flags key (ground (arith, e)), none-bit_and 1)
  ]

  number_fit :
      (key : ℕ) → (modifier flags key ≤ 16) × (bit_and (get_or flags key 0) breakless_key ≡ 0)
  unfolding is_fit
  number_fit key = ground (arith, every-fit key)

  key_fit : (key : ℕ) → modifier flags key ≢ 0 → key_of (modifier flags key) ≡ key
  unfolding is_fit
  key_fit key n = ground (arith, every-fit key)

  same_fit : (a b : ℕ) → modifier flags a ≢ 0 → modifier flags a ≡ modifier flags b → a ≡ b
  same_fit a b n e = sym (key_fit a n) ∙ ap key_of e ∙ key_fit b (λ z. n (e ∙ z))

stock_fit : every_below 512 (is_fit ps2_flags_stock) ≡ true
unfolding every_below is_fit
stock_fit = refl

-- The table that the driver starts with is such a table.
pub stock-IsTable : IsTable ps2_flags_stock
stock-IsTable = record {
  number = λ key. (number_fit ps2_flags_stock (omega arith) stock_fit key).0;
  distinct = same_fit ps2_flags_stock (omega arith) stock_fit;
  breakless = λ key b. absurd (b (number_fit ps2_flags_stock (omega arith) stock_fit key).1);
  lang1 = refl;
  lang2 = refl;
  print_screen = refl;
}

abbrev power_test : List ℕ → ℕ → Bool
power_test table key = key == 0x15e || get_or table key 0 != 0x7f

power_fit :
    (table : List ℕ) (key : ℕ)
    → length table ≤ 512
    → every_below 512 (power_test table) ≡ true
    → key ≢ 0x15e
    → get_or table key 0 ≢ 0x7f
power_fit table key size fit n = elim (Bool-cases (ltb key 512)) [
  | inl e ↦ ground (arith, n, every-test (power_test table) 512 key (ground (arith, e)) fit)
  | inr e ↦ ground (arith, beyond table key (ground (arith, e, size)))
]

stock_power_fit : every_below 512 (power_test ps2_to_adb_map_stock) ≡ true
unfolding every_below
stock_power_fit = refl

-- Of all codes, e05e alone is the power key.
pub stock_power : (key : ℕ) → key ≢ 0x15e → get_or ps2_to_adb_map_stock key 0 ≢ 0x7f
stock_power key n = power_fit ps2_to_adb_map_stock key (omega arith) stock_power_fit n
