-- ===== src/Keyboard/Levels.antt =====
-- modifyScreenBrightness and modifyKeyboardBacklight: one step up or down in a table of levels. The
-- first two entries of the brightness table are not levels to step to.
pub mod Steps
use os_x_voodoo_ps2_controll.Base.{
  ℕ, zero, suc, ◌+◌, ◌-◌, ◌≤◌, ◌<◌, ◌≡◌, ap, refl, arith, Bool, true, false, ◌&&◌, Option, none,
  some, List, [], ◌∷◌, ltb, leb, ◌==◌, if◌then◌else◌, length, get_or, drop,
}
use os_x_voodoo_ps2_controll.Base.Int.{ltb_ℤ, signed32}
use os_x_voodoo_ps2_controll.Keyboard.Events.{
  Method, kbqc, kbcm, kkqc, kkcm, evaluate_object, Typist, World, perform,
}

-- `int` comparison of 32-bit numbers.
abbrev pub below_level : ℕ → ℕ → Bool
below_level x y = ltb_ℤ (signed32 x) (signed32 y)

-- The loop: the index of the first level from `index` on that is not below the current one.
unfoldable pub find_level : ℕ → ℕ → List ℕ → ℕ
find_level current index [] = index
find_level current index (x ∷ levels) =
    let rest = find_level current (suc index) levels in
    if below_level x current then rest else index

-- "move to next or previous", and the limits. An index is never below `low`, and below 1 only if
-- `low` is 0, so that the subtraction stops at the limit that follows it.
unfoldable pub next_index : ℕ → ℕ → Bool → List ℕ → ℕ
next_index low current up levels =
    let index = find_level current low (drop low levels) in
    let moved : ℕ = if up then index + 1 else index - 1 in
    let limited : ℕ = if leb (length levels) moved then length levels - 1 else moved in
    if ltb limited low then low else limited

module _ (w : World) where
  -- The code that both functions have: `query` and `change` are the methods of ACPI.
  unfoldable pub modify_level : Method → Method → ℕ → Bool → Bool → List ℕ → Typist → Typist
  modify_level query change low up down levels s = elim (w.evaluate_integer query s.effects) [
    | none ↦ s
    | some current ↦
        if w.gives_number s.effects && down
        then perform (evaluate_object change (get_or levels (next_index low current up levels) 0)) s
        else s
  ]

  abbrev pub modify_screen_brightness : ℕ → Bool → List ℕ → Typist → Typist
  modify_screen_brightness adb_key_code down levels s =
      modify_level kbqc kbcm 2 (adb_key_code == 0x90) down levels s

  abbrev pub modify_keyboard_backlight : ℕ → Bool → List ℕ → Typist → Typist
  modify_keyboard_backlight key_code down levels s =
      modify_level kkqc kkcm 0 (key_code == 0x4e) down levels s
