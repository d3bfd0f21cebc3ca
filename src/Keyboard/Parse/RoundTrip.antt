-- ===== src/Keyboard/Parse/RoundTrip.antt =====
-- The parser of remappings reads what a printer of remappings writes, and what a map holds after an
-- entry is loaded.
use os_x_voodoo_ps2_controll.Base.{
  ℕ, ◌+◌, ◌*◌, ◌/◌, ◌%◌, ◌^◌, ◌<◌, ◌≡◌, ◌≢◌, ◌∙◌, ap, refl, arith, true, some, List, [], ◌∷◌, ◌++◌,
  ltb, ◌==◌, if◌then◌else◌, length, get_or, set, get_or-set, get_or-set_other,
}
use os_x_voodoo_ps2_controll.Keyboard.Parse.{
  hex_digit, hex_loop, parse_target, parse_remap, load_ps2_entry, is_scan_code, map_index,
}

-- The character of a digit.
abbrev pub hex_char : ℕ → ℕ
hex_char d = if ltb d 10 then 48 + d else 87 + d

hex_digit-char : (d : ℕ) → d < 16 → hex_digit (hex_char d) ≡ some d
unfolding hex_digit
hex_digit-char d h = ground arith

-- Four digits, the highest first.
abbrev pub hex4 : ℕ → List ℕ
hex4 x =
    hex_char (x / 4096 % 16)
    ∷ hex_char (x / 256 % 16)
    ∷ hex_char (x / 16 % 16)
    ∷ hex_char (x % 16)
    ∷ []

-- A terminator that is no digit.
abbrev pub Stops : ℕ → Type 0
Stops term = (d : ℕ) → d < 16 → hex_char d ≢ term

loop-char :
    (n d term1 term2 : ℕ) (xs : List ℕ)
    → d < 16
    → Stops term1
    → Stops term2
    → hex_loop n term1 term2 (hex_char d ∷ xs) ≡ hex_loop ((n * 16 + d) % 2 ^ 32) term1 term2 xs
unfolding hex_loop
loop-char n d term1 term2 xs h s1 s2 = ground (arith, hex_digit-char d h, s1 d h, s2 d h)

hex4-value :
    (x : ℕ)
    → x < 65536
    → ((((0 * 16 + x / 4096 % 16) % 2 ^ 32 * 16 + x / 256 % 16) % 2 ^ 32 * 16 + x / 16 % 16)
            % 2 ^ 32
            * 16
          + x % 16)
        % 2 ^ 32
      ≡ x
hex4-value x h = omega arith

pub loop-hex4 :
    (x term1 term2 : ℕ) (xs : List ℕ)
    → x < 65536
    → Stops term1
    → Stops term2
    → hex_loop 0 term1 term2 (hex4 x ++ xs) ≡ hex_loop x term1 term2 xs
loop-hex4 x term1 term2 xs h s1 s2 =
    loop-char 0 (x / 4096 % 16) term1 term2 _ (omega arith) s1 s2
    ∙ loop-char _ (x / 256 % 16) term1 term2 _ (omega arith) s1 s2
    ∙ loop-char _ (x / 16 % 16) term1 term2 _ (omega arith) s1 s2
    ∙ loop-char _ (x % 16) term1 term2 xs (omega arith) s1 s2
    ∙ ap (λ n. hex_loop n term1 term2 xs) (hex4-value x h)

-- "scanfrom=scanto"
abbrev pub print_remap : ℕ → ℕ → List ℕ
print_remap from to = hex4 from ++ 61 ∷ hex4 to

pub loop-stop :
    (n term1 term2 : ℕ) (xs : List ℕ) → hex_loop n term1 term2 (term1 ∷ xs) ≡ some (n, term1 ∷ xs)
unfolding hex_loop
loop-stop n term1 term2 xs = ground arith

pub Stops-61 : Stops 61
Stops-61 d h = ground arith

pub Stops-0 : Stops 0
Stops-0 d h = ground arith

Stops-10 : Stops 10
Stops-10 d h = ground arith

Stops-59 : Stops 59
Stops-59 d h = ground arith

parse_target-hex4 : (from to : ℕ) → to < 65536 → parse_target from (hex4 to) ≡ some (from, to)
unfolding parse_target hex_loop
parse_target-hex4 from to h =
    rw (loop-hex4 to 10 59 [] h Stops-10 Stops-59, parse_target) (ground arith)

-- A remapping of 16-bit codes, written with four digits each, is read back.
pub parse_remap-print :
    (from to : ℕ) → from < 65536 → to < 65536 → parse_remap (print_remap from to) ≡ some (from, to)
unfolding parse_remap
parse_remap-print from to h h' =
    rw (loop-hex4 from 61 0 (61 ∷ hex4 to) h Stops-61 Stops-0, parse_remap)
      (rw (loop-stop from 61 0 (hex4 to), parse_remap)
        (ground (arith, parse_target-hex4 from to h')))

map_index-lt : (x : ℕ) → map_index x < 512
map_index-lt x = ground arith

set-lookup :
    (table : List ℕ) (a i v : ℕ)
    → a < length table
    → get_or (set table a v) i 0 ≡ (if i == a then v else get_or table i 0)
set-lookup table a i v h = ground (
  arith,
  get_or-set table a v 0 h,
  get_or-set_other table a i v 0,
  ap (λ j. get_or (set table a v) j 0) {x = i} {y = a},
)

load-parsed :
    (xs : List ℕ) (from to : ℕ) (table : List ℕ)
    → parse_remap xs ≡ some (from, to)
    → is_scan_code from ≡ true
    → is_scan_code to ≡ true
    → load_ps2_entry xs table ≡ set table (map_index from) (map_index to)
unfolding load_ps2_entry
load-parsed xs from to table e code code' = rw (e, load_ps2_entry, code, code') refl

-- After an entry that remaps one scan code to another is loaded, a map of 512 places takes the
-- first code to the place of the second and every other place to what it was.
pub load_ps2_entry-lookup :
    (from to i : ℕ) (table : List ℕ)
    → from < 65536
    → to < 65536
    → is_scan_code from ≡ true
    → is_scan_code to ≡ true
    → length table ≡ 512
    → get_or (load_ps2_entry (print_remap from to) table) i 0
      ≡ (if i == map_index from then map_index to else get_or table i 0)
load_ps2_entry-lookup from to i table h h' code code' size =
    ap (λ t. get_or t i 0)
      (load-parsed (print_remap from to) from to table (parse_remap-print from to h h') code code')
    ∙ set-lookup table (map_index from) i (map_index to) (omega (arith, map_index-lt from))
