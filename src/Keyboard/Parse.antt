-- ===== src/Keyboard/Parse.antt =====
-- parseHex, parseRemap, parseAction and the functions that load maps from the configuration:
-- loadCustomPS2Map, loadBreaklessPS2, loadCustomADBMap and loadMacroData. A string is the list of its
-- characters, without the 0 that ends it.
pub mod RoundTrip
use os_x_voodoo_ps2_controll.Base.{
  ℕ, zero, suc, ◌+◌, ◌-◌, ◌*◌, ◌/◌, ◌%◌, ◌^◌, Bool, true, false, not, ◌&&◌, ◌||◌, Option, none,
  some, List, [], ◌∷◌, ltb, leb, ◌==◌, ◌!=◌, if◌then◌else◌, bit_or, length, get_or, set,
}
use os_x_voodoo_ps2_controll.Keyboard.{breakless_key}

-- The value of a hexadecimal digit.
pub hex_digit : ℕ → Option ℕ
hex_digit x =
    if leb 48 x && leb x 57
    then some (x - 48)
    else if leb 97 x && leb x 102
    then some (x - 97 + 10)
    else if leb 65 x && leb x 70
    then some (x - 65 + 10)
    else none

-- The loop, on the 32-bit number read so far. A terminator of 0 is the end of the string.
pub hex_loop : ℕ → ℕ → ℕ → List ℕ → Option (ℕ × List ℕ)
hex_loop n term1 term2 [] = some (n, [])
hex_loop n term1 term2 (x ∷ xs) =
    if x == term1 || x == term2 then some (n, x ∷ xs) else elim (hex_digit x) [
      | none ↦ none
      | some d ↦ hex_loop ((n * 16 + d) % 2 ^ 32) term1 term2 xs
    ]

abbrev pub parse_hex : ℕ → ℕ → List ℕ → Option (ℕ × List ℕ)
parse_hex term1 term2 xs = hex_loop 0 term1 term2 xs

-- The second number of a remapping, whose end is a line break, a semicolon or the end.
pub parse_target : ℕ → List ℕ → Option (ℕ × ℕ)
parse_target from xs = elim (parse_hex 10 59 xs) [
  | none ↦ none
  | some (n, rest) ↦ if ltb 0xffff n then none else some (from, n)
]

pub parse_remap : List ℕ → Option (ℕ × ℕ)
parse_remap xs = elim (parse_hex 61 0 xs) [
  | none ↦ none
  | some (n, []) ↦ none
  | some (n, x ∷ rest) ↦ if x != 61 || ltb 0xffff n then none else parse_target n rest
]

unfoldable pub skip_spaces : List ℕ → List ℕ
skip_spaces [] = []
skip_spaces (x ∷ xs) = if x == 32 then skip_spaces xs else x ∷ xs

-- One step of an action: the entry that it adds, and the string behind its letter.
unfoldable pub parse_step : List ℕ → Option (ℕ × List ℕ)
parse_step xs = elim (parse_hex 32 0 xs) [
  | none ↦ none
  | some (n, []) ↦ none
  | some (n, x ∷ []) ↦ none
  | some (n, x ∷ y ∷ rest) ↦
      if x != 32 || (y != 100 && y != 117)
      then none
      else some (bit_or n (if y == 117 then 0x1000 else 0) % 2 ^ 16, rest)
]

-- The loop with `left` = `size - i`: the string, and the array so far.
unfoldable pub action_loop : ℕ → ℕ → List ℕ → List ℕ → Option (List ℕ)
action_loop zero i xs dest = none
action_loop (suc left) i [] dest = some (set dest i 0)
action_loop (suc left) i (x ∷ xs) dest = elim (parse_step (x ∷ xs)) [
  | none ↦ none
  | some (entry, []) ↦ if left == 0 then none else some (set (set dest i entry) (i + 1) 0)
  | some (entry, y ∷ rest) ↦
      let more = action_loop left (i + 1) (skip_spaces rest) (set dest i entry) in
      if y == 44 then more else none
]

-- The array `dest` of `size` entries: on an error it is left with an end mark at its start, and what
-- the loop wrote behind that is of no use.
unfoldable pub parse_action : ℕ → List ℕ → List ℕ → Bool × List ℕ
parse_action size xs dest = elim (action_loop size 0 xs dest) [
  | none ↦ (false, set dest 0 0)
  | some d ↦ (true, d)
]

abbrev pub is_comment : List ℕ → Bool
is_comment [] = false
is_comment (x ∷ xs) = x == 59

-- "must be normal scan code or extended, nothing else"
abbrev pub is_scan_code : ℕ → Bool
is_scan_code x = x / 256 == 0 || x / 256 == 0xe0

-- The place of a scan code in a map whose extended codes begin at 256.
abbrev pub map_index : ℕ → ℕ
map_index x = x % 256 + (if x / 256 == 0xe0 then 256 else 0)

pub load_ps2_entry : List ℕ → List ℕ → List ℕ
load_ps2_entry xs table = elim (parse_remap xs) [
  | none ↦ table
  | some (from, to) ↦
      if is_scan_code from && is_scan_code to
      then set table (map_index from) (map_index to)
      else table
]

pub load_breakless_entry : List ℕ → List ℕ → List ℕ
load_breakless_entry xs flags = elim (parse_hex 10 59 xs) [
  | none ↦ flags
  | some (n, rest) ↦
      -- `UInt8 exIn = scanIn >> 8`
      let ex = n / 256 % 256 in
      let i : ℕ = n % 256 + (if ex == 0xe0 then 256 else 0) in
      if ex == 0 || ex == 0xe0 then set flags i (bit_or (get_or flags i 0) breakless_key) else flags
]

pub load_adb_entry : List ℕ → List ℕ → List ℕ
load_adb_entry xs table = elim (parse_remap xs) [
  | none ↦ table
  | some (from, to) ↦
      if is_scan_code from && leb to 0xff then set table (map_index from) to else table
]

-- The entries of the array that are strings and no comments, in order.
pub load_entries : (List ℕ → List ℕ → List ℕ) → List (Option (List ℕ)) → List ℕ → List ℕ
load_entries load [] table = table
load_entries load (none ∷ entries) table = load_entries load entries table
load_entries load (some xs ∷ entries) table =
    load_entries load entries (if is_comment xs then table else load xs table)

-- The array, or null where the configuration has none.
pub load_custom_ps2_map : Option (List (Option (List ℕ))) → List ℕ → List ℕ
load_custom_ps2_map none table = table
load_custom_ps2_map (some entries) table = load_entries load_ps2_entry entries table

pub load_breakless_ps2 : Option (List (Option (List ℕ))) → List ℕ → List ℕ
load_breakless_ps2 none flags = flags
load_breakless_ps2 (some entries) flags = load_entries load_breakless_entry entries flags

pub load_custom_adb_map : Option (List (Option (List ℕ))) → List ℕ → List ℕ
load_custom_adb_map none table = table
load_custom_adb_map (some entries) table = load_entries load_adb_entry entries table

-- "if (length >= kMinMacroInversion && !(length & 0x01))" and the two bytes that follow it.
abbrev pub is_macro : List ℕ → Bool
is_macro bytes =
    leb 10 (length bytes)
    && length bytes % 2 == 0
    && get_or bytes 0 0 == 0xff
    && get_or bytes 1 0 == 0xff

pub keep_macros : List (Option (List ℕ)) → List (List ℕ)
keep_macros [] = []
keep_macros (none ∷ entries) = keep_macros entries
keep_macros (some bytes ∷ entries) =
    if is_macro bytes then bytes ∷ keep_macros entries else keep_macros entries

-- Null if there is no valid entry.
pub load_macro_data : Option (List (Option (List ℕ))) → Option (List (List ℕ))
load_macro_data none = none
load_macro_data (some entries) = elim (keep_macros entries) [ [] ↦ none | m ∷ ms ↦ some (m ∷ ms) ]
