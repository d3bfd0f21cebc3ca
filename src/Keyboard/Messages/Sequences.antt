-- ===== src/Keyboard/Messages/Sequences.antt =====
-- parseAction and sendKeySequence: from the text of an action to the events of its keys.
pub mod Arrays
use os_x_voodoo_ps2_controll.Base.{
  ℕ, zero, suc, ◌+◌, ◌/◌, ◌%◌, ◌^◌, ◌≤◌, ◌<◌, ◌≡◌, ◌≢◌, ◌∙◌, ap, refl, sym, arith, Bool, true,
  false, ◌&&◌, ◌||◌, Option, none, some, List, [], ◌∷◌, ◌++◌, ◌==◌, ◌!=◌, if◌then◌else◌, bit_and,
  bit_or, length, get_or, set, drop, length-set, get_or-set, get_or-set_other,
}
use os_x_voodoo_ps2_controll.Base.Bytes.{every_below, byte_table}
use os_x_voodoo_ps2_controll.Keyboard.Events.{Typist, World, dispatch_keyboard_event_now}
use os_x_voodoo_ps2_controll.Keyboard.Parse.{parse_step, action_loop, parse_action, skip_spaces}
use os_x_voodoo_ps2_controll.Keyboard.Parse.RoundTrip.{
  hex_char, hex4, loop-hex4, loop-stop, Stops, Stops-0,
}
use os_x_voodoo_ps2_controll.Keyboard.Messages.{send_key_sequence}

-- A step is an ADB code and whether the key goes down.
abbrev pub print_step : ℕ × Bool → List ℕ → List ℕ
print_step (code, down) rest = hex4 code ++ 32 ∷ (if down then 100 else 117) ∷ rest

-- "key d, key u": the steps with a comma and a space between them.
abbrev pub print_steps : List (ℕ × Bool) → List ℕ
print_steps [] = []
print_steps (step ∷ []) = print_step step []
print_steps (step ∷ next ∷ steps) = print_step step (44 ∷ 32 ∷ print_steps (next ∷ steps))

-- The entry of a step.
abbrev pub entry_of : ℕ × Bool → ℕ
entry_of (code, down) = bit_or code (if down then 0 else 0x1000) % 2 ^ 16

Stops-32 : Stops 32
Stops-32 d h = ground arith

pub parse_step-print :
    (code : ℕ) (down : Bool) (rest : List ℕ)
    → code < 256
    → parse_step (print_step (code, down) rest) ≡ some (entry_of (code, down), rest)
unfolding parse_step
parse_step-print code down rest h =
    rw
      (
        loop-hex4 code 32 0 (32 ∷ (if down then 100 else 117) ∷ rest) (omega arith) Stops-32
            Stops-0,
        parse_step,
      )
      (rw (loop-stop code 32 0 ((if down then 100 else 117) ∷ rest), parse_step) (ground arith))

abbrev entry_test : ℕ → Bool
entry_test code =
    let pressed = entry_of (code, true) in
    let let_go = entry_of (code, false) in
    (code == 0 || pressed != 0)
    && let_go != 0
    && bit_and pressed 0xff == code
    && bit_and let_go 0xff == code
    && bit_and pressed 0x1000 == 0
    && bit_and let_go 0x1000 != 0

entry_table : every_below 256 entry_test ≡ true
unfolding every_below
entry_table = refl

pub entry_sent :
    (code : ℕ) (down : Bool)
    → code < 256
    → 0 < code
    → (entry_of (code, down) ≢ 0)
      × (bit_and (entry_of (code, down)) 0xff ≡ code)
      × ((bit_and (entry_of (code, down)) 0x1000 == 0) ≡ down)
entry_sent code true h p = ground (arith, byte_table entry_test entry_table code h)
entry_sent code false h p = ground (arith, byte_table entry_test entry_table code h)

-- The codes that an action can hold: an entry of 0 would end it.
abbrev pub AllKeys : List (ℕ × Bool) → Type 0
AllKeys [] = Unit
AllKeys ((code, down) ∷ steps) = ((code < 256) × (0 < code)) × AllKeys steps

-- The keys of an action are typed one after the other, each at the time of its own.
pub type_steps : World → List (ℕ × Bool) → Typist → Typist
type_steps w [] s = s
type_steps w ((code, down) ∷ steps) s =
    type_steps w steps (dispatch_keyboard_event_now w code down s)

pub drop-entry : (i : ℕ) (xs : List ℕ) → i < length xs → drop i xs ≡ get_or xs i 0 ∷ drop (suc i) xs
drop-entry i [] h = absurd (omega arith)
drop-entry zero (x ∷ xs) h = refl
drop-entry (suc i) (x ∷ xs) h = drop-entry i xs (omega arith)
