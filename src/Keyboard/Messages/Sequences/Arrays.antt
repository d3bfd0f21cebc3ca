-- ===== src/Keyboard/Messages/Sequences/Arrays.antt =====
-- The array of an action, as parseAction writes it and sendKeySequence reads it.
use os_x_voodoo_ps2_controll.Base.{
  ℕ, zero, suc, ◌+◌, ◌/◌, ◌%◌, ◌≤◌, ◌<◌, ◌≡◌, ◌≢◌, ◌∙◌, ap, refl, sym, arith, Bool, true, false,
  Option, none, some, List, [], ◌∷◌, length, get_or, set, drop, length-set, get_or-set,
  get_or-set_other,
}
use os_x_voodoo_ps2_controll.Keyboard.Events.{Typist, World, dispatch_keyboard_event_now}
use os_x_voodoo_ps2_controll.Keyboard.Parse.{action_loop, parse_action, skip_spaces}
use os_x_voodoo_ps2_controll.Keyboard.Parse.RoundTrip.{hex_char}
use os_x_voodoo_ps2_controll.Keyboard.Messages.{send_key_sequence}
use os_x_voodoo_ps2_controll.Keyboard.Messages.Sequences.{
  print_step, print_steps, entry_of, parse_step-print, AllKeys, type_steps, drop-entry, entry_sent,
}

-- An array that holds an action from place `i` on, and what was there before it.
record IsWritten (w : World) (steps : List (ℕ × Bool)) (i : ℕ) (dest d : List ℕ) : Type 0 where
  size : length d ≡ length dest
  before : (j : ℕ) → j < i → get_or d j 0 ≡ get_or dest j 0
  sends : (s : Typist) → send_key_sequence w (drop i d) s ≡ type_steps w steps s

send_zero : (w : World) (xs : List ℕ) (s : Typist) → send_key_sequence w (0 ∷ xs) s ≡ s
unfolding send_key_sequence
send_zero w xs s = refl

send_entry :
    (w : World) (code : ℕ) (down : Bool) (xs : List ℕ) (s : Typist)
    → code < 256
    → 0 < code
    → send_key_sequence w (entry_of (code, down) ∷ xs) s
      ≡ send_key_sequence w xs (dispatch_keyboard_event_now w code down s)
unfolding send_key_sequence
send_entry w code down xs s h p = ground (arith, entry_sent code down h p)

-- The loop, at a step that the array has room for.
loop_last :
    (left i code : ℕ) (down : Bool) (dest : List ℕ)
    → code < 256
    → 0 < left
    → action_loop (suc left) i (print_step (code, down) []) dest
      ≡ some (set (set dest i (entry_of (code, down))) (i + 1) 0)
unfolding action_loop
loop_last left i code down dest h l =
    rw (parse_step-print code down [] h, action_loop) (ground arith)

skip_one : (x : ℕ) (xs : List ℕ) → x ≢ 32 → skip_spaces (32 ∷ x ∷ xs) ≡ x ∷ xs
unfolding skip_spaces
skip_one x xs n = ground (arith, n)

loop_more :
    (left i code : ℕ) (down : Bool) (x : ℕ) (xs dest : List ℕ)
    → code < 256
    → x ≢ 32
    → action_loop (suc left) i (print_step (code, down) (44 ∷ 32 ∷ x ∷ xs)) dest
      ≡ action_loop left (i + 1) (x ∷ xs) (set dest i (entry_of (code, down)))
unfolding action_loop skip_spaces
loop_more left i code down x xs dest h n =
    rw (parse_step-print code down (44 ∷ 32 ∷ x ∷ xs) h, action_loop)
      (ap (λ ys. action_loop left (i + 1) ys (set dest i (entry_of (code, down))))
        (skip_one x xs n))

-- One more entry before an array that holds the steps behind it.
IsWritten-more :
    (w : World) (code : ℕ) (down : Bool) (steps : List (ℕ × Bool)) (i : ℕ) (dest d : List ℕ)
    → code < 256
    → 0 < code
    → i < length dest
    → IsWritten w steps (i + 1) (set dest i (entry_of (code, down))) d
    → IsWritten w ((code, down) ∷ steps) i dest d
unfolding type_steps
IsWritten-more w code down steps i dest d h p room v = record {
  size = v.size ∙ length-set dest i (entry_of (code, down));
  before = λ j l.
      v.before j (omega arith)
      ∙ get_or-set_other dest i j (entry_of (code, down)) 0 (λ e. omega arith);
  sends = λ s.
      ap (λ xs. send_key_sequence w xs s)
        (drop-entry i d (omega (arith, v.size, length-set dest i (entry_of (code, down))))
          ∙ ap (λ x. x ∷ drop (suc i) d)
              (v.before i (omega arith) ∙ get_or-set dest i (entry_of (code, down)) 0 room))
      ∙ send_entry w code down (drop (suc i) d) s h p
      ∙ ap (λ j. send_key_sequence w (drop j d) (dispatch_keyboard_event_now w code down s))
          {x = suc i} {y = i + 1} (omega arith)
      ∙ v.sends (dispatch_keyboard_event_now w code down s);
}

IsWritten-last :
    (w : World) (i : ℕ) (dest : List ℕ) → i < length dest → IsWritten w [] i dest (set dest i 0)
unfolding type_steps
IsWritten-last w i dest h = record {
  size = length-set dest i 0;
  before = λ j l. get_or-set_other dest i j 0 0 (λ e. omega arith);
  sends = λ s.
      ap (λ xs. send_key_sequence w xs s)
        (drop-entry i (set dest i 0) (omega (arith, length-set dest i 0))
          ∙ ap (λ x. x ∷ drop (suc i) (set dest i 0)) (get_or-set dest i 0 0 h))
      ∙ send_zero w (drop (suc i) (set dest i 0)) s;
}

-- The character that a step begins with is no space.
first_digit : (code : ℕ) → hex_char (code / 4096 % 16) ≢ 32
first_digit code h = ground arith

first_char :
    (code : ℕ) (down : Bool) (steps : List (ℕ × Bool))
    → (rest : List ℕ) × (print_steps ((code, down) ∷ steps) ≡ hex_char (code / 4096 % 16) ∷ rest)
first_char code down [] = (_, refl)
first_char code down (next ∷ steps) = (_, refl)

loop_step :
    (left i code : ℕ) (down : Bool) (code' : ℕ) (down' : Bool) (steps : List (ℕ × Bool))
    (dest : List ℕ)
    → code < 256
    → action_loop
        (suc left)
        i
        (print_step (code, down) (44 ∷ 32 ∷ print_steps ((code', down') ∷ steps)))
        dest
      ≡ action_loop left
          (i + 1)
          (print_steps ((code', down') ∷ steps))
          (set dest i (entry_of (code, down)))
loop_step left i code down code' down' steps dest h =
    let (rest, e) = first_char code' down' steps in
    ap (λ xs. action_loop (suc left) i (print_step (code, down) (44 ∷ 32 ∷ xs)) dest) e
    ∙ loop_more left i code down (hex_char (code' / 4096 % 16)) rest dest h (first_digit code')
    ∙ ap (λ xs. action_loop left (i + 1) xs (set dest i (entry_of (code, down)))) (sym e)

action_loop-print :
    (w : World) (code : ℕ) (down : Bool) (steps : List (ℕ × Bool)) (left i : ℕ) (dest : List ℕ)
    → AllKeys ((code, down) ∷ steps)
    → length steps < left
    → i + suc left ≤ length dest
    → (d : List ℕ) × (action_loop (suc left) i (print_steps ((code, down) ∷ steps)) dest ≡ some d)
      × IsWritten w ((code, down) ∷ steps) i dest d
action_loop-print w code down [] left i dest keys room fits =
    let entry = entry_of (code, down) in
    (
      set (set dest i entry) (i + 1) 0,
      loop_last left i code down dest keys.0.0 (omega arith),
      IsWritten-more w code down [] i dest (set (set dest i entry) (i + 1) 0) keys.0.0 keys.0.1
          (omega arith)
          (IsWritten-last w (i + 1) (set dest i entry) (omega (arith, length-set dest i entry))),
    )
action_loop-print w code down ((code', down') ∷ steps) zero i dest keys room fits =
    absurd (omega arith)
action_loop-print w code down ((code', down') ∷ steps) (suc left) i dest keys room fits =
    let entry = entry_of (code, down) in
    let (d, e, v) =
      action_loop-print w code' down' steps left (i + 1) (set dest i entry) keys.1 (omega arith)
        (omega (arith, length-set dest i entry)) in
    (
      d,
      loop_step (suc left) i code down code' down' steps dest keys.0.0 ∙ e,
      IsWritten-more w code down ((code', down') ∷ steps) i dest d keys.0.0 keys.0.1 (omega arith)
          v,
    )

-- What parseAction leaves, by the result of its loop.
abbrev written_or : List ℕ → Option (List ℕ) → Bool × List ℕ
written_or dest none = (false, set dest 0 0)
written_or dest (some d) = (true, d)

-- An action that is written as steps of key codes from 1 to 255, with room for them and the end mark
-- in the array, is parsed, and then sends exactly these keys, down and up as it says and in its order,
-- each at the time of a reading of the clock.
pub parse_action-send :
    (w : World) (code : ℕ) (down : Bool) (steps : List (ℕ × Bool)) (size : ℕ) (dest : List ℕ)
    (s : Typist)
    → AllKeys ((code, down) ∷ steps)
    → length steps + 2 ≤ size
    → size ≤ length dest
    → let (parsed, action) = parse_action size (print_steps ((code, down) ∷ steps)) dest in
      (parsed ≡ true) × (send_key_sequence w action s ≡ type_steps w ((code, down) ∷ steps) s)
unfolding parse_action
parse_action-send w code down steps zero dest s keys room fits = absurd (omega arith)
parse_action-send w code down steps (suc left) dest s keys room fits =
    let (d, e, v) =
      action_loop-print w code down steps left 0 dest keys (omega arith) (omega arith) in
    (
      ap (λ o. (written_or dest o).0) e,
      ap (λ o. send_key_sequence w (written_or dest o).1 s) e ∙ v.sends s,
    )
