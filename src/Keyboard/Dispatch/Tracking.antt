-- ===== src/Keyboard/Dispatch/Tracking.antt =====
-- The interrupt routine and dispatchKeyboardEventWithPacket together: the keys that are down, as the
-- interrupt routine records them, and the modifier state, as the work loop does.
use os_x_voodoo_ps2_controll.Base.{
  ℕ, zero, suc, ◌+◌, ◌-◌, ◌/◌, ◌%◌, ◌^◌, ◌≤◌, ◌<◌, ◌≡◌, ◌≢◌, ap, arith, Bool, List, ◌∷◌, ◌==◌, ◌!=◌,
  if◌then◌else◌, bit_and, bit_or, length, get_or, Bool-cases, inl, inr,
}
use os_x_voodoo_ps2_controll.Base.Bits.{bit, bit-or, bit-and, below}
use mathlib.Core.List.{foldl}
use mathlib.Core.Path.{subst}
use os_x_voodoo_ps2_controll.Base.{◌∙◌, sym, [], nil_of_length}
use os_x_voodoo_ps2_controll.Ring.{Ring, count}
use os_x_voodoo_ps2_controll.Ring.Valid.{contents, count-eq-length}
use os_x_voodoo_ps2_controll.Ring.Aligned.{Aligned}
use os_x_voodoo_ps2_controll.Ring.Drain.{drain, single_packet}
use os_x_voodoo_ps2_controll.Keyboard.Packets.{
  IsValid, interrupt_occurred-Keeps, packet_ready_loop, keyboard_loop-Drained,
}
use os_x_voodoo_ps2_controll.Keyboard.Announce.{Announced, publish-Announced, interrupt-ring}
use os_x_voodoo_ps2_controll.Device.{sc_up_bit}
use os_x_voodoo_ps2_controll.Keyboard.{
  Keyboard, ring_size, packet_length, publish, interrupt_occurred, key_data, is_key_down, raw_key,
  breakless_key,
}
use os_x_voodoo_ps2_controll.Keyboard.Held.{IsCode, is_ready, interrupt-held}
use os_x_voodoo_ps2_controll.Keyboard.Macros.{packet_time}
use os_x_voodoo_ps2_controll.Keyboard.Events.{Typist, Settings, World, track_modifiers}
use os_x_voodoo_ps2_controll.Keyboard.Dispatch.{dispatch_packet}
use os_x_voodoo_ps2_controll.Keyboard.Dispatch.Modifiers.{dispatch_key-modifiers}

-- The number of the modifier that a key is, 0 for other keys.
abbrev pub modifier : List ℕ → ℕ → ℕ
modifier flags key = get_or flags key 0 / 256

word_mask : (n : ℕ) → n < 16 → 2 ^ n % 2 ^ 16 ≡ 2 ^ n
word_mask n h = omega (arith, below 16 n h)

track_modifiers-bit :
    (flags j : ℕ) (down : Bool) (s : Typist)
    → flags / 256 ≤ 16
    → j < 16
    → bit j (track_modifiers flags down s).modifier_state
      ≡ (if j + 1 == flags / 256 then (if down then 1 else 0) else bit j s.modifier_state)
unfolding track_modifiers
track_modifiers-bit flags j down s n h = elim (Bool-cases (flags / 256 == 0)) [
  | inl z ↦ ground (arith, z)
  | inr z ↦ ground (
    arith,
    z,
    ap (λ m. bit j (bit_or s.modifier_state m)) (word_mask (flags / 256 - 1) (ground (arith, z))),
    ap (λ m. bit j (bit_and s.modifier_state (2 ^ 16 - 1 - m)))
        (word_mask (flags / 256 - 1) (ground (arith, z))),
    bit-or j (flags / 256 - 1) s.modifier_state,
    bit-and 16 j (flags / 256 - 1) s.modifier_state h (ground (arith, z)),
  )
]

-- A table of flags in which no two keys are the same modifier, and the keys that make no break codes,
-- the LANG keys and the header of PrintScreen are none.
pub record IsTable (flags : List ℕ) : Type 0 where
  pub number : (key : ℕ) → modifier flags key ≤ 16
  pub distinct : (a b : ℕ) → modifier flags a ≢ 0 → modifier flags a ≡ modifier flags b → a ≡ b
  pub breakless :
      (key : ℕ) → bit_and (get_or flags key 0) breakless_key ≢ 0 → modifier flags key ≡ 0
  pub lang1 : modifier flags 0x72 ≡ 0
  pub lang2 : modifier flags 0x71 ≡ 0
  pub print_screen : modifier flags 0x12a ≡ 0

-- The bit of each modifier says whether its key is down.
abbrev pub IsTracked : List ℕ → List ℕ → ℕ → Type 0
IsTracked flags units state =
    (key : ℕ)
    → modifier flags key ≢ 0
    → (bit (modifier flags key - 1) state != 0) ≡ is_key_down key units

interrupt-breakless :
    (uptime : ℕ → ℕ) (x : ℕ) (k : Keyboard)
    → IsCode x k
    → bit_and (get_or k.ps2_flags (raw_key k.extend_count x) 0) breakless_key ≢ 0
    → (interrupt_occurred uptime x k).1.key_bit_vector ≡ k.key_bit_vector
unfolding interrupt_occurred key_data
interrupt-breakless uptime x k c b = ground (arith, c)

no_number :
    (flags : ℕ) (down : Bool) (s : Typist) → flags / 256 ≡ 0 → track_modifiers flags down s ≡ s
unfolding track_modifiers
no_number flags down s h = ground (arith, h)

raw_normal : (x : ℕ) → raw_key 0 x ≡ bit_and x (255 - sc_up_bit)
raw_normal x = omega arith

raw_extended : (x : ℕ) → raw_key 1 x ≡ bit_and x (255 - sc_up_bit) + 256
raw_extended x = omega arith

module _ (w : World) (c : Settings) where
  -- A packet tracks the modifier that its key is, and does nothing else to the modifier state.
  dispatch_packet-modifiers :
      (extended x : ℕ) (rest : List ℕ) (s : Typist)
      → extended ≤ 1
      → IsTable c.ps2_flags
      → (dispatch_packet w c ((extended + 1) ∷ x ∷ rest) s).1.modifier_state
        ≡ (track_modifiers
            (get_or c.ps2_flags (raw_key extended x) 0)
            (bit_and x sc_up_bit == 0)
            s).modifier_state
  unfolding dispatch_packet
  dispatch_packet-modifiers zero x rest s h t =
      let code = bit_and x (255 - sc_up_bit) in
      let down = bit_and x sc_up_bit == 0 in
      ground (
        arith,
        t,
        dispatch_key-modifiers w c code down (packet_time (1 ∷ x ∷ rest)) s,
        raw_normal x,
        ap (λ y. bit_and y 127) {x = x} {y = 0xf1},
        ap (λ y. bit_and y 127) {x = x} {y = 0xf2},
        ap (λ key. track_modifiers (get_or c.ps2_flags key 0) down s) {x = raw_key 0 x} {y = code},
        ap (λ key. modifier c.ps2_flags key) {x = code} {y = 0x71},
        ap (λ key. modifier c.ps2_flags key) {x = code} {y = 0x72},
        no_number (get_or c.ps2_flags code 0) down s,
      )
  dispatch_packet-modifiers (suc zero) x rest s h t =
      let code = bit_and x (255 - sc_up_bit) in
      let down = bit_and x sc_up_bit == 0 in
      ground (
        arith,
        t,
        dispatch_key-modifiers w c (code + 256) down (packet_time (2 ∷ x ∷ rest)) s,
        raw_extended x,
        ap (λ key. track_modifiers (get_or c.ps2_flags key 0) down s) {x = raw_key 1 x}
            {y = code + 256},
        ap (λ key. modifier c.ps2_flags key) {x = code + 256} {y = 0x12a},
        no_number (get_or c.ps2_flags (code + 256) 0) down s,
      )
  dispatch_packet-modifiers (suc (suc e)) x rest s h t = absurd (omega arith)

  -- The packet that the interrupt routine made of a scan code, out of an empty ring.
  abbrev dispatched : List ℕ → Typist → Typist
  dispatched packet s = (dispatch_packet w c packet s).1

  -- The work loop, without macros to invert, after a scan code: what is in the ring is dispatched.
  abbrev pub typed : Keyboard → Typist → Typist
  typed k s = (packet_ready_loop dispatched k s).1

  announced_packet :
      (packet : List ℕ) (first second : ℕ)
      → length packet ≡ packet_length
      → get_or packet 0 0 ≡ first
      → get_or packet 1 0 ≡ second
      → (rest : List ℕ) × (packet ≡ first ∷ second ∷ rest)
  announced_packet (a ∷ b ∷ rest) first second size e f =
      (rest, ap (λ y. y ∷ b ∷ rest) e ∙ ap (λ y. first ∷ y ∷ rest) f)
  announced_packet [] first second size e f = absurd (omega arith)
  announced_packet (a ∷ []) first second size e f = absurd (omega arith)

  -- From an empty ring, the loop dispatches the one packet that was appended.
  typed-one :
      (now first second : ℕ) (r : Ring ℕ) (k : Keyboard) (s : Typist)
      → IsValid k
      → Aligned ring_size packet_length r
      → count ring_size r ≡ 0
      → Announced now first second r k.ring
      → first ≢ 0
      → (rest : List ℕ) × (typed k s ≡ dispatched (first ∷ second ∷ rest) s)
  typed-one now first second r k s v a empty n some_key =
      let (rest, is) = announced_packet n.packet first second n.padded n.first_byte n.second_byte in
      let d = keyboard_loop-Drained dispatched k s v in
      let before =
        nil_of_length (contents r) (omega (arith, count-eq-length ring_size r a.valid)) in
      let stored : contents k.ring ≡ n.packet = ground (arith, n.published, before, empty) in
      let one =
        single_packet packet_length d.packets n.packet (omega arith) n.padded d.sizes
          (sym stored ∙ d.stored) in
      (
        rest,
        d.handled
            ∙ ap (foldl (λ t q. if get_or q 0 0 != 0 then dispatched q t else t) s)
                (one ∙ ap (λ q. q ∷ []) is)
            ∙ ground (arith, some_key),
      )

  -- From an empty ring that stays as it is, it dispatches nothing.
  typed-none : (k : Keyboard) (s : Typist) → count ring_size k.ring ≡ 0 → typed k s ≡ s
  unfolding packet_ready_loop drain
  typed-none k s empty =
      ap
        (λ n.
          (drain ring_size packet_length
            (λ packet t. if get_or packet 0 0 != 0 then dispatched packet t else t) n k.ring s).1)
        empty

-- The modifier state after the interrupt routine and the work loop.
typed-modifiers :
    (uptime : ℕ → ℕ) (w : World) (c : Settings) (x : ℕ) (k : Keyboard) (s : Typist)
    → IsValid k
    → count ring_size k.ring ≡ 0
    → IsCode x k
    → uptime k.clock_reads < 2 ^ 64
    → IsTable c.ps2_flags
    → (typed w c (interrupt_occurred uptime x k).1 s).modifier_state ≡ (
        if is_ready (interrupt_occurred uptime x k).0
        then (track_modifiers
            (get_or c.ps2_flags (raw_key k.extend_count x) 0)
            (bit_and x sc_up_bit == 0)
            s).modifier_state
        else s.modifier_state)
typed-modifiers uptime w c x k s v empty code time table =
    let k' = (interrupt_occurred uptime x k).1 in
    let ring = interrupt-ring uptime x k code in
    let now = uptime k.clock_reads in
    elim (Bool-cases (is_ready (interrupt_occurred uptime x k).0)) [
      | inl e ↦
          let at =
            ring ∙ ap (λ b. if b then publish now (k.extend_count + 1) x k.ring else k.ring) e in
          let (rest, one) =
            typed-one w c now (k.extend_count + 1) x k.ring k' s
              (interrupt_occurred-Keeps uptime x k v) v.aligned empty
              (subst (Announced now (k.extend_count + 1) x k.ring) (sym at)
                (publish-Announced now (k.extend_count + 1) x k.ring v.aligned time))
              (λ z. absurd (omega arith)) in
          ground (
            arith,
            e,
            ap (λ (t : Typist). t.modifier_state) one,
            dispatch_packet-modifiers w c k.extend_count x rest s code.extended table,
          )
      | inr e ↦
          let at =
            ring ∙ ap (λ b. if b then publish now (k.extend_count + 1) x k.ring else k.ring) e in
          ground (
            arith,
            e,
            ap (λ (t : Typist). t.modifier_state)
                (typed-none w c k' s (ap (count ring_size) at ∙ empty)),
          )
    ]

-- From a valid state with an empty ring and a clock below 2 ^ 64, when a scan code of at most two bytes
-- ends and the work loop then dispatches what the interrupt routine wrote into the ring, with no macros to
-- invert, the bit of each modifier still says whether the modifier's key is down, if it did so before, the
-- two have the same table of flags, and the table gives a number from 1 to 16 to one key each, and none to
-- keys without break codes, the LANG keys and the header of PrintScreen.
pub typed-IsTracked :
    (uptime : ℕ → ℕ) (w : World) (c : Settings) (x : ℕ) (k : Keyboard) (s : Typist)
    → IsValid k
    → count ring_size k.ring ≡ 0
    → IsCode x k
    → uptime k.clock_reads < 2 ^ 64
    → IsTable c.ps2_flags
    → k.ps2_flags ≡ c.ps2_flags
    → IsTracked c.ps2_flags k.key_bit_vector s.modifier_state
    → IsTracked c.ps2_flags
        (interrupt_occurred uptime x k).1.key_bit_vector
        (typed w c (interrupt_occurred uptime x k).1 s).modifier_state
typed-IsTracked uptime w c x k s v empty code time table same tracked key n =
    let raw = raw_key k.extend_count x in
    let flags = get_or c.ps2_flags raw 0 in
    let down = bit_and x sc_up_bit == 0 in
    let k' = (interrupt_occurred uptime x k).1 in
    let flags_of : get_or k.ps2_flags raw 0 ≡ flags = ap (λ f. get_or f raw 0) same in
    let sent = typed-modifiers uptime w c x k s v empty code time table in
    elim (Bool-cases (bit_and flags breakless_key == 0)) [
      | inl b ↦ ground (
        arith,
        b,
        tracked key n,
        sent,
        table.number raw,
        track_modifiers-bit flags (modifier c.ps2_flags key - 1) down s (table.number raw)
            (omega (arith, table.number key)),
        table.distinct key raw n,
        ap (modifier c.ps2_flags) {x = key} {y = raw},
        interrupt-held uptime x key k code v.units (ground (arith, b, flags_of)),
        ap (λ u. is_key_down u k.key_bit_vector) {x = key} {y = raw},
      )
      | inr b ↦ ground (
        arith,
        b,
        tracked key n,
        sent,
        table.breakless raw (ground (arith, b)),
        no_number flags down s,
        interrupt-breakless uptime x k code (ground (arith, b, flags_of)),
      )
    ]
