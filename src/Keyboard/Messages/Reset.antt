-- ===== src/Keyboard/Messages/Reset.antt =====
-- initKeyboard: the keys that are down when the keyboard is reset.
use os_x_voodoo_ps2_controll.Base.{
  ℕ, zero, suc, ◌+◌, ◌-◌, ◌/◌, ◌%◌, ◌^◌, ◌<◌, ◌≡◌, ap, refl, arith, Bool, true, false, not, ◌&&◌,
  ◌||◌, List, [], ◌∷◌, ltb, ◌==◌, ◌!=◌, if◌then◌else◌, bit_and, bit_or, get_or, Bool-cases, inl,
  inr, replicate,
}
use os_x_voodoo_ps2_controll.Base.Bytes.{every_below, every-test, none-bit_and}
use os_x_voodoo_ps2_controll.Device.{KeyInfo, sc_up_bit}
use os_x_voodoo_ps2_controll.Keyboard.{Keyboard, breakless_key, is_key_down, ring_size}
use os_x_voodoo_ps2_controll.Ring.{count, reset, span}
use os_x_voodoo_ps2_controll.Keyboard.Macros.{packet_time}
use os_x_voodoo_ps2_controll.Keyboard.Events.{
  Effect, key_event, Typist, Settings, World, track_modifiers,
}
use os_x_voodoo_ps2_controll.Keyboard.Dispatch.{dispatch_to_hid, dispatch_key, dispatch_packet}
use os_x_voodoo_ps2_controll.Keyboard.Dispatch.Ordinary.{
  is_ordinary, adb_code, key_info, key_events, dispatch_key-ordinary, track_modifiers-effects,
}
use os_x_voodoo_ps2_controll.Keyboard.Messages.{with_keyboard, release_keys, init_keyboard}

-- A raw key code that a packet can have, outside the LANG keys and the header of PrintScreen.
abbrev pub is_plain : ℕ → Bool
is_plain key = ltb (key % 256) 128 && not (key == 0x71 || key == 0x72 || key == 0x12a)

abbrev pub break_code : ℕ → ℕ
break_code key = bit_or key sc_up_bit % 256

abbrev break_test : ℕ → Bool
break_test key =
    let x = break_code key in
    not (is_plain key)
    || bit_and x (255 - sc_up_bit) == key % 256
      && bit_and x sc_up_bit != 0
      && (not (ltb key 256) || x != 0xf1 && x != 0xf2)

break_table : every_below 512 break_test ≡ true
unfolding every_below
break_table = refl

-- The keys that are down, among the `n` keys from `key` on.
pub held_keys : List ℕ → ℕ → ℕ → List ℕ
held_keys units zero key = []
held_keys units (suc n) key =
    let rest = held_keys units n (key + 1) in if is_key_down key units then key ∷ rest else rest

-- A release of each key of a list, in order, at one time; the newest event comes first.
pub released : Settings → ℕ → List ℕ → List Effect → List Effect
released c now [] es = es
released c now (key ∷ keys) es = released c now keys (key_event (adb_code c key) false now ∷ es)

-- The keys that are down are ordinary keys with break codes, and ones that a packet can name.
abbrev pub AllReleasable : Settings → Type 0
AllReleasable c =
    (key : ℕ)
    → is_key_down key c.key_bit_vector ≡ true
    → (is_plain key && is_ordinary c key && bit_and (get_or c.ps2_flags key 0) breakless_key == 0)
      ≡ true

abbrev pub unset_time : List ℕ → ℕ
unset_time unset = packet_time (0 ∷ 0 ∷ unset)

module _ (w : World) (c : Settings) (unset : List ℕ) where
  -- The packet of a key that is down is the break of that key.
  pub break-key :
      (key : ℕ) (s : Typist)
      → key < 512
      → is_plain key ≡ true
      → (dispatch_packet w c ((if ltb key 256 then 1 else 2) ∷ break_code key ∷ unset) s).1
        ≡ dispatch_key w c key false (unset_time unset) s
  unfolding dispatch_packet
  break-key key s h p = ground (
    arith,
    p,
    every-test break_test 512 key h break_table,
    ap (λ y. dispatch_key w c y false (unset_time unset) s) {x = key % 256} {y = key},
    ap (λ y. dispatch_key w c y false (unset_time unset) s) {x = key % 256 + 256} {y = key},
  )

  module _ (eats : (info : KeyInfo) (es : List Effect) → w.eats_key info es ≡ false) where
    break-events :
        (key : ℕ) (s : Typist)
        → is_ordinary c key ≡ true
        → bit_and (get_or c.ps2_flags key 0) breakless_key ≡ 0
        → key_events (dispatch_key w c key false (unset_time unset) s).effects
          ≡ key_event (adb_code c key) false (unset_time unset) ∷ key_events s.effects
    unfolding key_events dispatch_to_hid
    break-events key s o b = ground (
      arith,
      b,
      dispatch_key-ordinary w c key (unset_time unset) false s o,
      track_modifiers-effects (get_or c.ps2_flags key 0) false s,
      eats (key_info w c key false (unset_time unset))
          (track_modifiers (get_or c.ps2_flags key 0) false s).effects,
    )

    release-events :
        (left key : ℕ) (s : Typist)
        → AllReleasable c
        → key + left ≡ 512
        → key_events (release_keys w c unset left key s).effects
          ≡ released c
              (unset_time unset)
              (held_keys c.key_bit_vector left key)
              (key_events s.effects)
    unfolding release_keys held_keys released
    release-events zero key s all h = refl
    release-events (suc left) key s all h = elim (Bool-cases (is_key_down key c.key_bit_vector)) [
      | inl e ↦
          let t = dispatch_key w c key false (unset_time unset) s in
          ground (
            arith,
            e,
            all key e,
            break-key key s (omega arith) (ground (arith, all key e)),
            break-events key s (ground (arith, all key e)) (ground (arith, all key e)),
            release-events left (key + 1) t all (omega arith),
          )
      | inr e ↦ ground (arith, e, release-events left (key + 1) s all (omega arith))
    ]

none_set : (i n : ℕ) → get_or {A = ℕ} (replicate n 0) i 0 ≡ 0
none_set i zero = refl
none_set zero (suc n) = refl
none_set (suc i) (suc n) = none_set i n

pub all_up : (key : ℕ) → is_key_down key (replicate 16 0) ≡ false
all_up key = ground (arith, none_set (key / 32) 16, none-bit_and (2 ^ (key % 32)))

-- A reset of the keyboard, when the keys that are down are ordinary keys and no driver eats one, gives
-- the HID system one release for each key that is down, in the order of the codes, at the time that
-- stands in the packet, which the code does not set. Then no key is down, no modifier is, no packet
-- is stored and no prefix is awaited.
pub init_keyboard_lem :
    (w : World) (c : Settings) (unset : List ℕ) (k : Keyboard) (s : Typist)
    → ((info : KeyInfo) (es : List Effect) → w.eats_key info es ≡ false)
    → AllReleasable (with_keyboard c k)
    → let (k', s') = init_keyboard w c unset (k, s) in
      (key_events s'.effects
        ≡ released
            (with_keyboard c k)
            (unset_time unset)
            (held_keys k.key_bit_vector 512 0)
            (key_events s.effects))
      × (s'.modifier_state ≡ 0)
      × ((key : ℕ) → is_key_down key k'.key_bit_vector ≡ false)
      × (count ring_size k'.ring ≡ 0)
      × (k'.extend_count ≡ 0)
unfolding init_keyboard reset count span
init_keyboard_lem w c unset k s eats all = (
  release-events w (with_keyboard c k) unset eats 512 0 s all (omega arith),
  refl,
  all_up,
  refl,
  refl,
)
