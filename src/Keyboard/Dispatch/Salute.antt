-- ===== src/Keyboard/Dispatch/Salute.antt =====
-- The power key, which Ctrl+Alt+Delete stands for: "If OS X thinks the Command and Control keys are
-- down at the time of receiving an ADB 0x7f (power button), it will unconditionaly and unsafely reboot
-- the computer".
pub mod Packets
use os_x_voodoo_ps2_controll.Base.{
  ℕ, ◌+◌, ◌-◌, ◌%◌, ◌≡◌, ◌≢◌, ◌∙◌, ap, arith, Bool, true, false, not, ◌&&◌, ◌||◌, List, [], ◌∷◌,
  ◌==◌, if◌then◌else◌, bit_and, get_or, Bool-cases, Option-cases, inl, inr,
}
use os_x_voodoo_ps2_controll.Device.{sc_up_bit}
use os_x_voodoo_ps2_controll.Keyboard.{is_key_down}
use os_x_voodoo_ps2_controll.Keyboard.Events.{
  Method, kbqc, kbcm, kkqc, kkcm, Effect, key_event, evaluate_object, sleep_now,
  set_disable_touchpad, notify_key_pressed, set_fkey_mode, timer_sleep, timer_eject, Typist,
  Settings, World, check_modifier_state, mask_left_windows, track_modifiers, on_sleep_eject_timer,
}
use os_x_voodoo_ps2_controll.Keyboard.Macros.{packet_time}
use os_x_voodoo_ps2_controll.Keyboard.Levels.{modify_level}
use os_x_voodoo_ps2_controll.Keyboard.Dispatch.{
  call_back_acpi, dispatch_held, hack_keys, press_brightness, keypad_sign, delete_key, sleep_key,
  fnkeys_toggle, touchpad_toggle, special_key, eject_key, special_adb, tap_key, caps_lock,
  dispatch_to_hid, finish_key, dispatch_key, dispatch_packet,
}

abbrev is_release : ℕ → List Effect → Bool
is_release code [] = false
is_release code (key_event x down now ∷ es) = x == code && not down
is_release code (evaluate_object method x ∷ es) = false
is_release code (sleep_now ∷ es) = false
is_release code (set_disable_touchpad x ∷ es) = false
is_release code (notify_key_pressed info ∷ es) = false
is_release code (set_fkey_mode x ∷ es) = false

abbrev behind : List Effect → List Effect
behind [] = []
behind (e ∷ es) = es

-- A press of the power key comes directly after the release of Command (0x37) and that of Control
-- (0x3b).
abbrev pub is_guarded : Effect → List Effect → Bool
is_guarded (key_event code down now) es =
    not (code == 0x7f && down) || is_release 0x3b es && is_release 0x37 (behind es)
is_guarded (evaluate_object method x) es = true
is_guarded sleep_now es = true
is_guarded (set_disable_touchpad x) es = true
is_guarded (notify_key_pressed info) es = true
is_guarded (set_fkey_mode x) es = true

pub data IsGuarded : List Effect → Type 0 where
  nothing : IsGuarded []
  next :
      (e : Effect) (es : List Effect) → is_guarded e es ≡ true → IsGuarded es → IsGuarded (e ∷ es)

-- The code e05e alone gives the power key.
abbrev pub IsOnlyPower : Settings → Type 0
IsOnlyPower c = (key : ℕ) → key ≢ 0x15e → get_or c.ps2_to_adb_map key 0 ≢ 0x7f

abbrev AllOther : List ℕ → Type 0
AllOther [] = Unit
AllOther (key ∷ keys) = (key ≢ 0x15e) × AllOther keys

module _ (w : World) where
  pub sleep_eject-guarded :
      (s : Typist) → IsGuarded s.effects → IsGuarded (on_sleep_eject_timer w s).effects
  unfolding on_sleep_eject_timer
  sleep_eject-guarded s g = grind (arith, next)

  pub modify_level-guarded :
      (query change : Method) (low : ℕ) (up down : Bool) (levels : List ℕ) (s : Typist)
      → IsGuarded s.effects
      → IsGuarded (modify_level w query change low up down levels s).effects
  unfolding modify_level
  modify_level-guarded query change low up down levels s g =
      elim (Option-cases (w.evaluate_integer query s.effects)) [
        | inl q ↦ rw (q, modify_level) g
        | inr (current, q) ↦ grind (arith, q, g, next)
      ]

  -- Another key, or a release.
  pub key-guarded :
      (code : ℕ) (down : Bool) (now : ℕ) (es : List Effect)
      → (code == 0x7f && down) ≡ false
      → IsGuarded es
      → IsGuarded (key_event code down now ∷ es)
  key-guarded code down now es h g = next _ _ (ground (arith, h)) g

  module _ (c : Settings) (others : IsOnlyPower c) where
    dispatch_held-guarded :
        (down : Bool) (now : ℕ) (keys : List ℕ) (s : Typist)
        → AllOther keys
        → IsGuarded s.effects
        → IsGuarded (dispatch_held w c down now keys s).effects
    unfolding dispatch_held
    dispatch_held-guarded down now [] s n g = g
    dispatch_held-guarded down now (key ∷ keys) s n g =
        let adb = get_or c.ps2_to_adb_map key 0 in
        elim (Bool-cases (is_key_down key c.key_bit_vector)) [
          | inl e ↦
              rw (e, dispatch_held)
                (dispatch_held-guarded down now keys _ n.1
                  (key-guarded adb down now s.effects (ground (arith, others key n.0)) g))
          | inr e ↦ rw (e, dispatch_held) (dispatch_held-guarded down now keys s n.1 g)
        ]

    hack_keys-AllOther : (s : Typist) → AllOther (hack_keys w c s)
    hack_keys-AllOther s = elim (Bool-cases (check_modifier_state mask_left_windows s)) [
      | inl e ↦ rw e (ground arith)
      | inr e ↦ rw e (ground arith)
    ]

    press_brightness-guarded :
        (key : ℕ) (down : Bool) (now : ℕ) (s : Typist)
        → IsGuarded s.effects
        → IsGuarded (press_brightness w c key down now s).effects
    unfolding press_brightness
    press_brightness-guarded key down now s g =
        dispatch_held-guarded true now (hack_keys w c s) _ (hack_keys-AllOther s) (
          key-guarded _ down now _ (ground arith)
            (dispatch_held-guarded false now (hack_keys w c s) s (hack_keys-AllOther s) g))

    keypad_sign-guarded :
        (key : ℕ) (down : Bool) (now : ℕ) (s : Typist)
        → IsGuarded s.effects
        → IsGuarded (keypad_sign w c key down now s).1.effects
    unfolding keypad_sign
    keypad_sign-guarded key down now s g = elim (Option-cases c.backlight_levels) [
      | inl e ↦ grind (arith, e, g, press_brightness-guarded key down now s g)
      | inr (levels, e) ↦ grind (
        arith,
        e,
        g,
        press_brightness-guarded key down now s g,
        modify_level-guarded kkqc kkcm 0 (key == 0x4e) down levels s g,
      )
    ]

    delete_key-guarded :
        (key : ℕ) (down : Bool) (now : ℕ) (s : Typist)
        → IsGuarded s.effects
        → IsGuarded (delete_key w c key down now s).1.effects
    unfolding delete_key
    delete_key-guarded key down now s g = grind (arith, g, next)

    pub special_key-guarded :
        (key : ℕ) (down : Bool) (now : ℕ) (s : Typist)
        → IsGuarded s.effects
        → IsGuarded (special_key w c key down now s).1.effects
    unfolding special_key sleep_key touchpad_toggle fnkeys_toggle
    special_key-guarded key down now s g = grind (
      arith,
      g,
      keypad_sign-guarded key down now s g,
      delete_key-guarded key down now s g,
      sleep_eject-guarded (record s { timer_func = timer_sleep }) g,
      next,
    )
