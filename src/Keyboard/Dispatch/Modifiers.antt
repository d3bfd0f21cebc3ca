-- ===== src/Keyboard/Dispatch/Modifiers.antt =====
-- `_PS2modifierState` under dispatchKeyboardEventWithPacket: the keys that are modifiers set and clear
-- their bits, and nothing else does.
use os_x_voodoo_ps2_controll.Base.{
  ℕ, ◌≡◌, ◌∙◌, refl, arith, Bool, true, false, List, [], ◌∷◌, ◌==◌, if◌then◌else◌, get_or,
  Option-cases, inl, inr,
}
use os_x_voodoo_ps2_controll.Keyboard.Events.{
  Method, kbqc, kbcm, kkqc, kkcm, dispatch_keyboard_event, Typist, Settings, World, timer_sleep,
  timer_eject, track_modifiers, on_sleep_eject_timer,
}
use os_x_voodoo_ps2_controll.Keyboard.Levels.{modify_level}
use os_x_voodoo_ps2_controll.Keyboard.Dispatch.{
  call_back_acpi, dispatch_held, hack_keys, press_brightness, keypad_sign, delete_key, sleep_key,
  fnkeys_toggle, touchpad_toggle, special_key, eject_key, special_adb, caps_lock, dispatch_to_hid,
  finish_key, dispatch_key,
}

sleep_eject-modifiers :
    (w : World) (s : Typist) → (on_sleep_eject_timer w s).modifier_state ≡ s.modifier_state
unfolding on_sleep_eject_timer
sleep_eject-modifiers w s = ground arith

modify_level-modifiers :
    (w : World) (query change : Method) (low : ℕ) (up down : Bool) (levels : List ℕ) (s : Typist)
    → (modify_level w query change low up down levels s).modifier_state ≡ s.modifier_state
unfolding modify_level
modify_level-modifiers w query change low up down levels s =
    elim (Option-cases (w.evaluate_integer query s.effects)) [
      | inl q ↦ ground (arith, q)
      | inr (current, q) ↦ ground (arith, q)
    ]

module _ (w : World) (c : Settings) where
  dispatch_held-modifiers :
      (down : Bool) (now : ℕ) (keys : List ℕ) (s : Typist)
      → (dispatch_held w c down now keys s).modifier_state ≡ s.modifier_state
  unfolding dispatch_held
  dispatch_held-modifiers down now [] s = refl
  dispatch_held-modifiers down now (key ∷ keys) s = ground (
    arith,
    dispatch_held-modifiers down now keys s,
    dispatch_held-modifiers down now keys
        (dispatch_keyboard_event (get_or c.ps2_to_adb_map key 0) down now s),
  )

  press_brightness-modifiers :
      (key : ℕ) (down : Bool) (now : ℕ) (s : Typist)
      → (press_brightness w c key down now s).modifier_state ≡ s.modifier_state
  unfolding press_brightness
  press_brightness-modifiers key down now s =
      let released = dispatch_held w c false now (hack_keys w c s) s in
      dispatch_held-modifiers true now (hack_keys w c s)
        (dispatch_keyboard_event (if key == 0x4e then 0x90 else 0x91) down now released)
      ∙ dispatch_held-modifiers false now (hack_keys w c s) s

  keypad_sign-modifiers :
      (key : ℕ) (down : Bool) (now : ℕ) (s : Typist)
      → (keypad_sign w c key down now s).1.modifier_state ≡ s.modifier_state
  unfolding keypad_sign
  keypad_sign-modifiers key down now s = elim (Option-cases c.backlight_levels) [
    | inl e ↦ ground (arith, e, press_brightness-modifiers key down now s)
    | inr (levels, e) ↦ ground (
      arith,
      e,
      press_brightness-modifiers key down now s,
      modify_level-modifiers w kkqc kkcm 0 (key == 0x4e) down levels s,
    )
  ]

  special_key-modifiers :
      (key : ℕ) (down : Bool) (now : ℕ) (s : Typist)
      → (special_key w c key down now s).1.modifier_state ≡ s.modifier_state
  unfolding special_key delete_key sleep_key touchpad_toggle fnkeys_toggle
  special_key-modifiers key down now s = ground (
    arith,
    keypad_sign-modifiers key down now s,
    sleep_eject-modifiers w (record s { timer_func = timer_sleep }),
  )

  special_adb-modifiers :
      (adb : ℕ) (down : Bool) (s : Typist)
      → (special_adb w c adb down s).2.modifier_state ≡ s.modifier_state
  unfolding special_adb eject_key
  special_adb-modifiers adb down s = elim (Option-cases c.brightness_levels) [
    | inl e ↦ ground (arith, e, sleep_eject-modifiers w (record s { timer_func = timer_eject }))
    | inr (levels, e) ↦ ground (
      arith,
      e,
      sleep_eject-modifiers w (record s { timer_func = timer_eject }),
      modify_level-modifiers w kbqc kbcm 2 (adb == 0x90) down levels s,
    )
  ]

  finish_key-modifiers :
      (flags key adb : ℕ) (eat down : Bool) (now : ℕ) (s : Typist)
      → (finish_key w c flags key adb eat down now s).modifier_state ≡ s.modifier_state
  unfolding finish_key caps_lock dispatch_to_hid
  finish_key-modifiers flags key adb eat down now s = ground arith

  -- Of all that a key does, only the tracking of the modifiers changes `_PS2modifierState`.
  pub dispatch_key-modifiers :
      (raw : ℕ) (down : Bool) (now : ℕ) (s : Typist)
      → (dispatch_key w c raw down now s).modifier_state
        ≡ (track_modifiers (get_or c.ps2_flags raw 0) down s).modifier_state
  unfolding dispatch_key call_back_acpi
  dispatch_key-modifiers raw down now s =
      let key = get_or c.ps2_to_ps2_map raw 0 in
      let t = call_back_acpi w c key down (track_modifiers (get_or c.ps2_flags raw 0) down s) in
      let (key', u) = special_key w c key down now t in
      let (adb, eat, v) = special_adb w c (get_or c.ps2_to_adb_map key' 0) down u in
      finish_key-modifiers (get_or c.ps2_flags raw 0) key' adb eat down now v
      ∙ special_adb-modifiers (get_or c.ps2_to_adb_map key' 0) down u
      ∙ special_key-modifiers key down now t
      ∙ ground arith
