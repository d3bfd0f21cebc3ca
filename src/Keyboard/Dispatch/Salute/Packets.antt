-- ===== src/Keyboard/Dispatch/Salute/Packets.antt =====
-- The power key in the rest of a packet: the special ADB codes, and what goes to the HID system.
use os_x_voodoo_ps2_controll.Base.{
  ℕ, ◌+◌, ◌-◌, ◌%◌, ◌≢◌, ◌∙◌, ap, arith, Bool, true, false, ◌||◌, List, ◌==◌, if◌then◌else◌,
  bit_and, get_or, Bool-cases, Option-cases, inl, inr,
}
use os_x_voodoo_ps2_controll.Device.{sc_up_bit}
use os_x_voodoo_ps2_controll.Keyboard.Events.{
  kbqc, kbcm, timer_eject, Typist, Settings, World, track_modifiers,
}
use os_x_voodoo_ps2_controll.Keyboard.Macros.{packet_time}
use os_x_voodoo_ps2_controll.Keyboard.Dispatch.{
  call_back_acpi, keypad_sign, delete_key, special_key, eject_key, special_adb, tap_key, caps_lock,
  dispatch_to_hid, finish_key, dispatch_key, dispatch_packet,
}
use os_x_voodoo_ps2_controll.Keyboard.Dispatch.Salute.{
  IsGuarded, next, IsOnlyPower, sleep_eject-guarded, modify_level-guarded, key-guarded,
  special_key-guarded,
}

module _ (w : World) (c : Settings) (others : IsOnlyPower c) where
  -- The code that is left is the key's own or none.
  special_key-code :
      (key : ℕ) (down : Bool) (now : ℕ) (s : Typist)
      → key ≢ 0x15e
      → (special_key w c key down now s).0 ≢ 0x15e
  unfolding special_key keypad_sign delete_key
  special_key-code key down now s n = elim (Option-cases c.backlight_levels) [
    | inl e ↦ ground (arith, e, n)
    | inr (levels, e) ↦ ground (arith, e, n)
  ]

  special_adb-guarded :
      (adb : ℕ) (down : Bool) (s : Typist)
      → adb ≢ 0x7f
      → IsGuarded s.effects
      → ((special_adb w c adb down s).0 ≢ 0x7f) × IsGuarded (special_adb w c adb down s).2.effects
  unfolding special_adb eject_key
  special_adb-guarded adb down s n g = elim (Option-cases c.brightness_levels) [
    | inl e ↦
        grind (arith, e, g, n, sleep_eject-guarded w (record s { timer_func = timer_eject }) g)
    | inr (levels, e) ↦ grind (
      arith,
      e,
      g,
      n,
      sleep_eject-guarded w (record s { timer_func = timer_eject }) g,
      modify_level-guarded w kbqc kbcm 2 (adb == 0x90) down levels s g,
    )
  ]

  finish_key-guarded :
      (flags key adb : ℕ) (eat down : Bool) (now : ℕ) (s : Typist)
      → adb ≢ 0x7f
      → IsGuarded s.effects
      → IsGuarded (finish_key w c flags key adb eat down now s).effects
  unfolding finish_key caps_lock dispatch_to_hid
  finish_key-guarded flags key adb eat down now s n g = grind (arith, g, n, next)

  call_back-guarded :
      (key raw : ℕ) (down : Bool) (s : Typist)
      → IsGuarded s.effects
      → IsGuarded
          (call_back_acpi w c key down (track_modifiers (get_or c.ps2_flags raw 0) down s)).effects
  unfolding call_back_acpi track_modifiers
  call_back-guarded key raw down s g = grind (arith, g, next)

  dispatch_key-guarded :
      (raw : ℕ) (down : Bool) (now : ℕ) (s : Typist)
      → get_or c.ps2_to_ps2_map raw 0 ≢ 0x15e
      → IsGuarded s.effects
      → IsGuarded (dispatch_key w c raw down now s).effects
  unfolding dispatch_key
  dispatch_key-guarded raw down now s n g =
      let key = get_or c.ps2_to_ps2_map raw 0 in
      let t = call_back_acpi w c key down (track_modifiers (get_or c.ps2_flags raw 0) down s) in
      let (key', u) = special_key w c key down now t in
      let u_guarded =
        special_key-guarded w c others key down now t (call_back-guarded key raw down s g) in
      let special =
        special_adb-guarded (get_or c.ps2_to_adb_map key' 0) down u
          (others key' (special_key-code key down now t n)) u_guarded in
      finish_key-guarded (get_or c.ps2_flags raw 0) key' _ _ down now _ special.0 special.1

  tap-guarded :
      (adb : ℕ) (s : Typist)
      → adb ≢ 0x7f
      → IsGuarded s.effects
      → IsGuarded (tap_key w c adb s).effects
  tap-guarded adb s n g =
      key-guarded w adb false _ _ (ground arith) (key-guarded w adb true _ _ (ground (arith, n)) g)

  -- The raw key of a packet.
  abbrev packet_key : List ℕ → ℕ
  packet_key packet =
      let code = bit_and (get_or packet 1 0) (255 - sc_up_bit) in
      if (get_or packet 0 0 + 255) % 256 == 0 then code else code + 256

  -- Whatever packet arrives, of a key that is not mapped to the power key, the HID system is told that
  -- the power key goes down only directly after it has been told that Control and, before that,
  -- Command have gone up, if it was so before and e05e is the only code of the power key.
  pub dispatch_packet-IsGuarded :
      (packet : List ℕ) (s : Typist)
      → get_or c.ps2_to_ps2_map (packet_key packet) 0 ≢ 0x15e
      → IsGuarded s.effects
      → IsGuarded (dispatch_packet w c packet s).1.effects
  unfolding dispatch_packet
  dispatch_packet-IsGuarded packet s n g =
      let scan = get_or packet 1 0 in
      let code = bit_and scan (255 - sc_up_bit) in
      let down = bit_and scan sc_up_bit == 0 in
      let now = packet_time packet in
      let map_of : ℕ → ℕ = λ key. get_or c.ps2_to_ps2_map key 0 in
      elim (Bool-cases ((get_or packet 0 0 + 255) % 256 == 0)) [
        | inl e ↦
            rw (e, dispatch_packet)
              (elim (Bool-cases (scan == 0xf2 || scan == 0xf1)) [
                | inl l ↦ rw l (tap-guarded _ s (others scan (ground (arith, l))) g)
                | inr l ↦ rw l (
                    dispatch_key-guarded code down now s
                      (λ z.
                        n (ap map_of {x = packet_key packet} {y = code} (ground (arith, e)) ∙ z))
                      g)
              ])
        | inr e ↦
            rw (e, dispatch_packet)
              (elim (Bool-cases (code == 0x2a)) [
                | inl l ↦ rw l g
                | inr l ↦ rw l (
                    dispatch_key-guarded (code + 256) down now s
                      (λ z. n (
                        ap map_of {x = packet_key packet} {y = code + 256} (ground (arith, e)) ∙ z))
                      g)
              ])
      ]
