-- ===== src/Keyboard/Dispatch.antt =====
-- dispatchKeyboardEventWithPacket, as it is built without DEBUG: the scan code of a packet becomes
-- events of the HID system, or one of the special actions.
pub mod Modifiers
pub mod Tracking
pub mod Salute
pub mod Ordinary
pub mod Stock
use os_x_voodoo_ps2_controll.Base.{
  ℕ, ◌+◌, ◌-◌, ◌*◌, ◌/◌, ◌%◌, ◌^◌, Bool, true, false, not, ◌&&◌, ◌||◌, Option, none, some, List, [],
  ◌∷◌, ltb, leb, ◌==◌, ◌!=◌, if◌then◌else◌, bit_and, bit_or, get_or,
}
use os_x_voodoo_ps2_controll.Device.{KeyInfo, sc_up_bit}
use os_x_voodoo_ps2_controll.Keyboard.{is_key_down, breakless_key}
use os_x_voodoo_ps2_controll.Keyboard.Macros.{packet_time}
use os_x_voodoo_ps2_controll.Keyboard.Tables.{dead_key}
use os_x_voodoo_ps2_controll.Keyboard.Events.{
  rka, evaluate_object, set_disable_touchpad, notify_key_pressed, set_fkey_mode, timer_sleep,
  timer_eject, Typist, Settings, World, perform, dispatch_keyboard_event,
  dispatch_keyboard_event_now, mask_left_control, mask_left_shift, mask_left_alt, mask_left_windows,
  check_modifier_state, track_modifiers, as_number, start_timer, cancel_timer,
}
use os_x_voodoo_ps2_controll.Keyboard.Levels.{modify_screen_brightness, modify_keyboard_backlight}

module _ (w : World) (c : Settings) where
  abbrev pub adb_of : ℕ → ℕ
  adb_of key = get_or c.ps2_to_adb_map key 0

  -- "codes e0f0 through e0ff can be used to call back into ACPI methods"
  unfoldable pub call_back_acpi : ℕ → Bool → Typist → Typist
  call_back_acpi key down s =
      if leb 0x01f0 key && leb key 0x01ff && c.has_provider && w.gives_number s.effects
      then perform (evaluate_object (rka (key - 0x01f0)) (as_number down)) s
      else s

  -- The keys of a list that are down, let go or pressed again.
  unfoldable pub dispatch_held : Bool → ℕ → List ℕ → Typist → Typist
  dispatch_held down now [] s = s
  dispatch_held down now (key ∷ keys) s = dispatch_held down now keys (
      if is_key_down key c.key_bit_vector
      then dispatch_keyboard_event (adb_of key) down now s
      else s)

  -- "if Option key is down don't pull up on the Shift keys"
  abbrev pub hack_keys : Typist → List ℕ
  hack_keys s = if check_modifier_state mask_left_windows s then 0x1d ∷ [] else 0x2a ∷ 0x1d ∷ []

  -- "Ctrl+Shift+NumPad(+/0) => manipulate brightness"
  unfoldable pub press_brightness : ℕ → Bool → ℕ → Typist → Typist
  press_brightness key down now s = dispatch_held true now (hack_keys s) (
      dispatch_keyboard_event (if key == 0x4e then 0x90 else 0x91) down now
        (dispatch_held false now (hack_keys s) s))

  abbrev pub hack_applies : Typist → Bool
  hack_applies s = c.brightness_hack && check_modifier_state (mask_left_control + mask_left_shift) s

  -- Numpad+ and Numpad-
  unfoldable pub keypad_sign : ℕ → Bool → ℕ → Typist → ℕ × Typist
  keypad_sign key down now s = elim c.backlight_levels [
    | none ↦ if hack_applies s then (0, press_brightness key down now s) else (key, s)
    | some levels ↦
        if check_modifier_state (mask_left_control + mask_left_alt) s
        then (0, modify_keyboard_backlight w key down levels s)
        else if hack_applies s
        then (0, press_brightness key down now s)
        else (key, s)
  ]

  -- "check for Ctrl+Alt+Delete? (three finger salute)"
  unfoldable pub delete_key : ℕ → Bool → ℕ → Typist → ℕ × Typist
  delete_key key down now s =
      if not (check_modifier_state (mask_left_control + mask_left_alt) s)
      then (key, s)
      else if down
      then (0, s)
      else (
        0,
        dispatch_keyboard_event 0x7f false now (
            dispatch_keyboard_event 0x7f true now
              (dispatch_keyboard_event 0x3b false now (dispatch_keyboard_event 0x37 false now s))),
      )

  unfoldable pub sleep_key : Bool → Typist → Typist
  sleep_key down s =
      if down
      then start_timer w (if c.fkeymode != 0 then 0 else c.maxsleeppresstime)
          (record s { timer_func = timer_sleep })
      else cancel_timer s

  -- "alternate for fnkeys toggle (discrete fnkeys toggle)"
  unfoldable pub fnkeys_toggle : Bool → Typist → Typist
  fnkeys_toggle down s =
      if down && c.fkeymodesupported && w.has_hid_system s.effects
      then perform (set_fkey_mode (as_number (c.fkeymode == 0))) s
      else s

  -- "discrete trackpad toggle", and "prt sc/sys rq", which falls through.
  unfoldable pub touchpad_toggle : ℕ → Bool → Typist → Typist
  touchpad_toggle key down s =
      if not down
      then s
      else if not (check_modifier_state mask_left_control s)
      then perform (set_disable_touchpad (not (w.touchpad_disabled s.effects))) s
      else if key == 0x0137
      then fnkeys_toggle down s
      else s

  -- The special cases of the key code: the code that is left, 0 for none.
  unfoldable pub special_key : ℕ → Bool → ℕ → Typist → ℕ × Typist
  special_key key down now s =
      if key == 0x4e || key == 0x4a
      then keypad_sign key down now s
      else if key == 0x0153
      then delete_key key down now s
      else if key == 0x015f
      then (0, sleep_key down s)
      else if key == 0x0128 || key == 0x0137
      then (0, touchpad_toggle key down s)
      else if key == 0x0127
      then (0, fnkeys_toggle down s)
      else (key, s)

  -- "eject": the code, and `eatKey`.
  unfoldable pub eject_key : Bool → Typist → ℕ × Bool × Typist
  eject_key down s =
      if s.modifier_state != 0
      then (0x92, false, s)
      else if down
      then (0x92, true, start_timer w c.f12ejectdelay (record s { timer_func = timer_eject }))
      else (0x92, false, cancel_timer s)

  -- The special cases of the ADB code.
  unfoldable pub special_adb : ℕ → Bool → Typist → ℕ × Bool × Typist
  special_adb adb down s =
      if adb == 0x90 || adb == 0x91
      then (elim c.brightness_levels [
        | none ↦ (adb, false, s)
        | some levels ↦ (dead_key, false, modify_screen_brightness w adb down levels s)
      ])
      else if adb == 0x92
      then eject_key down s
      else (adb, false, s)

  -- "work around for caps lock bug on Sierra 10.12..."
  abbrev pub tap_key : ℕ → Typist → Typist
  tap_key adb s = dispatch_keyboard_event_now w adb false (dispatch_keyboard_event_now w adb true s)

  unfoldable pub caps_lock : ℕ → Bool → Typist → Typist
  caps_lock adb down s =
      let tapped = tap_key adb s in
      if not down then s else record (if s.caps_first_time then tapped else tap_key adb tapped) {
        caps_first_time = false;
      }

  -- "dispatch to HID system"
  unfoldable pub dispatch_to_hid : ℕ → ℕ → Bool → ℕ → Typist → Typist
  dispatch_to_hid flags adb down now s =
      let breakless = bit_and flags breakless_key != 0 in
      if not breakless
      then dispatch_keyboard_event adb down now s
      else if down
      then dispatch_keyboard_event adb false now (dispatch_keyboard_event adb true now s)
      else s

  -- From the time of last keyboard activity on: the drivers hear of the key, and may eat it.
  unfoldable pub finish_key : ℕ → ℕ → ℕ → Bool → Bool → ℕ → Typist → Typist
  finish_key flags key adb eat down now s =
      let info : KeyInfo = record {
        time = w.kernel.to_ns now;
        adb_key_code = adb;
        going_down = down;
        eat_key = eat;
      } in
      let s' = perform (notify_key_pressed info) s in
      if adb == 0x39 && leb 16 c.version_major
      then caps_lock adb down s'
      else if key != 0 && not (w.eats_key info s.effects)
      then dispatch_to_hid flags adb down now s'
      else s'

  -- A key, by its raw code, from the tracking of the modifiers on.
  unfoldable pub dispatch_key : ℕ → Bool → ℕ → Typist → Typist
  dispatch_key raw down now s =
      let flags = get_or c.ps2_flags raw 0 in
      let key = get_or c.ps2_to_ps2_map raw 0 in
      let (key', s') =
        special_key key down now (call_back_acpi key down (track_modifiers flags down s)) in
      let (adb, eat, s'') = special_adb (adb_of key') down s' in
      finish_key flags key' adb eat down now s''

  -- LANG1 and LANG2 "make one event only when the key was pressed".
  abbrev pub lang_key : ℕ → Typist → Typist
  lang_key scan s = tap_key (adb_of scan) s

  -- The result is whether a key event was dispatched.
  unfoldable pub dispatch_packet : List ℕ → Typist → Bool × Typist
  dispatch_packet packet s =
      let extended = (get_or packet 0 0 + 255) % 256 in
      let scan = get_or packet 1 0 in
      let code = bit_and scan (255 - sc_up_bit) in
      let down = bit_and scan sc_up_bit == 0 in
      let now = packet_time packet in
      if extended == 0
      then (if scan == 0xf2 || scan == 0xf1
          then (true, lang_key scan s)
          else (true, dispatch_key code down now s))
      else if code == 0x2a
      then (false, s)
      else (true, dispatch_key (code + 256) down now s)
