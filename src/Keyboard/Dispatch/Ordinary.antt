-- ===== src/Keyboard/Dispatch/Ordinary.antt =====
-- What the HID system gets of a key that has no special meaning: one press and one release.
use os_x_voodoo_ps2_controll.Base.{
  ℕ, ◌≡◌, arith, Bool, true, false, not, ◌&&◌, ◌||◌, List, [], ◌∷◌, leb, ◌==◌, ◌!=◌, if◌then◌else◌,
  bit_and, get_or,
}
use os_x_voodoo_ps2_controll.Device.{KeyInfo}
use os_x_voodoo_ps2_controll.Keyboard.{breakless_key}
use os_x_voodoo_ps2_controll.Keyboard.Events.{
  Effect, key_event, evaluate_object, sleep_now, set_disable_touchpad, notify_key_pressed,
  set_fkey_mode, Typist, Settings, World, track_modifiers,
}
use os_x_voodoo_ps2_controll.Keyboard.Dispatch.{
  call_back_acpi, special_key, special_adb, finish_key, dispatch_to_hid, dispatch_key,
}

-- The key codes with a special case, or a callback.
abbrev pub is_special_key : ℕ → Bool
is_special_key key =
    key == 0x4e
    || key == 0x4a
    || key == 0x0153
    || key == 0x015f
    || key == 0x0128
    || key == 0x0137
    || key == 0x0127
    || leb 0x01f0 key && leb key 0x01ff

-- The ADB codes with a special case: brightness, eject and caps lock.
abbrev pub is_special_adb : ℕ → Bool
is_special_adb adb = adb == 0x90 || adb == 0x91 || adb == 0x92 || adb == 0x39

-- A key, by its raw code, that is typed as its ADB code.
abbrev pub is_ordinary : Settings → ℕ → Bool
is_ordinary c raw =
    let key = get_or c.ps2_to_ps2_map raw 0 in
    key != 0 && not (is_special_key key) && not (is_special_adb (get_or c.ps2_to_adb_map key 0))

abbrev pub adb_code : Settings → ℕ → ℕ
adb_code c raw = get_or c.ps2_to_adb_map (get_or c.ps2_to_ps2_map raw 0) 0

abbrev pub key_info : World → Settings → ℕ → Bool → ℕ → KeyInfo
key_info w c raw down now = record {
  time = w.kernel.to_ns now;
  adb_key_code = adb_code c raw;
  going_down = down;
  eat_key = false;
}

-- The events of the HID system among the effects.
unfoldable pub key_events : List Effect → List Effect
key_events [] = []
key_events (key_event code down now ∷ es) = key_event code down now ∷ key_events es
key_events (evaluate_object method x ∷ es) = key_events es
key_events (sleep_now ∷ es) = key_events es
key_events (set_disable_touchpad x ∷ es) = key_events es
key_events (notify_key_pressed info ∷ es) = key_events es
key_events (set_fkey_mode x ∷ es) = key_events es

-- An ordinary key is made known to the drivers, with its ADB code and time, and then goes to the HID
-- system unless a driver eats it.
pub dispatch_key-ordinary :
    (w : World) (c : Settings) (raw now : ℕ) (down : Bool) (s : Typist)
    → is_ordinary c raw ≡ true
    → let t = track_modifiers (get_or c.ps2_flags raw 0) down s in
      let info = key_info w c raw down now in
      let heard : Typist = record t { effects = notify_key_pressed info ∷ t.effects } in
      dispatch_key w c raw down now s ≡ (
        if w.eats_key info t.effects
        then heard
        else dispatch_to_hid w c (get_or c.ps2_flags raw 0) (adb_code c raw) down now heard)
unfolding dispatch_key call_back_acpi special_key special_adb finish_key
dispatch_key-ordinary w c raw now down s o = ground (arith, o)

pub track_modifiers-effects :
    (flags : ℕ) (down : Bool) (s : Typist) → (track_modifiers flags down s).effects ≡ s.effects
unfolding track_modifiers
track_modifiers-effects flags down s = ground arith

-- Of an ordinary key that is pressed and let go, and that no driver eats, the HID system gets one
-- press, with the time of the make, and then one release: with the time of the break, or with that of
-- the make if the flags say that the key makes no break codes.
pub press-release :
    (w : World) (c : Settings) (raw made broken : ℕ) (s : Typist)
    → is_ordinary c raw ≡ true
    → ((info : KeyInfo) (es : List Effect) → w.eats_key info es ≡ false)
    → key_events (dispatch_key w c raw false broken (dispatch_key w c raw true made s)).effects
      ≡ key_event
          (adb_code c raw)
          false
          (if bit_and (get_or c.ps2_flags raw 0) breakless_key != 0 then made else broken)
        ∷ key_event (adb_code c raw) true made
        ∷ key_events s.effects
unfolding key_events dispatch_to_hid
press-release w c raw made broken s o eats =
    let t = dispatch_key w c raw true made s in
    ground (
      arith,
      dispatch_key-ordinary w c raw made true s o,
      dispatch_key-ordinary w c raw broken false t o,
      track_modifiers-effects (get_or c.ps2_flags raw 0) true s,
      track_modifiers-effects (get_or c.ps2_flags raw 0) false t,
      eats (key_info w c raw true made) (track_modifiers (get_or c.ps2_flags raw 0) true s).effects,
      eats (key_info w c raw false broken)
          (track_modifiers (get_or c.ps2_flags raw 0) false t).effects,
    )
