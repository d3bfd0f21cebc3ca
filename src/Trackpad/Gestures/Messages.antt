-- ===== src/Trackpad/Gestures/Messages.antt =====
-- message of VoodooPS2Trackpad/VoodooPS2SynapticsTouchPad.cpp: what the trackpad does with the messages
-- that the keyboard driver sends.
pub mod Toggle
pub mod Typing
mod Tests
use os_x_voodoo_ps2_controll.Base.{
  ℕ, ◌-◌, Bool, not, ◌&&◌, ◌||◌, List, [], ◌∷◌, leb, ◌==◌, ◌!=◌, if◌then◌else◌, bit_and, bit_or,
  get_or,
}
use os_x_voodoo_ps2_controll.Base.Int.{pos}
use os_x_voodoo_ps2_controll.Device.{KeyInfo}
use os_x_voodoo_ps2_controll.Keyboard.Events.{
  Effect, key_event, evaluate_object, sleep_now, set_disable_touchpad, notify_key_pressed,
  set_fkey_mode,
}
use os_x_voodoo_ps2_controll.Trackpad.Gestures.{update_led, Pad}
use os_x_voodoo_ps2_controll.Trackpad.Gestures.Calls.{call}

-- kPS2M_getDisableTouchpad, which answers whether the trackpad is enabled.
abbrev pub get_disable_touchpad : Pad → Bool
get_disable_touchpad p = not p.ignoreall

abbrev same : Bool → Bool → Bool
same a b = if a then b else not b

-- kPS2M_setDisableTouchpad, whose argument is whether to enable it.
unfoldable pub set_enable : Bool → Pad → Pad
set_enable enable p =
    if same enable p.ignoreall
    then call (update_led (not enable)) (record p { ignoreall = not enable })
    else p

-- `masks`, from the ADB code 0x36 on.
abbrev pub masks : List ℕ
masks = 0x10 ∷ 0x100000 ∷ 0 ∷ 0 ∷ 0x080000 ∷ 0x040000 ∷ 0 ∷ 0x08 ∷ 0x04 ∷ 0x200000 ∷ []

-- The cases of the modifier keys.
abbrev pub is_modifier_key : ℕ → Bool
is_modifier_key adb = leb 0x36 adb && leb adb 0x3f && adb != 0x39

-- kPS2M_notifyKeyPressed
unfoldable pub notice_key : KeyInfo → Pad → Pad
notice_key info p =
    let mask = get_or masks (info.adb_key_code - 0x36) 0 in
    if not (is_modifier_key info.adb_key_code)
    then record p { momentumscrollcurrent = pos 0; keytime = info.time }
    else if info.going_down
    then record p { modifierdown = bit_or p.modifierdown mask }
    else record p {
      modifierdown = p.modifierdown - bit_and p.modifierdown mask;
      keytime = info.time;
    }

-- message, for a call that leaves the keyboard driver: those that are no messages do not reach it.
unfoldable pub hear : Effect → Pad → Pad
hear (set_disable_touchpad enable) p = set_enable enable p
hear (notify_key_pressed info) p = notice_key info p
hear (key_event code down time) p = p
hear (evaluate_object m n) p = p
hear sleep_now p = p
hear (set_fkey_mode n) p = p

-- All that the keyboard driver has sent, the newest first.
unfoldable pub heard : List Effect → Pad → Pad
heard [] p = p
heard (e ∷ es) p = hear e (heard es p)
