-- ===== src/Trackpad/Gestures/Messages/Typing.antt =====
-- Touches that are ignored while somebody types.
use os_x_voodoo_ps2_controll.Base.{◌≡◌, arith, Bool, true, false, ◌&&◌, ◌||◌, List, ltb, sub_u64}
use os_x_voodoo_ps2_controll.Base.{◌∙◌, ap, sym, ◌==◌}
use mathlib.Core.Path.{subst}
use os_x_voodoo_ps2_controll.Trackpad.Gestures.Parse.{width_of}
use os_x_voodoo_ps2_controll.Trackpad.Gestures.Dispatch.{dispatch_events}
use os_x_voodoo_ps2_controll.Trackpad.Gestures.Dispatch.Before.{
  before_filters, before_filters_lem, before_filters-Same,
}
use os_x_voodoo_ps2_controll.Trackpad.Gestures.Dispatch.Kept.{Same}
use os_x_voodoo_ps2_controll.Base.Int.{ltb_ℤ}
use os_x_voodoo_ps2_controll.Base.{ℕ}
use os_x_voodoo_ps2_controll.Device.{KeyInfo}
use os_x_voodoo_ps2_controll.Keyboard.Events.{notify_key_pressed}
use os_x_voodoo_ps2_controll.Trackpad.Gestures.{Options, Pad, Touch}
use os_x_voodoo_ps2_controll.Trackpad.Gestures.Calls.{above}
use os_x_voodoo_ps2_controll.Trackpad.Gestures.Zones.{is_outside_after_typing}
use os_x_voodoo_ps2_controll.Trackpad.Gestures.Dispatch.{filter_touch}
use os_x_voodoo_ps2_controll.Trackpad.Gestures.Messages.{is_modifier_key, notice_key, hear}

-- A touch outside the zone that is free for touches.
abbrev pub is_outside : Options → Touch → Bool
is_outside o t = ltb_ℤ t.x o.zonel || above t.x o.zoner || ltb_ℤ t.y o.zoneb || above t.y o.zonet

notice_key-time :
    (info : KeyInfo) (p : Pad)
    → (is_modifier_key info.adb_key_code && info.going_down) ≡ false
    → (hear (notify_key_pressed info) p).keytime ≡ info.time
unfolding hear notice_key
notice_key-time info p key = ground (arith, key)

filter_touch-outside :
    (o : Options) (t : Touch) (p : Pad)
    → is_outside_after_typing o t p ≡ true
    → filter_touch o t p ≡ p
unfolding filter_touch
filter_touch-outside o t p h = ground (arith, h)

-- Where the driver is set to ignore touches while typing, and the keyboard driver has told of a key,
-- other than the press of a modifier key, a packet of the trackpad within the time limit after that key,
-- of a finger that is outside the zone for touches once it has been tracked, starts no touch and ends
-- none, turns the trackpad neither on nor off, and neither moves the pointer nor scrolls, in any mode:
-- the pointer events that it may make only report buttons.
pub dispatch_events-ignored :
    (to_ns : ℕ → ℕ) (o : Options) (now : ℕ) (packet : List ℕ) (info : KeyInfo) (p : Pad)
    → o.outzone_wt ≡ true
    → (is_modifier_key info.adb_key_code && info.going_down) ≡ false
    → ltb (sub_u64 (to_ns now) info.time) o.maxaftertyping ≡ true
    → (o.passthru && width_of packet == 3) ≡ false
    → ltb o.z_finger (before_filters to_ns o now packet (hear (notify_key_pressed info) p)).0.z
      ≡ true
    → is_outside o (before_filters to_ns o now packet (hear (notify_key_pressed info) p)).0 ≡ true
    → Same
        (hear (notify_key_pressed info) p)
        (dispatch_events to_ns o now packet (hear (notify_key_pressed info) p))
unfolding is_outside_after_typing
dispatch_events-ignored to_ns o now packet info p on key soon own finger outside =
    let p' = hear (notify_key_pressed info) p in
    let (t, q) = before_filters to_ns o now packet p' in
    let same = before_filters-Same to_ns o now packet p' in
    let timely : ltb (sub_u64 t.now_ns q.keytime) o.maxaftertyping ≡ true =
      ap (λ n. ltb (sub_u64 n q.keytime) o.maxaftertyping) same.1
      ∙ ap (λ n. ltb (sub_u64 (to_ns now) n) o.maxaftertyping)
          (same.0.keys ∙ notice_key-time info p key)
      ∙ soon in
    subst (Same p')
      (sym (
        before_filters_lem to_ns o now packet p' own
        ∙ filter_touch-outside o t q (ground (arith, on, finger, timely, outside))))
      same.0
