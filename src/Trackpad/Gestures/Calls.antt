-- ===== src/Trackpad/Gestures/Calls.antt =====
-- What the stages of dispatchEventsWithPacket share: its calls, its tests and its signed arithmetic.
use os_x_voodoo_ps2_controll.Base.{
  ℕ, ◌+◌, ◌%◌, Bool, not, ◌&&◌, ◌||◌, List, [], ◌∷◌, suc, ltb, ◌!=◌, if◌then◌else◌, bit_and, bit_or,
  sub_u64,
}
use os_x_voodoo_ps2_controll.Base.Int.{ℤ, pos, negsuc, ◌-ℤ◌, ltb_ℤ, pos_part, neg_part}
use os_x_voodoo_ps2_controll.Device.{PointerEvent, relative, scroll_event}
use os_x_voodoo_ps2_controll.MiddleButton.{Emulator}
use os_x_voodoo_ps2_controll.MiddleButton.Trackpad.{ComingFrom, middle_button}
use os_x_voodoo_ps2_controll.Trackpad.Gestures.{Call, pointer, set_mode_byte, Options, Pad, Touch}

abbrev pub call : Call → Pad → Pad
call c p = record p { calls = c ∷ p.calls }

-- dispatchRelativePointerEventX and dispatchScrollWheelEventX
abbrev pub dispatch_relative_pointer_event : ℤ → ℤ → ℕ → ℕ → Pad → Pad
dispatch_relative_pointer_event dx dy buttons now p = call (pointer (relative dx dy buttons now)) p

abbrev pub dispatch_scroll_wheel_event : ℤ → ℤ → ℤ → ℕ → Pad → Pad
dispatch_scroll_wheel_event a b c now p = call (pointer (scroll_event a b c now)) p

-- `a > b`
abbrev pub above : ℤ → ℤ → Bool
above a b = ltb_ℤ b a

-- `abs`
abbrev pub magnitude : ℤ → ℕ
magnitude a = pos_part a + neg_part a

abbrev pub negate : ℤ → ℤ
negate a = pos 0 -ℤ a

-- The remainder of C, with the sign of the dividend.
abbrev pub remainder : ℤ → ℕ → ℤ
remainder (pos a) n = pos (a % n)
remainder (negsuc a) n = pos 0 -ℤ pos (suc a % n)

-- isFingerTouch
abbrev pub is_finger_touch : Options → ℕ → Bool
is_finger_touch o z = ltb o.z_finger z && ltb z o.zlimit

-- isInDisableZone, isInRightClickZone and isInLeftClickZone
abbrev pub is_in_disable_zone : Options → ℤ → ℤ → Bool
is_in_disable_zone o x y = above x o.diszl && ltb_ℤ x o.diszr && above y o.diszb && ltb_ℤ y o.diszt

abbrev pub is_in_right_click_zone : Options → ℤ → ℤ → Bool
is_in_right_click_zone o x y = above x o.rczl && ltb_ℤ x o.rczr && above y o.rczb && ltb_ℤ y o.rczt

abbrev pub is_in_left_click_zone : Options → ℤ → ℤ → Bool
is_in_left_click_zone o x y =
    not (above x o.rczl) && not (above x o.rczr) && above y o.rczb && ltb_ℤ y o.rczt

-- "now_ns-keytime < maxaftertyping"
abbrev pub after_typing : Options → Touch → Pad → Bool
after_typing o t p = ltb (sub_u64 t.now_ns p.keytime) o.maxaftertyping

-- The calls of another part of the driver, oldest first.
unfoldable pub report : List PointerEvent → List Call → List Call
report [] calls = calls
report (e ∷ es) calls = report es (pointer e ∷ calls)

-- middleButton, which dispatches events of its own.
unfoldable pub middle : (ℕ → ℕ) → ℕ → ℕ → ComingFrom → Pad → ℕ × Pad
middle to_ns buttons now from p =
    let quiet : Emulator = record p.emulator { events = []; ignore_all = p.ignoreall } in
    let (buttons', e) = middle_button to_ns buttons now from quiet in
    (buttons', record p { emulator = e; calls = report e.events p.calls })

abbrev same_truth : Bool → Bool → Bool
same_truth a b = if a then b else not b

-- setModeByte, without its argument, and setClickButtons
unfoldable pub set_click_buttons : Options → ℕ → Pad → Pad
set_click_buttons o buttons p =
    let bit : ℕ = if buttons != 0 then bit_or p.mode_byte 4 else bit_and p.mode_byte 0xfb in
    let p' : Pad = record p { clickbuttons = buttons } in
    if same_truth (p.clickbuttons != 0) (buttons != 0)
      || not (o.dynamic_ew && o.extendedwmode_supported)
    then p'
    else record p' {
      mode_byte = bit;
      extendedwmode = buttons != 0;
      calls = set_mode_byte bit ∷ p.calls;
    }
