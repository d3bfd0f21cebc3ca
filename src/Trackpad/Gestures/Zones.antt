-- ===== src/Trackpad/Gestures/Zones.antt =====
-- Touches that are ignored: shortly after typing, and while the trackpad is disabled by a double tap
-- in a corner.
pub mod Toggle
use os_x_voodoo_ps2_controll.Base.{Bool, not, ◌&&◌, ◌||◌, ltb, leb, if◌then◌else◌, sub_u64}
use os_x_voodoo_ps2_controll.Base.Int.{pos, ltb_ℤ, ◌==ℤ◌}
use os_x_voodoo_ps2_controll.Trackpad.Gestures.{
  Mode, no_touch, predrag, drag_no_touch, move, vscroll, hscroll, cscroll, multi_touch, drag,
  drag_lock, wait1_release, wait2_tap, wait2_release, number_of, update_led, Options, Pad, Touch,
}
use os_x_voodoo_ps2_controll.Trackpad.Gestures.Calls.{
  call, above, is_finger_touch, is_in_disable_zone, after_typing,
}

-- "deal with OutsidezoneNoAction When Typing"
unfoldable pub is_outside_after_typing : Options → Touch → Pad → Bool
is_outside_after_typing o t p =
    o.outzone_wt
    && ltb o.z_finger t.z
    && after_typing o t p
    && (ltb_ℤ t.x o.zonel || above t.x o.zoner || ltb_ℤ t.y o.zoneb || above t.y o.zonet)

-- A tap that one finger makes.
abbrev pub is_one_finger : Touch → Bool
is_one_finger t = leb 4 t.w && leb t.w 5

unfoldable pub wait_release : Options → Touch → Pad → Pad → Pad
wait_release o t timely p =
    if ltb t.z o.z_finger
    then (if ltb (sub_u64 t.now_ns p.touchtime) o.maxtaptime
        then timely
        else record p { touchmode = no_touch })
    else if is_in_disable_zone o t.x t.y
    then p
    else record p { touchmode = no_touch }

-- "look for a double tap inside the disable zone to enable/disable touchpad"
unfoldable pub disable_zone : Options → Mode → Touch → Pad → Pad
disable_zone o no_touch t p =
    if is_finger_touch o t.z && is_one_finger t && is_in_disable_zone o t.x t.y
    then record p { touchtime = t.now_ns; touchmode = wait1_release }
    else p
disable_zone o wait1_release t p =
    wait_release o t (record p { untouchtime = t.now_ns; touchmode = wait2_tap }) p
disable_zone o wait2_tap t p =
    if not (is_finger_touch o t.z)
    then p
    else if is_in_disable_zone o t.x t.y
        && is_one_finger t
        && ltb (sub_u64 t.now_ns p.untouchtime) o.maxdragtime
    then record p { touchtime = t.now_ns; touchmode = wait2_release }
    else record p { touchmode = no_touch }
disable_zone o wait2_release t p =
    wait_release o t
      (call (update_led (not p.ignoreall))
        (record p { ignoreall = not p.ignoreall; touchmode = no_touch }))
      p
disable_zone o predrag t p = p
disable_zone o drag_no_touch t p = p
disable_zone o move t p = p
disable_zone o vscroll t p = p
disable_zone o hscroll t p = p
disable_zone o cscroll t p = p
disable_zone o multi_touch t p = p
disable_zone o drag t p = p
disable_zone o drag_lock t p = p

abbrev pub is_zone_enabled : Options → Bool
is_zone_enabled o = o.diszctrl ==ℤ pos 0 && o.ledpresent || o.diszctrl ==ℤ pos 1

unfoldable pub watch_zone : Options → Touch → Pad → Pad
watch_zone o t p = if is_zone_enabled o then disable_zone o p.touchmode t p else p

-- Whether the packet ends there: "if (touchmode >= MODE_WAIT1RELEASE) return", and the input that is
-- ignored.
abbrev pub is_dropped : Options → Pad → Bool
is_dropped o p = is_zone_enabled o && leb 101 (number_of p.touchmode) || p.ignoreall
