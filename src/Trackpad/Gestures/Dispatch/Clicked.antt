-- ===== src/Trackpad/Gestures/Dispatch/Clicked.antt =====
-- What the clickpad leaves as it is, and what tracking and the clickpad leave of a touch.
use os_x_voodoo_ps2_controll.Base.{
  ℕ, ◌≡◌, refl, arith, Bool, true, false, not, ◌&&◌, List, ◌==◌, ◌!=◌, if◌then◌else◌, bit_and,
  bit_or, get_or,
}
use os_x_voodoo_ps2_controll.Trackpad.Gestures.{multi_touch, is_mode, Options, Pad, Touch}
use os_x_voodoo_ps2_controll.Trackpad.Gestures.Calls.{set_click_buttons}
use os_x_voodoo_ps2_controll.Trackpad.Gestures.Parse.{unsmooth, smooth}
use os_x_voodoo_ps2_controll.Trackpad.Gestures.Clickpad.{
  trackpoint_buttons, physical_click, press_clickpad, clickpad_packet,
}
use os_x_voodoo_ps2_controll.Trackpad.Gestures.Dispatch.{track_finger}
use os_x_voodoo_ps2_controll.Trackpad.Gestures.Dispatch.Kept.{
  Same-trans, Same-refl, set_click_buttons-Same, if-Same, state-Same, primary-Same, click-Same,
  last-Same, Same,
}

-- Neither tracking nor the clickpad changes the time and the pressure.
pub record SameTouch (t u : Touch) : Type 0 where
  pub same_time : u.now_ns ≡ t.now_ns
  pub pressure : u.z ≡ t.z

pub track_finger-SameTouch :
    (to_ns : ℕ → ℕ) (o : Options) (packet : List ℕ) (t : Touch) (p : Pad)
    → SameTouch t (track_finger to_ns o packet t p).0
unfolding track_finger unsmooth smooth
track_finger-SameTouch to_ns o packet t p = record {
  same_time = ground arith;
  pressure = ground arith;
}

triple-Same :
    {p : Pad} {t : Touch} (b : Bool) (u v : ℕ × Touch × Pad)
    → Same p u.2 × SameTouch t u.1
    → Same p v.2 × SameTouch t v.1
    → Same p (if b then u else v).2 × SameTouch t (if b then u else v).1
triple-Same true u v a c = a
triple-Same false u v a c = c

physical_click-Same :
    (o : Options) (packet : List ℕ) (t : Touch) (p : Pad)
    → Same p (physical_click o packet t p).2 × SameTouch t (physical_click o packet t p).1
unfolding physical_click
physical_click-Same o packet t p =
    let bp = bit_and (get_or packet 3 0) 3 in
    let buttons =
      trackpoint_buttons (bit_and (get_or packet 4 0) 3) (bit_and (get_or packet 5 0) 3) in
    let p' : Pad = record p { thinkpad_button_state = buttons } in
    triple-Same (o.isthinkpad && bp == 2)
      (buttons, record t { buttons = buttons }, set_click_buttons o buttons p') (bp, t, p)
      (
        Same-trans (state-Same buttons p) (set_click_buttons-Same o buttons p'),
        record { same_time = refl; pressure = refl },
      )
      (Same-refl, record { same_time = refl; pressure = refl })

press_clickpad-Same :
    (o : Options) (click : ℕ) (t : Touch) (p : Pad) → Same p (press_clickpad o click t p)
unfolding press_clickpad
press_clickpad-Same o click t p =
    let primary = not (is_mode multi_touch p.touchmode) in
    Same-trans (primary-Same primary p)
      (set_click_buttons-Same o _ (record p { clickedprimary = primary }))

pub clickpad_packet-Same :
    (o : Options) (packet : List ℕ) (t : Touch) (p : Pad)
    → Same p (clickpad_packet o packet t p).1 × SameTouch t (clickpad_packet o packet t p).0
unfolding clickpad_packet
clickpad_packet-Same o packet t p =
    let (click, t1, p1) = physical_click o packet t p in
    let before = physical_click-Same o packet t p in
    let p2 : Pad =
      if p1.clickbuttons == 0 && click != 0 then press_clickpad o click t1 p1 else p1 in
    let p3 : Pad = if click == 0 then set_click_buttons o 0 p2 else p2 in
    let p4 : Pad =
      if o.isthinkpad && p3.thinkpad_button_state != 0
      then record p3 { clickbuttons = p3.thinkpad_button_state }
      else p3 in
    (
      Same-trans before.0 (
          Same-trans
            (if-Same (p1.clickbuttons == 0 && click != 0) (press_clickpad-Same o click t1 p1)
              Same-refl)
            (Same-trans (if-Same (click == 0) (set_click_buttons-Same o 0 p2) Same-refl) (
              Same-trans
                (if-Same (o.isthinkpad && p3.thinkpad_button_state != 0)
                  (click-Same p3.thinkpad_button_state p3) Same-refl)
                (last-Same (bit_or t1.buttons p4.clickbuttons) p4)))),
      record { same_time = before.1.same_time; pressure = before.1.pressure },
    )
