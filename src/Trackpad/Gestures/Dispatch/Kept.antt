-- ===== src/Trackpad/Gestures/Dispatch/Kept.antt =====
-- What the buttons, the tracking of a finger and the clickpad leave as it is.
use os_x_voodoo_ps2_controll.Base.{
  ℕ, ◌≡◌, ◌∙◌, refl, arith, Bool, true, false, ◌&&◌, ◌||◌, List, [], ltb, ◌==◌, if◌then◌else◌,
  bit_and, bit_or, get_or,
}
use os_x_voodoo_ps2_controll.MiddleButton.{Emulator}
use os_x_voodoo_ps2_controll.MiddleButton.Trackpad.{
  ComingFrom, from_cancel, from_passthru, from_trackpad, middle_button,
}
use os_x_voodoo_ps2_controll.Trackpad.Gestures.{Options, Pad, Touch}
use os_x_voodoo_ps2_controll.Trackpad.Gestures.Calls.{middle as with_middle, set_click_buttons}
use os_x_voodoo_ps2_controll.Trackpad.Gestures.Parse.{
  width_of, packet_buttons, finger_change, unsmooth, smooth, ignore_deltas,
}
use os_x_voodoo_ps2_controll.Trackpad.Gestures.Dispatch.{track_finger}
use os_x_voodoo_ps2_controll.Trackpad.Gestures.Dispatch.Reports.{
  motions, report-motions, middle_button-still,
}

-- Two states of the driver that agree on the touch, on whether the trackpad is turned off, on the times
-- and on the motions that were reported.
pub record Same (p q : Pad) : Type 0 where
  pub mode : q.touchmode ≡ p.touchmode
  pub off : q.ignoreall ≡ p.ignoreall
  pub keys : q.keytime ≡ p.keytime
  pub touched : q.touchtime ≡ p.touchtime
  pub untouched : q.untouchtime ≡ p.untouchtime
  pub same_motions : motions q.calls ≡ motions p.calls

pub Same-trans : {p q r : Pad} → Same p q → Same q r → Same p r
Same-trans a b = record {
  mode = b.mode ∙ a.mode;
  off = b.off ∙ a.off;
  keys = b.keys ∙ a.keys;
  touched = b.touched ∙ a.touched;
  untouched = b.untouched ∙ a.untouched;
  same_motions = b.same_motions ∙ a.same_motions;
}

pub Same-refl : {p : Pad} → Same p p
Same-refl = record {
  mode = refl;
  off = refl;
  keys = refl;
  touched = refl;
  untouched = refl;
  same_motions = refl;
}

middle-Same :
    (to_ns : ℕ → ℕ) (buttons now : ℕ) (from : ComingFrom) (p : Pad)
    → Same p (with_middle to_ns buttons now from p).1
unfolding with_middle
middle-Same to_ns buttons now from p =
    let quiet : Emulator = record p.emulator { events = []; ignore_all = p.ignoreall } in
    record {
      mode = refl;
      off = refl;
      keys = refl;
      touched = refl;
      untouched = refl;
      same_motions =
          report-motions (middle_button to_ns buttons now from quiet).1.events p.calls
            (middle_button-still to_ns buttons now from quiet refl);
    }

-- Changes of the averages and of the deltas that are ignored.
finger_change-Same : (o : Options) (t : Touch) (p : Pad) → Same p (finger_change o t p)
unfolding finger_change
finger_change-Same o t p = record {
  mode = ground arith;
  off = ground arith;
  keys = ground arith;
  touched = ground arith;
  untouched = ground arith;
  same_motions = ground arith;
}

unsmooth-Same : (o : Options) (t : Touch) (p : Pad) → Same p (unsmooth o t p).1
unfolding unsmooth
unsmooth-Same o t p = record {
  mode = ground arith;
  off = ground arith;
  keys = ground arith;
  touched = ground arith;
  untouched = ground arith;
  same_motions = ground arith;
}

smooth-Same : (o : Options) (t : Touch) (p : Pad) → Same p (smooth o t p).1
unfolding smooth
smooth-Same o t p = record {
  mode = ground arith;
  off = ground arith;
  keys = ground arith;
  touched = ground arith;
  untouched = ground arith;
  same_motions = ground arith;
}

ignore_deltas-Same : (t : Touch) (p : Pad) → Same p (ignore_deltas t p)
unfolding ignore_deltas
ignore_deltas-Same t p = record {
  mode = ground arith;
  off = ground arith;
  keys = ground arith;
  touched = ground arith;
  untouched = ground arith;
  same_motions = ground arith;
}

pub set_click_buttons-Same : (o : Options) (b : ℕ) (p : Pad) → Same p (set_click_buttons o b p)
unfolding set_click_buttons motions
set_click_buttons-Same o b p = record {
  mode = ground arith;
  off = ground arith;
  keys = ground arith;
  touched = ground arith;
  untouched = ground arith;
  same_motions = ground arith;
}

pub if-Same : {p q r : Pad} (b : Bool) → Same p q → Same p r → Same p (if b then q else r)
if-Same true a c = a
if-Same false a c = c

pair-Same :
    {A : Type 0} {p : Pad} (b : Bool) (u v : A × Pad)
    → Same p u.1
    → Same p v.1
    → Same p (if b then u else v).1
pair-Same true u v a c = a
pair-Same false u v a c = c

lastbuttons-Same :
    (pass last : ℕ) (p : Pad) → Same p (record p { passbuttons = pass; lastbuttons = last })
lastbuttons-Same pass last p = record {
  mode = refl;
  off = refl;
  keys = refl;
  touched = refl;
  untouched = refl;
  same_motions = refl;
}

pub state-Same : (n : ℕ) (p : Pad) → Same p (record p { thinkpad_button_state = n })
state-Same n p = record {
  mode = refl;
  off = refl;
  keys = refl;
  touched = refl;
  untouched = refl;
  same_motions = refl;
}

pub primary-Same : (b : Bool) (p : Pad) → Same p (record p { clickedprimary = b })
primary-Same b p = record {
  mode = refl;
  off = refl;
  keys = refl;
  touched = refl;
  untouched = refl;
  same_motions = refl;
}

pub click-Same : (n : ℕ) (p : Pad) → Same p (record p { clickbuttons = n })
click-Same n p = record {
  mode = refl;
  off = refl;
  keys = refl;
  touched = refl;
  untouched = refl;
  same_motions = refl;
}

pub last-Same : (n : ℕ) (p : Pad) → Same p (record p { lastbuttons = n })
last-Same n p = record {
  mode = refl;
  off = refl;
  keys = refl;
  touched = refl;
  untouched = refl;
  same_motions = refl;
}

pub packet_buttons-Same :
    (to_ns : ℕ → ℕ) (o : Options) (now : ℕ) (packet : List ℕ) (p : Pad)
    → Same p (packet_buttons to_ns o now packet p).1
unfolding packet_buttons
packet_buttons-Same to_ns o now packet p =
    let through = width_of packet == 3 in
    let pass : ℕ = if o.passthru && through then bit_and (get_or packet 1 0) 7 else p.passbuttons in
    let buttons = bit_or (bit_and (get_or packet 0 0) 3) pass in
    let p' : Pad = record p { passbuttons = pass; lastbuttons = buttons } in
    let kept = lastbuttons-Same pass buttons p in
    pair-Same (o.clickpadtype == 0 || through) _ (buttons, p')
      (Same-trans kept
        (middle-Same to_ns buttons now (if through then from_passthru else from_trackpad) p'))
      kept

pub track_finger-Same :
    (to_ns : ℕ → ℕ) (o : Options) (packet : List ℕ) (t : Touch) (p : Pad)
    → Same p (track_finger to_ns o packet t p).1
unfolding track_finger
track_finger-Same to_ns o packet t p =
    let raw = bit_or (bit_and (get_or packet 0 0) 3) p.passbuttons in
    let (again, q) = with_middle to_ns raw t.now_abs from_cancel p in
    let down = p.lastf == 0 && ltb 0 t.f in
    let p1 : Pad = if down then q else p in
    let t1 : Touch = record t { buttons = if down then again else t.buttons } in
    let p2 = finger_change o t1 p1 in
    let (t2, p3) = unsmooth o t1 p2 in
    let (t3, p4) = smooth o t2 p3 in
    Same-trans (if-Same down (middle-Same to_ns raw t.now_abs from_cancel p) Same-refl) (
      Same-trans (finger_change-Same o t1 p1) (
        Same-trans (unsmooth-Same o t1 p2)
          (Same-trans (smooth-Same o t2 p3) (ignore_deltas-Same t3 p4))))
