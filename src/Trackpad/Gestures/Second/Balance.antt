-- ===== src/Trackpad/Gestures/Second/Balance.antt =====
-- How far the pointer travels while one finger holds the clickpad down and a second one moves.
use os_x_voodoo_ps2_controll.Base.{
  ℕ, ◌<◌, ◌≡◌, ◌∙◌, ap, refl, arith, true, false, ◌&&◌, ◌||◌, List, [], ◌∷◌, ltb, ◌!=◌, bit_or,
}
use os_x_voodoo_ps2_controll.Base.Int.{ℤ, pos, ◌+ℤ◌, ◌-ℤ◌, ◌*ℤ◌}
use os_x_voodoo_ps2_controll.Device.{relative}
use os_x_voodoo_ps2_controll.Trackpad.Averages.{quotient}
use os_x_voodoo_ps2_controll.Trackpad.Gestures.{pointer, Options, Pad, Touch}
use os_x_voodoo_ps2_controll.Trackpad.Gestures.Calls.{magnitude, remainder}
use os_x_voodoo_ps2_controll.Trackpad.Gestures.Zones.{is_outside_after_typing}
use os_x_voodoo_ps2_controll.Trackpad.Gestures.Dispatch.Distance.{
  quotient_parts, travelled_x, travelled_y, balance_step_x, balance_step_y,
}
use os_x_voodoo_ps2_controll.Trackpad.Gestures.Second.{
  Second, track_second, move_second, finish_second,
}

abbrev second_delta_x : Touch → Pad × Second → ℤ
second_delta_x t (p, s) = (t.x -ℤ p.lastx2) +ℤ s.xrest2

abbrev second_delta_y : Touch → Pad × Second → ℤ
second_delta_y t (p, s) = (p.lasty2 -ℤ t.y) +ℤ s.yrest2

-- A second finger that moves on by no more than the limits, while the first one holds the clickpad down,
-- on a driver that is not on a ThinkPad.
pub record IsHolding (o : Options) (t : Touch) (r : Pad × Second) : Type 0 where
  pub known : r.0.tracksecondary ≡ true
  pub held : ((o.clickpadtrackboth || r.0.clickedprimary) && r.0.clickbuttons != 0) ≡ true
  pub timely : is_outside_after_typing o t r.0 ≡ false
  pub small :
      (ltb o.bogusdxthresh (magnitude (second_delta_x t r))
        || ltb o.bogusdythresh (magnitude (second_delta_y t r)))
      ≡ false
  pub other_pad : o.isthinkpad ≡ false

-- The driver after the touch.
abbrev pub held_on : Options → Touch → Pad × Second → Pad × Second
held_on o t (p, s) = (
  record p {
    calls =
        pointer (
          relative (quotient (second_delta_x t (p, s)) o.divisorx)
            (quotient (second_delta_y t (p, s)) o.divisory) (bit_or t.buttons p.clickbuttons)
            t.now_abs)
        ∷ p.calls;
    lastx2 = t.x;
    lasty2 = t.y;
    tracksecondary = true;
  },
  record s {
    xrest2 = remainder (second_delta_x t (p, s)) o.divisorx;
    yrest2 = remainder (second_delta_y t (p, s)) o.divisory;
  },
)

pub holding_step :
    (o : Options) (packet : List ℕ) (t : Touch) (p : Pad) (s : Second)
    → IsHolding o t (p, s)
    → finish_second o packet t p s ≡ held_on o t (p, s)
unfolding finish_second move_second track_second
holding_step o packet t p s v = ground (arith, v)

-- The distance that was reported, with what is left over of the second finger, and without its place.
abbrev pub held_balance_x : Options → Pad × Second → ℤ
held_balance_x o (p, s) = ((travelled_x p.calls *ℤ pos o.divisorx) +ℤ s.xrest2) -ℤ p.lastx2

abbrev pub held_balance_y : Options → Pad × Second → ℤ
held_balance_y o (p, s) = ((travelled_y p.calls *ℤ pos o.divisory) +ℤ s.yrest2) +ℤ p.lasty2

-- The touches of the second finger, one after the other, each with its packet.
pub hold_on : Options → List (List ℕ × Touch) → Pad × Second → Pad × Second
hold_on o [] r = r
hold_on o ((packet, t) ∷ ts) (p, s) = hold_on o ts (finish_second o packet t p s)

abbrev pub AllHolding : Options → List (List ℕ × Touch) → Pad × Second → Type 0
AllHolding o [] r = Unit
AllHolding o ((packet, t) ∷ ts) (p, s) =
    IsHolding o t (p, s) × AllHolding o ts (finish_second o packet t p s)

held_balance_one :
    (o : Options) (packet : List ℕ) (t : Touch) (p : Pad) (s : Second)
    → 0 < o.divisorx
    → 0 < o.divisory
    → IsHolding o t (p, s)
    → (held_balance_x o (finish_second o packet t p s) ≡ held_balance_x o (p, s))
      × (held_balance_y o (finish_second o packet t p s) ≡ held_balance_y o (p, s))
unfolding travelled_x travelled_y
held_balance_one o packet t p s hx hy v =
    let dx = second_delta_x t (p, s) in
    let dy = second_delta_y t (p, s) in
    (
      ap (held_balance_x o) (holding_step o packet t p s v)
          ∙ balance_step_x (quotient dx o.divisorx) (travelled_x p.calls) s.xrest2 p.lastx2
              (remainder dx o.divisorx) t.x o.divisorx (quotient_parts dx o.divisorx hx),
      ap (held_balance_y o) (holding_step o packet t p s v)
          ∙ balance_step_y (quotient dy o.divisory) (travelled_y p.calls) s.yrest2 p.lasty2
              (remainder dy o.divisory) t.y o.divisory (quotient_parts dy o.divisory hy),
    )

-- While a button of the clickpad is held, by the first finger or where both fingers are tracked, and a
-- second finger, which is known already, moves, outside what is ignored after typing, with each delta
-- within the bogus limits, and not on a ThinkPad, no distance of the second one is lost or made up: over
-- any number of touches after smoothing, the motion that was reported times the divisor, with what is
-- left over, changes by exactly what the second finger moved.
pub hold_on-balance :
    (o : Options) (ts : List (List ℕ × Touch)) (r : Pad × Second)
    → 0 < o.divisorx
    → 0 < o.divisory
    → AllHolding o ts r
    → (held_balance_x o (hold_on o ts r) ≡ held_balance_x o r)
      × (held_balance_y o (hold_on o ts r) ≡ held_balance_y o r)
unfolding hold_on
hold_on-balance o [] r hx hy v = (refl, refl)
hold_on-balance o ((packet, t) ∷ ts) (p, s) hx hy v =
    let rest = hold_on-balance o ts (finish_second o packet t p s) hx hy v.1 in
    let one = held_balance_one o packet t p s hx hy v.0 in (rest.0 ∙ one.0, rest.1 ∙ one.1)
