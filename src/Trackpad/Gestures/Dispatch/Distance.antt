-- ===== src/Trackpad/Gestures/Dispatch/Distance.antt =====
-- How far the pointer travels while one finger moves.
use os_x_voodoo_ps2_controll.Base.{ℕ, ◌+◌, ◌*◌, ◌<◌, ◌≡◌, ◌∙◌, ap, refl, arith, List, [], ◌∷◌}
use os_x_voodoo_ps2_controll.Base.Int.{
  ℤ, pos, negsuc, ◌+ℤ◌, ◌-ℤ◌, ◌*ℤ◌, pos_part, neg_part, +ℤ_parts, -ℤ_parts, eq_of_parts,
}
use os_x_voodoo_ps2_controll.Device.{relative, scroll_wheel}
use os_x_voodoo_ps2_controll.Trackpad.Averages.{quotient}
use os_x_voodoo_ps2_controll.Trackpad.Gestures.{
  Call, pointer, swipe, set_scroll_timer, set_drag_timer, cancel_drag_timer, update_led,
  set_mode_byte, Options, Pad, Touch,
}
use os_x_voodoo_ps2_controll.Trackpad.Gestures.Calls.{remainder}
use os_x_voodoo_ps2_controll.Trackpad.Gestures.Dispatch.{finish_touch}
use os_x_voodoo_ps2_controll.Trackpad.Gestures.Dispatch.Moving.{
  IsMoving, delta_x, delta_y, moving_step,
}

scale_parts :
    (z : ℤ) (d : ℕ)
    → pos_part (z *ℤ pos d) + neg_part z * d ≡ neg_part (z *ℤ pos d) + pos_part z * d
unfolding ◌*ℤ◌
scale_parts (pos a) d = ground arith
scale_parts (negsuc a) d = ground arith

-- A division with remainder loses nothing.
pub quotient_parts :
    (z : ℤ) (d : ℕ)
    → 0 < d
    → pos_part (quotient z d) * d + pos_part (remainder z d) + neg_part z
      ≡ neg_part (quotient z d) * d + neg_part (remainder z d) + pos_part z
unfolding ◌-ℤ◌
quotient_parts (pos a) d h = grind arith
quotient_parts (negsuc a) d h = grind arith

sum_scaled : (a b : ℤ) (d : ℕ) → (a +ℤ b) *ℤ pos d ≡ (a *ℤ pos d) +ℤ (b *ℤ pos d)
sum_scaled a b d = eq_of_parts _ _ (
    grind (
      arith,
      scale_parts a d,
      scale_parts b d,
      scale_parts (a +ℤ b) d,
      +ℤ_parts a b,
      +ℤ_parts (a *ℤ pos d) (b *ℤ pos d),
      ap (λ k. k * d) (+ℤ_parts a b),
    ))

-- What the pointer was told to move by, in all, on each axis.
unfoldable pub travelled_x : List Call → ℤ
travelled_x [] = pos 0
travelled_x (pointer (relative dx dy buttons now) ∷ calls) = dx +ℤ travelled_x calls
travelled_x (pointer (scroll_wheel a b c now) ∷ calls) = travelled_x calls
travelled_x (swipe s now ∷ calls) = travelled_x calls
travelled_x (set_scroll_timer n ∷ calls) = travelled_x calls
travelled_x (set_drag_timer n ∷ calls) = travelled_x calls
travelled_x (cancel_drag_timer ∷ calls) = travelled_x calls
travelled_x (update_led off ∷ calls) = travelled_x calls
travelled_x (set_mode_byte x ∷ calls) = travelled_x calls

unfoldable pub travelled_y : List Call → ℤ
travelled_y [] = pos 0
travelled_y (pointer (relative dx dy buttons now) ∷ calls) = dy +ℤ travelled_y calls
travelled_y (pointer (scroll_wheel a b c now) ∷ calls) = travelled_y calls
travelled_y (swipe s now ∷ calls) = travelled_y calls
travelled_y (set_scroll_timer n ∷ calls) = travelled_y calls
travelled_y (set_drag_timer n ∷ calls) = travelled_y calls
travelled_y (cancel_drag_timer ∷ calls) = travelled_y calls
travelled_y (update_led off ∷ calls) = travelled_y calls
travelled_y (set_mode_byte x ∷ calls) = travelled_y calls

-- The distance that was reported, in the units of the trackpad, with what is left over, and without the
-- place of the finger. The y axis of the pointer points the other way.
abbrev pub balance_x : Options → Pad → ℤ
balance_x o p = ((travelled_x p.calls *ℤ pos o.divisorx) +ℤ p.xrest) -ℤ p.lastx

abbrev pub balance_y : Options → Pad → ℤ
balance_y o p = ((travelled_y p.calls *ℤ pos o.divisory) +ℤ p.yrest) +ℤ p.lasty

pub balance_step_x :
    (q total rest last rest' x : ℤ) (d : ℕ)
    → pos_part q * d + pos_part rest' + neg_part ((x -ℤ last) +ℤ rest)
      ≡ neg_part q * d + neg_part rest' + pos_part ((x -ℤ last) +ℤ rest)
    → (((q +ℤ total) *ℤ pos d) +ℤ rest') -ℤ x ≡ ((total *ℤ pos d) +ℤ rest) -ℤ last
balance_step_x q total rest last rest' x d e = eq_of_parts _ _ (
    omega (
      arith,
      e,
      ap pos_part (sum_scaled q total d),
      ap neg_part (sum_scaled q total d),
      scale_parts q d,
      +ℤ_parts (q *ℤ pos d) (total *ℤ pos d),
      +ℤ_parts ((q +ℤ total) *ℤ pos d) rest',
      -ℤ_parts (((q +ℤ total) *ℤ pos d) +ℤ rest') x,
      +ℤ_parts (total *ℤ pos d) rest,
      -ℤ_parts ((total *ℤ pos d) +ℤ rest) last,
      -ℤ_parts x last,
      +ℤ_parts (x -ℤ last) rest,
    ))

pub balance_step_y :
    (q total rest last rest' y : ℤ) (d : ℕ)
    → pos_part q * d + pos_part rest' + neg_part ((last -ℤ y) +ℤ rest)
      ≡ neg_part q * d + neg_part rest' + pos_part ((last -ℤ y) +ℤ rest)
    → (((q +ℤ total) *ℤ pos d) +ℤ rest') +ℤ y ≡ ((total *ℤ pos d) +ℤ rest) +ℤ last
balance_step_y q total rest last rest' y d e = eq_of_parts _ _ (
    omega (
      arith,
      e,
      ap pos_part (sum_scaled q total d),
      ap neg_part (sum_scaled q total d),
      scale_parts q d,
      +ℤ_parts (q *ℤ pos d) (total *ℤ pos d),
      +ℤ_parts ((q +ℤ total) *ℤ pos d) rest',
      +ℤ_parts (((q +ℤ total) *ℤ pos d) +ℤ rest') y,
      +ℤ_parts (total *ℤ pos d) rest,
      +ℤ_parts ((total *ℤ pos d) +ℤ rest) last,
      -ℤ_parts last y,
      +ℤ_parts (last -ℤ y) rest,
    ))

-- The touches of a movement, one after the other.
pub move_on : Options → List Touch → Pad → Pad
move_on o [] p = p
move_on o (t ∷ ts) p = move_on o ts (finish_touch o t p)

abbrev pub AllMoving : Options → List Touch → Pad → Type 0
AllMoving o [] p = Unit
AllMoving o (t ∷ ts) p = IsMoving o t p × AllMoving o ts (finish_touch o t p)

balance_one :
    (o : Options) (t : Touch) (p : Pad)
    → 0 < o.divisorx
    → 0 < o.divisory
    → IsMoving o t p
    → (balance_x o (finish_touch o t p) ≡ balance_x o p)
      × (balance_y o (finish_touch o t p) ≡ balance_y o p)
unfolding travelled_x travelled_y
balance_one o t p hx hy v = (
  ap (balance_x o) (moving_step o t p v)
      ∙ balance_step_x (quotient (delta_x t p) o.divisorx) (travelled_x p.calls) p.xrest p.lastx
          (remainder (delta_x t p) o.divisorx) t.x o.divisorx
          (quotient_parts (delta_x t p) o.divisorx hx),
  ap (balance_y o) (moving_step o t p v)
      ∙ balance_step_y (quotient (delta_y t p) o.divisory) (travelled_y p.calls) p.yrest p.lasty
          (remainder (delta_y t p) o.divisory) t.y o.divisory
          (quotient_parts (delta_y t p) o.divisory hy),
)

-- Behind the filters of touches, while one finger moves in the mode of moving, with a pressure and a width
-- within the limits and as many fingers as before, where taps click after the time of a tap, with each
-- delta within the bogus limits, and not on a ThinkPad, no distance is lost or made up: over any number
-- of touches, the motion that was reported times the divisor, with what is left over, changes by exactly
-- what the finger moved.
pub move_on-balance :
    (o : Options) (ts : List Touch) (p : Pad)
    → 0 < o.divisorx
    → 0 < o.divisory
    → AllMoving o ts p
    → (balance_x o (move_on o ts p) ≡ balance_x o p)
      × (balance_y o (move_on o ts p) ≡ balance_y o p)
unfolding move_on
move_on-balance o [] p hx hy v = (refl, refl)
move_on-balance o (t ∷ ts) p hx hy v =
    let rest = move_on-balance o ts (finish_touch o t p) hx hy v.1 in
    let one = balance_one o t p hx hy v.0 in (rest.0 ∙ one.0, rest.1 ∙ one.1)
