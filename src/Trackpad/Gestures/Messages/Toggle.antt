-- ===== src/Trackpad/Gestures/Messages/Toggle.antt =====
-- The key of the keyboard that turns the trackpad on and off.
use os_x_voodoo_ps2_controll.Base.{
  ℕ, ◌≡◌, ◌∙◌, ap, arith, Bool, true, false, not, ◌||◌, List, ◌∷◌, ◌==◌, inl, inr, Bool-cases,
}
use os_x_voodoo_ps2_controll.Keyboard.Events.{
  Effect, World, Settings, Typist, check_modifier_state, mask_left_control, set_disable_touchpad,
}
use os_x_voodoo_ps2_controll.Keyboard.Dispatch.{special_key, touchpad_toggle}
use os_x_voodoo_ps2_controll.Trackpad.Gestures.{Pad}
use os_x_voodoo_ps2_controll.Trackpad.Gestures.Messages.{
  get_disable_touchpad, set_enable, hear, heard,
}

-- The answers that the keyboard driver gets are those of a trackpad that was in the state `p` at first
-- and heard what the keyboard driver sent.
abbrev pub Answers : World → Pad → Type 0
Answers w p = (es : List Effect) → w.touchpad_disabled es ≡ get_disable_touchpad (heard es p)

set_enable-ignoreall : (enable : Bool) (p : Pad) → (set_enable enable p).ignoreall ≡ not enable
unfolding set_enable
set_enable-ignoreall enable p = ground arith

-- The press of a toggle key.
special_key-toggle :
    (w : World) (c : Settings) (key now : ℕ) (s : Typist)
    → (key == 0x0128 || key == 0x0137) ≡ true
    → check_modifier_state mask_left_control s ≡ false
    → (special_key w c key true now s).1.effects
      ≡ set_disable_touchpad (not (w.touchpad_disabled s.effects)) ∷ s.effects
unfolding special_key touchpad_toggle
special_key-toggle w c key now s k plain = elim (Bool-cases (key == 0x0128)) [
  | inl e ↦ ground (arith, e, plain)
  | inr e ↦ ground (arith, e, k, plain)
]

-- The press of a key for the trackpad, without the control key, turns a trackpad off that was on, and on
-- one that was off, where the keyboard driver asks the trackpad itself.
pub toggle-flips :
    (w : World) (c : Settings) (key now : ℕ) (s : Typist) (p : Pad)
    → Answers w p
    → (key == 0x0128 || key == 0x0137) ≡ true
    → check_modifier_state mask_left_control s ≡ false
    → (heard (special_key w c key true now s).1.effects p).ignoreall
      ≡ not (heard s.effects p).ignoreall
unfolding heard hear
toggle-flips w c key now s p answers k plain =
    let enable = not (w.touchpad_disabled s.effects) in
    ap (λ es. (heard es p).ignoreall) (special_key-toggle w c key now s k plain)
    ∙ set_enable-ignoreall enable (heard s.effects p)
    ∙ ground (arith, answers s.effects)
