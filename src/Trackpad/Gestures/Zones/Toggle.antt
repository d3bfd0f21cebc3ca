-- ===== src/Trackpad/Gestures/Zones/Toggle.antt =====
-- The steps of the double tap that disables and enables the trackpad, where the disable zone is watched.
use os_x_voodoo_ps2_controll.Base.{ℕ, Bool, true, not, ◌&&◌, ◌∷◌, ltb, sub_u64}
use os_x_voodoo_ps2_controll.Trackpad.Gestures.{
  Mode, no_touch, wait1_release, wait2_tap, wait2_release, update_led, Options, Pad, Touch,
}
use os_x_voodoo_ps2_controll.Trackpad.Gestures.Calls.{is_finger_touch, is_in_disable_zone}
use os_x_voodoo_ps2_controll.Base.{◌≡◌, arith, ◌∙◌, ap}
use os_x_voodoo_ps2_controll.Trackpad.Gestures.Zones.{
  is_one_finger, wait_release, disable_zone, is_zone_enabled, watch_zone,
}

-- A touch by one finger in the zone, and one without a finger.
abbrev pub is_tapped : Options → Touch → Bool
is_tapped o t = is_finger_touch o t.z && is_one_finger t && is_in_disable_zone o t.x t.y

abbrev pub is_lifted : Options → Touch → Bool
is_lifted o t = ltb t.z o.z_finger

-- From one time to another in less than so many nanoseconds.
abbrev pub within : ℕ → ℕ → ℕ → Bool
within limit from to = ltb (sub_u64 to from) limit

watch-mode :
    (o : Options) (m : Mode) (t : Touch) (p : Pad)
    → is_zone_enabled o ≡ true
    → p.touchmode ≡ m
    → watch_zone o t p ≡ disable_zone o m t p
unfolding watch_zone
watch-mode o m t p on e = rw on (ap (λ k. disable_zone o k t p) e)

module _ (o : Options) (on : is_zone_enabled o ≡ true) where
  pub first_tap :
      (t : Touch) (p : Pad)
      → p.touchmode ≡ no_touch
      → is_tapped o t ≡ true
      → watch_zone o t p ≡ record p { touchtime = t.now_ns; touchmode = wait1_release }
  unfolding disable_zone
  first_tap t p e h = watch-mode o no_touch t p on e ∙ ground (arith, h)

  pub first_lift :
      (t : Touch) (p : Pad)
      → p.touchmode ≡ wait1_release
      → is_lifted o t ≡ true
      → within o.maxtaptime p.touchtime t.now_ns ≡ true
      → watch_zone o t p ≡ record p { untouchtime = t.now_ns; touchmode = wait2_tap }
  unfolding disable_zone wait_release
  first_lift t p e h q = watch-mode o wait1_release t p on e ∙ ground (arith, h, q)

  pub second_tap :
      (t : Touch) (p : Pad)
      → p.touchmode ≡ wait2_tap
      → is_tapped o t ≡ true
      → within o.maxdragtime p.untouchtime t.now_ns ≡ true
      → watch_zone o t p ≡ record p { touchtime = t.now_ns; touchmode = wait2_release }
  unfolding disable_zone
  second_tap t p e h q = watch-mode o wait2_tap t p on e ∙ ground (arith, h, q)

  pub second_lift :
      (t : Touch) (p : Pad)
      → p.touchmode ≡ wait2_release
      → is_lifted o t ≡ true
      → within o.maxtaptime p.touchtime t.now_ns ≡ true
      → watch_zone o t p ≡ record p {
        ignoreall = not p.ignoreall;
        touchmode = no_touch;
        calls = update_led (not p.ignoreall) ∷ p.calls;
      }
  unfolding disable_zone wait_release
  second_lift t p e h q = watch-mode o wait2_release t p on e ∙ ground (arith, h, q)
