-- ===== src/MiddleButton/Clicks.antt =====
-- What a user sees of the emulation: the sequences of calls that make up a click.
use os_x_voodoo_ps2_controll.Base.{
  ℕ, ◌≡◌, ◌≢◌, ◌≤◌, ◌<◌, ◌+◌, ◌^◌, refl, arith, true, none, [], ◌∷◌, ◌++◌, ◌==◌, ==_iff, bit_and,
  bit_or,
}
use os_x_voodoo_ps2_controll.Base.Int.{pos}
use os_x_voodoo_ps2_controll.Base.Bytes.{none-bit_and, none-bit_or, every_below, byte_table}
use os_x_voodoo_ps2_controll.Device.{relative}
use os_x_voodoo_ps2_controll.MiddleButton.{Emulator, no_buttons}
use os_x_voodoo_ps2_controll.MiddleButton.Trackpad.{
  middle_button, switch_state, from_timer, from_passthru,
}

-- The emulation is on, and no button is down.
pub record IsIdle (e : Emulator) : Type 0 where
  pub enabled : e.fake_middle_button ≢ 0
  pub three_buttons : 2 < e.button_count
  pub at_rest : e.state ≡ no_buttons
  pub nothing_pending : e.pending_buttons ≡ 0

-- One button out of left and right.
abbrev pub IsSingle : ℕ → Type 0
IsSingle b = (b ≢ 0) × (b ≢ 3) × (bit_and b 4 ≡ 0)

bit_or_self : (b : ℕ) → b < 256 → bit_or b b ≡ b
unfolding every_below
bit_or_self b h = (==_iff (bit_or b b) b).0 (byte_table (λ x. bit_or x x == x) table b h)
  where
    table : every_below 256 (λ x. bit_or x x == x) ≡ true
    table = refl

module _ (to_ns : ℕ → ℕ) (e : Emulator) (idle : IsIdle e) where
  -- From rest, a second button within the time limit makes a middle click: the first press is held
  -- back, the call with both buttons answers the middle button, the release answers none, and
  -- nothing is dispatched on the way.
  pub middle_click :
      (b t0 t1 t2 : ℕ)
      → IsSingle b
      → to_ns t0 ≤ to_ns t1
      → to_ns t1 < 2 ^ 64
      → to_ns t1 ≤ to_ns t0 + e.max_middle_click_time
      → let (b0, e0) = middle_button to_ns b t0 from_passthru e in
        let (b1, e1) = middle_button to_ns 3 t1 from_passthru e0 in
        let (b2, e2) = middle_button to_ns 0 t2 from_passthru e1 in
        (b0 ≡ bit_and b 0xffff_fffc) × (b1 ≡ 4) × (b2 ≡ 0) × IsIdle e2 × (e2.events ≡ e.events)
  unfolding middle_button switch_state
  middle_click b t0 t1 t2 single le lt within = ground arith

  -- From rest, a lone click that ends before the timer fires is not lost: its press is held back,
  -- and the release dispatches it before it answers that no button is down.
  pub quick_click :
      (b t0 t1 : ℕ)
      → IsSingle b
      → let (b0, e0) = middle_button to_ns b t0 from_passthru e in
        let (b1, e1) = middle_button to_ns 0 t1 from_passthru e0 in
        (b0 ≡ bit_and b 0xffff_fffc)
        × (b1 ≡ 0)
        × IsIdle e1
        × (e1.events ≡ e.events ++ relative (pos 0) (pos 0) b t1 ∷ [])
  unfolding middle_button switch_state
  quick_click b t0 t1 single = ground (arith, none-bit_and b, none-bit_or b)

  -- From rest, a button held until the timer fires is dispatched as pressed then, and the next call
  -- passes it on unchanged and dispatches nothing.
  pub long_press :
      (b t0 t1 t2 : ℕ)
      → IsSingle b
      → b < 256
      → let (b0, e0) = middle_button to_ns b t0 from_passthru e in
        let (b1, e1) = middle_button to_ns b t1 from_timer e0 in
        let (b2, e2) = middle_button to_ns b t2 from_passthru e1 in
        (b0 ≡ bit_and b 0xffff_fffc)
        × (b2 ≡ b)
        × (e1.events ≡ e.events ++ relative (pos 0) (pos 0) b t1 ∷ [])
        × (e2.events ≡ e1.events)
        × (e1.button_timer ≡ none)
  unfolding middle_button switch_state
  long_press b t0 t1 t2 single h = ground (arith, bit_or_self b h)
