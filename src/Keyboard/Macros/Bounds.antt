-- ===== src/Keyboard/Macros/Bounds.antt =====
-- The macro buffer never overflows.
use os_x_voodoo_ps2_controll.Base.{
  ℕ, ◌≤◌, ◌<◌, ◌≡◌, ◌∙◌, ap, arith, Bool, true, false, not, some, List, [], ◌∷◌, if◌then◌else◌,
  length, length-set, get_or, inl, inr, Bool-cases, Option-cases,
}
use os_x_voodoo_ps2_controll.Device.{Kernel}
use os_x_voodoo_ps2_controll.Keyboard.Macros.{
  Macros, longest, has_macros, invert_exact, invert_loop, dispatch_invert_buffer, cancel_late,
  add_packet, flush_buffer, invert_added, invert_macros, handle_packet, macro_timeout,
  output_packet,
}

-- The buffer has room for the longest macro, and, where there are macros, for a packet more than it
-- holds.
pub record IsBounded {D : Type 0} (s : Macros D) : Type 0 where
  pub allocated : length s.macro_buffer ≡ s.macro_max
  pub longest_fits : longest s.macro_inversion ≤ s.macro_max
  pub room : has_macros s ≡ true → s.macro_current < s.macro_max

module _ {D : Type 0} (k : Kernel) (dispatch : List ℕ → D → D) (modifiers : D → ℕ) where
  waiting-below :
      (ms : List (List ℕ)) (s t : Macros D)
      → longest ms ≤ s.macro_max
      → s.macro_current < s.macro_max
      → invert_loop k dispatch modifiers ms s ≡ some t
      → (t.macro_current < s.macro_max)
        × (length t.macro_buffer ≡ length s.macro_buffer)
        × (t.macro_max ≡ s.macro_max)
        × (t.macro_inversion ≡ s.macro_inversion)
  unfolding invert_loop longest invert_exact
  waiting-below [] s t h r e = ground (arith, e)
  waiting-below (m ∷ ms) s t h r e = ground (
    arith,
    e,
    waiting-below ms s t,
    length-set s.macro_buffer 0 (output_packet k dispatch modifiers m (get_or s.macro_buffer 0 [])),
  )

  cancel_late-IsBounded :
      (packet : List ℕ) (s : Macros D)
      → IsBounded s
      → IsBounded (cancel_late k dispatch modifiers packet s)
  unfolding cancel_late dispatch_invert_buffer
  cancel_late-IsBounded packet s b = ground (arith, b)

  add_packet-IsBounded :
      (packet : List ℕ) (s : Macros D)
      → IsBounded s
      → IsBounded (add_packet k dispatch modifiers packet s)
  add_packet-IsBounded packet s b =
      ground (arith, b, length-set s.macro_buffer s.macro_current packet)

  inverted-IsBounded :
      (s t : Macros D)
      → IsBounded s
      → has_macros s ≡ true
      → invert_loop k dispatch modifiers s.macro_inversion s ≡ some t
      → IsBounded t
  inverted-IsBounded s t b h e =
      let w = waiting-below s.macro_inversion s t b.longest_fits (b.room h) e in
      ground (arith, b, w.0, w.1, w.2, w.3, ap longest w.3)

  flush_buffer-IsBounded :
      (s : Macros D) → IsBounded s → IsBounded (flush_buffer k dispatch modifiers s)
  unfolding dispatch_invert_buffer
  flush_buffer-IsBounded s b = ground (arith, b)

  with_driver-IsBounded : (d : D) (s : Macros D) → IsBounded s → IsBounded (record s { driver = d })
  with_driver-IsBounded d s b = record {
    allocated = b.allocated;
    longest_fits = b.longest_fits;
    room = b.room;
  }

  cancel_late-has_macros :
      (packet : List ℕ) (s : Macros D)
      → (cancel_late k dispatch modifiers packet s).macro_inversion ≡ s.macro_inversion
  unfolding cancel_late dispatch_invert_buffer
  cancel_late-has_macros packet s = ground arith

  invert_added-IsBounded :
      (s : Macros D)
      → IsBounded s
      → has_macros s ≡ true
      → IsBounded (invert_added k dispatch modifiers s).1
  unfolding invert_added
  invert_added-IsBounded s b h =
      elim (Option-cases (invert_loop k dispatch modifiers s.macro_inversion s)) [
        | inr (t, q) ↦ rw (q, invert_added) (inverted-IsBounded s t b h q)
        | inl q ↦ rw (q, invert_added) (flush_buffer-IsBounded s b)
      ]

  invert_macros-IsBounded :
      (packet : List ℕ) (s : Macros D)
      → IsBounded s
      → has_macros s ≡ true
      → IsBounded (invert_macros k dispatch modifiers packet s).1
  unfolding invert_macros
  invert_macros-IsBounded packet s b h =
      let s' = add_packet k dispatch modifiers packet (cancel_late k dispatch modifiers packet s) in
      let b' = add_packet-IsBounded packet _ (cancel_late-IsBounded packet s b) in
      let h' : has_macros s' ≡ true =
        ap (λ l. elim l as (λ x. Bool) [ [] ↦ false | m ∷ ms ↦ true ])
          (cancel_late-has_macros packet s)
        ∙ h in
      either s.has_timer s (s') b (invert_added-IsBounded s' b' h')
    where
      either :
          (b : Bool) (s s' : Macros D)
          → IsBounded s
          → IsBounded (invert_added k dispatch modifiers s').1
          → IsBounded (if not b then (false, s) else invert_added k dispatch modifiers s').1
      either true s s' p q = q
      either false s s' p q = p

  -- Handling a packet keeps the macro buffer allocated for the longest macro and, where there are
  -- macros, with room for a packet more than it holds, so that the next packet is written inside
  -- it.
  pub handle_packet-IsBounded :
      (packet : List ℕ) (s : Macros D)
      → IsBounded s
      → IsBounded (handle_packet k dispatch modifiers packet s)
  unfolding handle_packet
  handle_packet-IsBounded packet s b = elim (Bool-cases (has_macros s)) [
    | inr e ↦ rw (e, handle_packet) (with_driver-IsBounded _ s b)
    | inl e ↦
        let i = invert_macros-IsBounded packet s b e in
        elim (Bool-cases (invert_macros k dispatch modifiers packet s).0) [
          | inl q ↦ rw (q, e, handle_packet) i
          | inr q ↦ rw (q, e, handle_packet) (with_driver-IsBounded _ _ i)
        ]
  ]

  -- The timer keeps the bound as well.
  pub macro_timeout-IsBounded :
      (s : Macros D) → IsBounded s → IsBounded (macro_timeout k dispatch modifiers s)
  unfolding macro_timeout dispatch_invert_buffer
  macro_timeout-IsBounded s b = ground (arith, b)
