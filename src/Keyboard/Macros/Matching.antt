-- ===== src/Keyboard/Macros/Matching.antt =====
-- compareMacro is a comparison of key data, and dispatching the macro buffer dispatches its packets.
use mathlib.Core.List.{foldl, map}
use os_x_voodoo_ps2_controll.Base.{
  ℕ, zero, suc, ◌≤◌, ◌≡◌, ◌∙◌, ap, refl, sym, arith, Bool, true, false, ◌&&◌, List, [], ◌∷◌, ◌++◌,
  ◌↔◌, ◌==◌, length, take, get_or,
}
use os_x_voodoo_ps2_controll.Device.{Kernel}
use os_x_voodoo_ps2_controll.Keyboard.Macros.{
  Macros, compare_macro, dispatch_packets, dispatch_invert_buffer,
}

-- The two bytes of key data of a packet, and a sequence of them as it stands in a macro.
abbrev pub packet_key : List ℕ → ℕ × ℕ
packet_key p = (get_or p 0 0, get_or p 1 0)

pub sequence : List (ℕ × ℕ) → List ℕ
sequence [] = []
sequence ((a, b) ∷ keys) = a ∷ b ∷ sequence keys

pub same_keys : List (List ℕ) → List (ℕ × ℕ) → Bool
same_keys [] keys = true
same_keys (p ∷ ps) [] = false
same_keys (p ∷ ps) ((a, b) ∷ keys) = get_or p 0 0 == a && get_or p 1 0 == b && same_keys ps keys

compare-same :
    (ps : List (List ℕ)) (keys : List (ℕ × ℕ)) (rest : List ℕ)
    → length ps ≡ length keys
    → compare_macro ps (sequence keys ++ rest) (length ps) ≡ same_keys ps keys
unfolding compare_macro sequence same_keys
compare-same [] keys rest h = refl
compare-same (p ∷ ps) [] rest h = absurd (omega arith)
compare-same (p ∷ ps) ((a, b) ∷ keys) rest h =
    ground (arith, compare-same ps keys rest (omega arith))

same_keys_refl : (ps : List (List ℕ)) → same_keys ps (map packet_key ps) ≡ true
unfolding same_keys
same_keys_refl [] = refl
same_keys_refl (p ∷ ps) = ground (arith, same_keys_refl ps)

same_keys-eq :
    (ps : List (List ℕ)) (keys : List (ℕ × ℕ))
    → length ps ≡ length keys
    → same_keys ps keys ≡ true
    → map packet_key ps ≡ keys
unfolding same_keys
same_keys-eq [] [] h e = refl
same_keys-eq [] (x ∷ keys) h e = absurd (omega arith)
same_keys-eq (p ∷ ps) [] h e = absurd (omega arith)
same_keys-eq (p ∷ ps) ((a, b) ∷ keys) h e = ground (arith, e, same_keys-eq ps keys (omega arith))

-- Comparing as many packets as the sequence has keys, whatever follows it in the macro, succeeds
-- exactly if the packets carry these keys in order.
pub compare_macro_lem :
    (ps : List (List ℕ)) (keys : List (ℕ × ℕ)) (rest : List ℕ)
    → length ps ≡ length keys
    → (compare_macro ps (sequence keys ++ rest) (length ps) ≡ true) ↔ (map packet_key ps ≡ keys)
compare_macro_lem ps keys rest h = (
  (λ e. same_keys-eq ps keys h (sym (compare-same ps keys rest h) ∙ e)),
  (λ e. compare-same ps keys rest h ∙ ap (same_keys ps) (sym e) ∙ same_keys_refl ps),
)

module _ {D : Type 0} (k : Kernel) (dispatch : List ℕ → D → D) (modifiers : D → ℕ) where
  dispatch_packets-fold :
      (n : ℕ) (buffer : List (List ℕ)) (d : D)
      → n ≤ length buffer
      → dispatch_packets k dispatch modifiers n buffer d
        ≡ foldl (λ d p. dispatch p d) d (take n buffer)
  unfolding dispatch_packets
  dispatch_packets-fold zero buffer d h = refl
  dispatch_packets-fold (suc n) [] d h = absurd (omega arith)
  dispatch_packets-fold (suc n) (p ∷ ps) d h =
      dispatch_packets-fold n ps (dispatch p d) (omega arith)

  -- Giving up on a macro dispatches the packets that were held back, no more than the buffer has,
  -- each once and in order, and leaves none behind.
  pub dispatch_invert_buffer_lem :
      (s : Macros D)
      → s.macro_current ≤ length s.macro_buffer
      → ((dispatch_invert_buffer k dispatch modifiers s).driver
          ≡ foldl (λ d p. dispatch p d) s.driver (take s.macro_current s.macro_buffer))
        × ((dispatch_invert_buffer k dispatch modifiers s).macro_current ≡ 0)
  unfolding dispatch_invert_buffer
  dispatch_invert_buffer_lem s h =
      (dispatch_packets-fold s.macro_current s.macro_buffer s.driver h, refl)
