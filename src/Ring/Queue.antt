-- ===== src/Ring/Queue.antt =====
-- push and fetch of RingBuffer against a queue of at most N - 1 elements.
use os_x_voodoo_ps2_controll.Base.{
  ℕ, suc, ◌+◌, ◌-◌, ◌≤◌, ◌<◌, ◌≡◌, ◌∙◌, ap, sym, List, [], ◌∷◌, ◌++◌, some, arith, ltb, leb,
  if◌then◌else◌, set, take, drop, length, length-drop, length-set, ◌≢◌, take-all, drop-set_above,
  drop-set, take-suc-set, get_elem?-eq-head, append-nil, append_assoc,
}
use os_x_voodoo_ps2_controll.Ring.{Ring, span, count, push, fetch}
use os_x_voodoo_ps2_controll.Ring.Valid.{IsValid, stored, contents, stored-front}

module _ {A : Type 0} (b : List A) (n h t : ℕ) (x : A) (fits : length b ≡ n) (h_in : h < n)
    (t_in : t < n) where
  stored-set_up : t ≤ h → take (suc h - t) (drop t (set b h x)) ≡ take (h - t) (drop t b) ++ x ∷ []
  stored-set_up le =
      ap (λ k. take (suc h - t) (drop t (set b k x))) {x = h} {y = t + (h - t)} (omega arith)
      ∙ ap (take (suc h - t)) (drop-set b t (h - t) x)
      ∙ ap (λ k. take k (set (drop t b) (h - t) x)) {x = suc h - t} {y = suc (h - t)} (omega arith)
      ∙ take-suc-set (drop t b) (h - t) x (omega (arith, length-drop t b))

  stored-set_end : t ≤ h → suc h ≡ n → drop t (set b h x) ≡ take (h - t) (drop t b) ++ x ∷ []
  stored-set_end le e =
      sym (
        take-all (suc h - t) (drop t (set b h x))
          (omega (arith, length-drop t (set b h x), length-set b h x)))
      ∙ stored-set_up le

  stored-set_down :
      h < t → drop t (set b h x) ++ take (suc h) (set b h x) ≡ (drop t b ++ take h b) ++ x ∷ []
  stored-set_down lt =
      ap (λ l. l ++ take (suc h) (set b h x)) (drop-set_above b t h x lt)
      ∙ ap (λ l. drop t b ++ l) (take-suc-set b h x (omega arith))
      ∙ sym (append_assoc (drop t b) (take h b) (x ∷ []))

  stored-push :
      h + 1 ≢ t
      → (h + 1 ≡ n → t ≢ 0)
      → stored (set b h x) (if leb n (h + 1) then 0 else h + 1) t ≡ stored b h t ++ x ∷ []
  stored-push ne ne0 =
      ground
        (arith, stored-set_up, stored-set_end, stored-set_down, append-nil (drop t (set b h x)))

module _ {A : Type 0} (n : ℕ) (r : Ring A) where
  -- On a valid ring a push appends its element, unless N - 1 elements are stored: then it changes
  -- nothing.
  pub contents-push :
      (x : A)
      → IsValid n r
      → contents (push n x r) ≡ (if ltb (count n r + 1) n then contents r ++ x ∷ [] else contents r)
  unfolding push count span
  contents-push x v = ground (arith, stored-push r.buffer n r.head r.tail x)

  -- From a valid ring that is not empty a fetch takes the oldest element.
  pub contents-fetch :
      IsValid n r
      → 0 < count n r
      → (x : A) × ((fetch n r).0 ≡ some x) × (contents r ≡ x ∷ contents (fetch n r).1)
  unfolding fetch count span
  contents-fetch v h =
      let (x, e, d) = get_elem?-eq-head r.buffer r.tail (omega arith) in
      (x, e, ground (arith, d, stored-front r.buffer n r.head r.tail 1))
