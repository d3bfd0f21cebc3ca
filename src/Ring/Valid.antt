-- ===== src/Ring/Valid.antt =====
-- The invariant of RingBuffer, and its operations against a bounded queue: `contents` lists the
-- stored elements from the tail to the head.
use os_x_voodoo_ps2_controll.Base.{
  ℕ, ◌+◌, ◌-◌, ◌≤◌, ◌<◌, ◌^◌, ◌≡◌, ◌∙◌, ap, List, ◌++◌, arith, leb, if◌then◌else◌, take, drop,
  length, length-set, length-take, length-drop, length-append, take-add, drop-drop, sym,
  take-append-drop, take-all, append_assoc,
}
use os_x_voodoo_ps2_controll.Ring.{Ring, span, count, push, fetch, advance_head, advance_tail, poke}

-- No sum of two positions wraps, and both positions lie in the array.
pub record IsValid {ℓ} {A : Type ℓ} (n : ℕ) (r : Ring A) : Type ℓ where
  pub fits : length r.buffer ≡ n
  pub head_in : r.head < n
  pub tail_in : r.tail < n
  pub small : n ≤ 2 ^ 31

module _ {ℓ} {A : Type ℓ} where
  -- The elements from position `tail` up to position `head`, going round at the end.
  abbrev pub stored : List A → ℕ → ℕ → List A
  stored buffer head tail =
      if leb tail head
      then take (head - tail) (drop tail buffer)
      else drop tail buffer ++ take head buffer

  abbrev pub contents : Ring A → List A
  contents r = stored r.buffer r.head r.tail

  pub count-eq-length : (n : ℕ) (r : Ring A) → IsValid n r → count n r ≡ length (contents r)
  unfolding count span
  count-eq-length n r v = ground (
    arith,
    length-append (drop r.tail r.buffer) (take r.head r.buffer),
    length-take (r.head - r.tail) (drop r.tail r.buffer),
    length-take r.head r.buffer,
    length-drop r.tail r.buffer,
  )

  pub count-lt : (n : ℕ) (r : Ring A) → IsValid n r → count n r < n
  unfolding count span
  count-lt n r v = ground arith

  pub push-IsValid : (n : ℕ) (x : A) (r : Ring A) → IsValid n r → IsValid n (push n x r)
  unfolding push
  push-IsValid n x r v = ground (arith, length-set r.buffer r.head x)

  pub fetch-IsValid : (n : ℕ) (r : Ring A) → IsValid n r → IsValid n (fetch n r).1
  unfolding fetch
  fetch-IsValid n r v = ground arith

  pub poke-IsValid : (n i : ℕ) (x : A) (r : Ring A) → IsValid n r → IsValid n (poke r i x)
  unfolding poke
  poke-IsValid n i x r v = ground (arith, length-set r.buffer (r.head + i) x)

  pub advance_head-IsValid :
      (n move : ℕ) (r : Ring A) → move ≤ n → IsValid n r → IsValid n (advance_head n move r)
  unfolding advance_head span
  advance_head-IsValid n move r h v = ground arith

  pub advance_tail-IsValid :
      (n move : ℕ) (r : Ring A) → move ≤ n → IsValid n r → IsValid n (advance_tail n move r)
  unfolding advance_tail
  advance_tail-IsValid n move r h v = ground arith

-- Moving the tail over `m` stored elements takes them off the front.
module _ {A : Type 0} (b : List A) (n h t m : ℕ) (fits : length b ≡ n) (t_slot : t + m ≤ n) where
  take-front :
      t + m ≤ h → take (h - t) (drop t b) ≡ take m (drop t b) ++ take (h - (t + m)) (drop (t + m) b)
  take-front le =
      ap (λ k. take k (drop t b)) {x = h - t} {y = m + (h - t - m)} (omega arith)
      ∙ take-add m (h - t - m) (drop t b)
      ∙ ap (λ l. take m (drop t b) ++ take (h - t - m) l) (drop-drop m t b)
      ∙ ap (λ k. take m (drop t b) ++ take k (drop (t + m) b)) {x = h - t - m} {y = h - (t + m)}
          (omega arith)

  drop-front : (l : List A) → drop t b ++ l ≡ take m (drop t b) ++ (drop (t + m) b ++ l)
  drop-front l =
      ap (λ k. k ++ l) (take-append-drop m (drop t b))
      ∙ append_assoc (take m (drop t b)) (drop m (drop t b)) l
      ∙ ap (λ k. take m (drop t b) ++ (k ++ l)) (drop-drop m t b)

  drop-front_end : (l : List A) → t + m ≡ n → drop t b ++ l ≡ take m (drop t b) ++ l
  drop-front_end l e =
      ap (λ k. k ++ l) (sym (take-all m (drop t b) (omega (arith, length-drop t b))))

  pub stored-front :
      h < n
      → 0 < m
      → (t ≤ h → t + m ≤ h)
      → stored b h t ≡ take m (drop t b) ++ stored b h (if leb n (t + m) then 0 else t + m)
  stored-front h_in pos room =
      ground (arith, take-front, drop-front (take h b), drop-front_end (take h b))
