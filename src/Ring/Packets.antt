-- ===== src/Ring/Packets.antt =====
-- The way the drivers use RingBuffer: bytes are written through head() into a slot of `move`
-- elements, advanceHead publishes the slot, and the work loop reads a slot through tail().
use os_x_voodoo_ps2_controll.Base.{
  ℕ, suc, ◌+◌, ◌-◌, ◌≤◌, ◌<◌, ◌≡◌, ◌∙◌, ap, refl, sym, List, [], ◌∷◌, ◌++◌, arith, ltb,
  if◌then◌else◌, set, take, drop, length, length-drop, length-take, take-suc-set, take-all,
  take-add, drop-drop, drop-set_above, drop-set, take-set_below, take-set, append-nil, append_assoc,
}
use os_x_voodoo_ps2_controll.Ring.{Ring, span, count, advance_head, advance_tail, poke}
use os_x_voodoo_ps2_controll.Ring.Valid.{IsValid, contents, stored-front}

-- The slot that head() points to, and the packet that tail() points to.
abbrev pub slot {ℓ} : {A : Type ℓ} → ℕ → Ring A → List A
slot move r = take move (drop r.head r.buffer)

abbrev pub front {ℓ} : {A : Type ℓ} → ℕ → Ring A → List A
front move r = take move (drop r.tail r.buffer)

-- Both positions are at the start of a slot, and the slot at the head is free.
pub record HasSlots {ℓ} {A : Type ℓ} (n move : ℕ) (r : Ring A) : Type ℓ where
  pub valid : IsValid n r
  pub head_slot : r.head + move ≤ n
  pub tail_slot : r.tail + move ≤ n
  pub free : count n r + move ≤ n

module _ {A : Type 0} (b : List A) (n h t move : ℕ) (fits : length b ≡ n) where
  take-slot_up :
      t ≤ h → take (h + move - t) (drop t b) ≡ take (h - t) (drop t b) ++ take move (drop h b)
  take-slot_up le =
      ap (λ k. take k (drop t b)) {x = h + move - t} {y = (h - t) + move} (omega arith)
      ∙ take-add (h - t) move (drop t b)
      ∙ ap (λ l. take (h - t) (drop t b) ++ take move l) (drop-drop (h - t) t b)
      ∙ ap (λ k. take (h - t) (drop t b) ++ take move (drop k b)) {x = t + (h - t)} {y = h}
          (omega arith)

  take-slot_end : t ≤ h → h + move ≡ n → drop t b ≡ take (h - t) (drop t b) ++ take move (drop h b)
  take-slot_end le e =
      sym (take-all (h + move - t) (drop t b) (omega (arith, length-drop t b))) ∙ take-slot_up le

  take-slot_down : drop t b ++ take (h + move) b ≡ (drop t b ++ take h b) ++ take move (drop h b)
  take-slot_down =
      ap (λ l. drop t b ++ l) (take-add h move b)
      ∙ sym (append_assoc (drop t b) (take h b) (take move (drop h b)))

-- Between `r` and `r'` the packet `p` was appended, if there was room for it.
abbrev pub Publishes {ℓ} : {A : Type ℓ} → ℕ → ℕ → List A → Ring A → Ring A → Type ℓ
Publishes n move p r r' =
    contents r' ≡ (if ltb (count n r + move) n then contents r ++ p else contents r)

module _ {A : Type 0} (n move : ℕ) (r : Ring A) where
  pub count-poke : (i : ℕ) (x : A) → count n (poke r i x) ≡ count n r
  unfolding poke count
  count-poke i x = refl

  -- On a ring with whole slots, advanceHead publishes the slot at the head, unless that would fill
  -- the buffer up: then it changes nothing that is stored.
  pub contents-advance_head :
      HasSlots n move r
      → contents (advance_head n move r)
        ≡ (if ltb (count n r + move) n then contents r ++ slot move r else contents r)
  unfolding advance_head span count
  contents-advance_head v = ground (
    arith,
    take-slot_up r.buffer n r.head r.tail move,
    take-slot_end r.buffer n r.head r.tail move,
    take-slot_down r.buffer n r.head r.tail move,
    append-nil (drop r.tail r.buffer),
  )

  -- Bytes written through head() are not yet stored: they go into the slot.
  pub contents-poke :
      (i : ℕ) (x : A) → HasSlots n move r → i < move → contents (poke r i x) ≡ contents r
  unfolding poke span count
  contents-poke i x v h = ground (
    arith,
    below,
    drop-set_above r.buffer r.tail (r.head + i) x,
    take-set_below r.buffer r.head (r.head + i) x,
  )
    where
      below :
          r.tail ≤ r.head
          → take (r.head - r.tail) (drop r.tail (set r.buffer (r.head + i) x))
            ≡ take (r.head - r.tail) (drop r.tail r.buffer)
      below le =
          ap (λ k. take (r.head - r.tail) (drop r.tail (set r.buffer k x))) {x = r.head + i}
            {y = r.tail + (r.head - r.tail + i)} (omega arith)
          ∙ ap (take (r.head - r.tail)) (drop-set r.buffer r.tail (r.head - r.tail + i) x)
          ∙ take-set_below (drop r.tail r.buffer) (r.head - r.tail) (r.head - r.tail + i) x
              (omega arith)

  pub slot-poke : (i : ℕ) (x : A) → i < move → slot move (poke r i x) ≡ set (slot move r) i x
  unfolding poke
  slot-poke i x h =
      ap (take move) (drop-set r.buffer r.head i x) ∙ take-set (drop r.head r.buffer) move i x h

  pub length-slot : HasSlots n move r → length (slot move r) ≡ move
  length-slot v = omega (
    arith,
    length-take move (drop r.head r.buffer),
    length-drop r.head r.buffer,
    v.head_slot,
    v.valid.fits,
  )

  -- A byte written behind `i` others extends what the slot holds by it.
  pub prefix-poke :
      (i : ℕ) (x : A)
      → HasSlots n move r
      → i < move
      → take (suc i) (slot move (poke r i x)) ≡ take i (slot move r) ++ x ∷ []
  prefix-poke i x v h =
      ap (take (suc i)) (slot-poke i x h)
      ∙ take-suc-set (slot move r) i x (omega (arith, length-slot v))

  -- The packet at tail() is the oldest one, and advanceTail takes it off.
  pub contents-front :
      HasSlots n move r
      → 0 < move
      → move ≤ count n r
      → contents r ≡ front move r ++ contents (advance_tail n move r)
  unfolding advance_tail span count
  contents-front v pos h = ground (arith, stored-front r.buffer n r.head r.tail move)

module _ {A : Type 0} (n move : ℕ) (r : Ring A) where
  -- Writing a byte and advancing publishes the slot with that byte.
  pub poke-Publishes :
      (i : ℕ) (x : A)
      → HasSlots n move r
      → HasSlots n move (poke r i x)
      → i < move
      → Publishes n move (slot move (poke r i x)) r (advance_head n move (poke r i x))
  poke-Publishes i x v w h = ground (
    arith,
    contents-advance_head n move (poke r i x) w,
    contents-poke n move r i x v h,
    count-poke n move r i x,
  )
