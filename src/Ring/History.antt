-- ===== src/Ring/History.antt =====
-- A driver's interrupt routine and its work loop on one ring, in any interleaving. The routine
-- writes into the slot at the head and publishes it; the loop takes the packet at the tail.
use os_x_voodoo_ps2_controll.Base.{
  ℕ, ◌+◌, ◌<◌, ◌≡◌, ◌∙◌, ap, sym, arith, List, [], ◌∷◌, ◌++◌, inl, inr, leb, ◌==◌, if◌then◌else◌,
  Bool-cases, append_assoc, leb→le,
}
use os_x_voodoo_ps2_controll.Ring.{Ring, span, count, advance_head, advance_tail, poke}
use os_x_voodoo_ps2_controll.Ring.Valid.{contents}
use os_x_voodoo_ps2_controll.Ring.Packets.{
  slot, front, contents-front, contents-poke, contents-advance_head,
}
use os_x_voodoo_ps2_controll.Ring.Aligned.{
  Aligned, Aligned-HasSlots, poke-Aligned, advance_head-Aligned, advance_tail-Aligned,
}

pub data Event (A : Type 0) : Type 0 where
  write : ℕ → A → Event A
  publish : Event A
  consume : Event A

-- The ring, the elements of every slot that was published while there was room, and those of
-- every packet that was taken.
pub record History (A : Type 0) : Type 0 where
  pub ring : Ring A
  pub accepted : List A
  pub delivered : List A

module _ {A : Type 0} (n move : ℕ) where
  -- advanceHead reports nothing: the slot was accepted if the head has moved.
  pub publish_slot : History A → History A
  publish_slot h =
      let r = advance_head n move h.ring in
      record {
        ring = r;
        accepted = if r.head == h.ring.head then h.accepted else h.accepted ++ slot move h.ring;
        delivered = h.delivered;
      }

  pub take_packet : History A → History A
  take_packet h =
      if leb move (count n h.ring)
      then record {
        ring = advance_tail n move h.ring;
        accepted = h.accepted;
        delivered = h.delivered ++ front move h.ring;
      }
      else h

  pub step : Event A → History A → History A
  step (write i x) h = record h { ring = poke h.ring i x }
  step publish h = publish_slot h
  step consume h = take_packet h

  pub run : List (Event A) → History A → History A
  run [] h = h
  run (e ∷ es) h = run es (step e h)

-- Writes stay inside the slot.
abbrev pub InSlots : {A : Type 0} → ℕ → List (Event A) → Type 0
InSlots move [] = Unit {0}
InSlots move (write i x ∷ es) = (i < move) × InSlots move es
InSlots move (publish ∷ es) = InSlots move es
InSlots move (consume ∷ es) = InSlots move es

-- Nothing published is lost, repeated, changed or reordered.
pub record IsFifo {A : Type 0} (n move : ℕ) (h : History A) : Type 0 where
  pub aligned : Aligned n move h.ring
  pub in_order : h.accepted ≡ h.delivered ++ contents h.ring

module _ {A : Type 0} (n move : ℕ) where
  -- The head moves exactly when the slot is stored.
  head-advance_head :
      (r : Ring A)
      → Aligned n move r
      → ((advance_head n move r).head == r.head) ≡ leb n (count n r + move)
  unfolding advance_head span count
  head-advance_head r a =
      let v = Aligned-HasSlots a in
      ground (arith, a.some_size, v.valid, v.head_slot, v.tail_slot, v.free)

  write-IsFifo :
      (i : ℕ) (x : A) (h : History A)
      → i < move
      → IsFifo n move h
      → IsFifo n move (step n move (write i x) h)
  unfolding step
  write-IsFifo i x h lt f = record {
    aligned = poke-Aligned f.aligned i x;
    in_order =
        f.in_order
        ∙ ap (λ l. h.delivered ++ l)
            (sym (contents-poke n move h.ring i x (Aligned-HasSlots f.aligned) lt));
  }

  publish-IsFifo : (h : History A) → IsFifo n move h → IsFifo n move (publish_slot n move h)
  unfolding publish_slot
  publish-IsFifo h f = record {
    aligned = advance_head-Aligned f.aligned;
    in_order = ground (
      arith,
      f.in_order,
      contents-advance_head n move h.ring (Aligned-HasSlots f.aligned),
      head-advance_head h.ring f.aligned,
      append_assoc h.delivered (contents h.ring) (slot move h.ring),
    );
  }

  consume-IsFifo : (h : History A) → IsFifo n move h → IsFifo n move (take_packet n move h)
  unfolding take_packet
  consume-IsFifo h f = elim (Bool-cases (leb move (count n h.ring))) [
    | inl e ↦ rw e (record {
      aligned = advance_tail-Aligned f.aligned;
      in_order =
          f.in_order
          ∙ ap (λ l. h.delivered ++ l)
              (contents-front n move h.ring (Aligned-HasSlots f.aligned) f.aligned.some_size
                (leb→le _ _ e))
          ∙ sym (
              append_assoc h.delivered (front move h.ring) (contents (advance_tail n move h.ring)));
    })
    | inr e ↦ rw e f
  ]

  -- From a history that is in order, in every interleaving whose writes stay inside the slot, what
  -- the work loop has taken is a prefix of what was accepted, and the rest is still stored, in
  -- order.
  pub run-IsFifo :
      (es : List (Event A)) (h : History A)
      → InSlots move es
      → IsFifo n move h
      → IsFifo n move (run n move es h)
  unfolding run step
  run-IsFifo [] h w f = f
  run-IsFifo (write i x ∷ es) h w f =
      run-IsFifo es (step n move (write i x) h) w.1 (write-IsFifo i x h w.0 f)
  run-IsFifo (publish ∷ es) h w f = run-IsFifo es (publish_slot n move h) w (publish-IsFifo h f)
  run-IsFifo (consume ∷ es) h w f = run-IsFifo es (take_packet n move h) w (consume-IsFifo h f)
