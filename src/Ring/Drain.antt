-- ===== src/Ring/Drain.antt =====
-- The loop of every driver's packetReady: it handles the packet at tail() and advances the tail
-- until fewer than a packet's elements are left.
use mathlib.Core.List.{flatten, foldl}
use os_x_voodoo_ps2_controll.Base.{
  append-nil, ℕ, zero, suc, ◌+◌, ◌≤◌, ◌<◌, ◌≡◌, ◌∙◌, ap, refl, sym, arith, List, [], ◌∷◌, ◌++◌, inl,
  inr, true, false, leb, Bool-cases, nil_of_length, length, drop, length-append, length-take,
  length-drop, leb→le,
}
use os_x_voodoo_ps2_controll.Ring.{Ring, count, advance_tail}
use os_x_voodoo_ps2_controll.Ring.Valid.{contents, count-eq-length}
use os_x_voodoo_ps2_controll.Ring.Packets.{front, contents-front}
use os_x_voodoo_ps2_controll.Ring.Aligned.{
  Aligned, Aligned-HasSlots, Aligned-count, advance_tail-Aligned,
}

-- Every packet has `move` elements.
abbrev pub AllOfSize {ℓ} : {A : Type ℓ} → ℕ → List (List A) → Type 0
AllOfSize move [] = Unit {0}
AllOfSize move (p ∷ ps) = (length p ≡ move) × AllOfSize move ps

module _ {A : Type 0} {n move : ℕ} {r : Ring A} (a : Aligned n move r) (h : move ≤ count n r) where
  pub length-front : length (front move r) ≡ move
  length-front =
      let v = Aligned-HasSlots a in
      omega (
        arith,
        length-take move (drop r.tail r.buffer),
        length-drop r.tail r.buffer,
        v.tail_slot,
        v.valid.fits,
      )

  pub count-advance_tail : count n (advance_tail n move r) + move ≡ count n r
  count-advance_tail = omega (
    arith,
    count-eq-length n r a.valid,
    count-eq-length n (advance_tail n move r) (advance_tail-Aligned a).valid,
    ap length (contents-front n move r (Aligned-HasSlots a) a.some_size h),
    length-append (front move r) (contents (advance_tail n move r)),
    length-front,
  )

module _ {A S : Type 0} (n move : ℕ) (handle : List A → S → S) where
  unfoldable pub drain : ℕ → Ring A → S → Ring A × S
  drain zero r s = (r, s)
  drain (suc fuel) r s = elim (leb move (count n r)) [
    | true ↦ drain fuel (advance_tail n move r) (handle (front move r) s)
    | false ↦ (r, s)
  ]

  -- What the loop has done: the packets that were stored, each handled once and in order, and an
  -- empty ring.
  pub record Drained (r : Ring A) (s : S) (out : Ring A × S) : Type 0 where
    pub packets : List (List A)
    pub sizes : AllOfSize move packets
    pub stored : contents r ≡ flatten packets
    pub handled : out.1 ≡ foldl (λ t p. handle p t) s packets
    pub empty : count n out.0 ≡ 0
    pub aligned : Aligned n move out.0

  stopped : {r : Ring A} {s : S} → Aligned n move r → count n r ≡ 0 → Drained r s (r, s)
  unfolding flatten
  stopped {r} {s} a h = record {
    packets = [];
    sizes = tt;
    stored = nil_of_length (contents r) (omega (arith, count-eq-length n r a.valid));
    handled = refl;
    empty = h;
    aligned = a;
  }

  -- On an aligned ring, with as many rounds as there are elements stored, the loop handles every
  -- packet, once and in order, and ends with an empty ring.
  pub drain-Drained :
      (fuel : ℕ) (r : Ring A) (s : S)
      → Aligned n move r
      → count n r ≤ fuel
      → Drained r s (drain fuel r s)
  unfolding drain flatten
  drain-Drained zero r s a h = stopped a (omega arith)
  drain-Drained (suc fuel) r s a h = elim (Bool-cases (leb move (count n r))) [
    | inl e ↦
        let le : move ≤ count n r = leb→le _ _ e in
        let d =
          drain-Drained fuel (advance_tail n move r) (handle (front move r) s)
            (advance_tail-Aligned a) (omega (arith, count-advance_tail a le, a.some_size)) in
        rw (e, drain)
          (record {
            packets = front move r ∷ d.packets;
            sizes = (length-front a le, d.sizes);
            stored =
                contents-front n move r (Aligned-HasSlots a) a.some_size le
                ∙ ap (λ l. front move r ++ l) d.stored;
            handled = d.handled;
            empty = d.empty;
            aligned = d.aligned;
          })
    | inr e ↦ rw (e, drain) (stopped a (ground (arith, Aligned-count a, e)))
  ]

-- One packet's elements make up one packet.
pub single_packet :
    {A : Type 0} (move : ℕ) (ps : List (List A)) (p : List A)
    → 0 < move
    → length p ≡ move
    → AllOfSize move ps
    → p ≡ flatten ps
    → ps ≡ p ∷ []
unfolding flatten
single_packet move [] p pos size all e = absurd (omega (arith, ap length e))
single_packet move (q ∷ []) p pos size all e = ap (λ l. l ∷ []) (sym (e ∙ append-nil q))
single_packet move (q ∷ q' ∷ ps) p pos size all e = absurd (
    omega (
      arith,
      ap length e,
      length-append q (q' ++ flatten ps),
      length-append q' (flatten ps),
      all.0,
      all.1.0,
    ))
