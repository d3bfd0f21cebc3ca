-- ===== src/Ring/Tests.antt =====
-- The ring at work: six elements in slots of two.
use os_x_voodoo_ps2_controll.Base.{
  ℕ, ◌+◌, ◌≡◌, refl, arith, some, List, [], ◌∷◌, ◌++◌, replicate, if◌then◌else◌, ltb,
}
use os_x_voodoo_ps2_controll.Ring.{Ring, span, count, push, fetch}
use os_x_voodoo_ps2_controll.Ring.Valid.{contents}
use os_x_voodoo_ps2_controll.Ring.Aligned.{Aligned}
use os_x_voodoo_ps2_controll.Ring.Queue.{contents-push, contents-fetch}
use os_x_voodoo_ps2_controll.Ring.Drain.{drain, Drained, drain-Drained}
use os_x_voodoo_ps2_controll.Ring.History.{
  Event, write, publish, consume, History, run, IsFifo, run-IsFifo,
}

abbrev empty_ring : Ring ℕ
empty_ring = record { buffer = replicate 6 0; head = 0; tail = 0 }

-- Two elements are stored, and the next slot is written.
abbrev half_full : Ring ℕ
half_full = record { buffer = 7 ∷ 8 ∷ 5 ∷ 6 ∷ 0 ∷ 0 ∷ []; head = 2; tail = 0 }

empty-Aligned : Aligned 6 2 empty_ring
empty-Aligned = record {
  valid = record { fits = refl; head_in = omega arith; tail_in = omega arith; small = omega arith };
  some_size = omega arith;
  size = refl;
  head_at = refl;
  tail_at = refl;
}

half-Aligned : Aligned 6 2 half_full
half-Aligned = record {
  valid = record { fits = refl; head_in = omega arith; tail_in = omega arith; small = omega arith };
  some_size = omega arith;
  size = refl;
  head_at = refl;
  tail_at = refl;
}

half-count : count 6 half_full ≡ 2
unfolding count span
half-count = refl

abbrev start : History ℕ
start = record { ring = empty_ring; accepted = []; delivered = [] }

abbrev schedule : List (Event ℕ)
schedule = write 0 7 ∷ write 1 8 ∷ publish ∷ write 0 5 ∷ consume ∷ write 1 6 ∷ publish ∷ []

run_example : IsFifo 6 2 (run 6 2 schedule start)
run_example =
    run-IsFifo 6 2 schedule start (omega arith, (omega arith, (omega arith, (omega arith, tt))))
      (record { aligned = empty-Aligned; in_order = refl })

push_example :
    contents (push 6 9 half_full)
    ≡ (if ltb (count 6 half_full + 1) 6 then contents half_full ++ 9 ∷ [] else contents half_full)
push_example = contents-push 6 half_full 9 half-Aligned.valid

fetch_example :
    (x : ℕ) × ((fetch 6 half_full).0 ≡ some x)
    × (contents half_full ≡ x ∷ contents (fetch 6 half_full).1)
fetch_example = contents-fetch 6 half_full half-Aligned.valid (omega (arith, half-count))

abbrev collect : List ℕ → List (List ℕ) → List (List ℕ)
collect packet packets = packets ++ packet ∷ []

drain_example : Drained 6 2 collect half_full [] (drain 6 2 collect 2 half_full [])
drain_example = drain-Drained 6 2 collect 2 half_full [] half-Aligned (omega (arith, half-count))
