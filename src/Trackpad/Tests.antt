-- ===== src/Trackpad/Tests.antt =====
-- The trackpad drivers at work.
use os_x_voodoo_ps2_controll.Base.{◌≡◌, refl, arith, [], ◌∷◌}
use os_x_voodoo_ps2_controll.Base.Int.{negsuc, ◌+ℤ◌, pos}
use os_x_voodoo_ps2_controll.Base.Int32.{wrap_int}
use os_x_voodoo_ps2_controll.Trackpad.Averages.{
  Average, filter, average, newest, total, IsSum, filter-IsSum,
}

-- Three of five values are kept.
abbrev three_values : Average
three_values = record {
  buffer = pos 4 ∷ negsuc 1 ∷ pos 7 ∷ pos 0 ∷ pos 0 ∷ [];
  kept = 3;
  sum = pos 9;
  index = 3;
}

three_values-IsSum : IsSum 5 three_values
unfolding total ◌+ℤ◌ wrap_int
three_values-IsSum = record {
  size = refl;
  some_size = omega arith;
  place = omega arith;
  filled = omega arith;
  filling = λ _. refl;
  sum_of = refl;
}

average_example :
    IsSum 5 (filter 5 (pos 6) three_values).1
    × ((filter 5 (pos 6) three_values).0 ≡ average (filter 5 (pos 6) three_values).1)
    × (newest (filter 5 (pos 6) three_values).1 ≡ pos 6)
average_example = filter-IsSum 5 (pos 6) three_values three_values-IsSum
