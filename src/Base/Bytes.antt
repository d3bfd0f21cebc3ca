-- ===== src/Base/Bytes.antt =====
-- Facts about bytes, checked for every value.
use Prim.Native.Nat.{ℕ, zero, suc, ◌<◌, bit_and, bit_or, bit_and-bitwise, bit_or-bitwise}
use mathlib.Core.Path.{◌≡◌}
use mathlib.Core.Bool.{Bool, true, ◌&&◌}
use native.Mathlib.Omega.{arith}

unfoldable pub every_below : ℕ → (ℕ → Bool) → Bool
every_below zero test = true
every_below (suc k) test = every_below k test && test k

pub every-test : (test : ℕ → Bool) (k b : ℕ) → b < k → every_below k test ≡ true → test b ≡ true
unfolding every_below
every-test test (suc k) b lt t = ground (arith, every-test test k b)
every-test test zero b lt t = absurd (omega arith)

pub none-bit_and : (mask : ℕ) → bit_and 0 mask ≡ 0
none-bit_and mask = bit_and-bitwise 0 mask

pub none-bit_or : (mask : ℕ) → bit_or 0 mask ≡ mask
none-bit_or mask = bit_or-bitwise 0 mask

-- A statement about every byte.
pub byte_table : (test : ℕ → Bool) → every_below 256 test ≡ true → (b : ℕ) → b < 256 → test b ≡ true
byte_table test t b lt = every-test test 256 b lt t
