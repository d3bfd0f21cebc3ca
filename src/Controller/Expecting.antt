-- ===== src/Controller/Expecting.antt =====
-- readDataPort(deviceType, expectedByte): the second chance for a response that asynchronous data
-- of the same device has overtaken.
use os_x_voodoo_ps2_controll.Base.{
  ℕ, zero, suc, ◌+◌, ◌-◌, ◌<◌, ◌≡◌, ◌≢◌, refl, arith, Bool, true, false, Option, none, some, ◌==◌,
  if◌then◌else◌,
}
use os_x_voodoo_ps2_controll.Controller.{
  Controller, Machine, DeviceType, other, next_byte, dispatch_driver_interrupt,
}
use os_x_voodoo_ps2_controll.Controller.Reading.{
  is_stream, timeout, Offers, Silent, next_byte-Offers, next_byte-Silent, dispatch-hardware,
}

module _ {S D : Type 0} (m : Machine S D) where
  -- `if (!_ignoreOutOfOrder) dispatchDriverInterrupt(...)`
  unfoldable pub hand_on : DeviceType → ℕ → Controller S D → Controller S D
  hand_on device x c =
      if c.ignore_out_of_order == 0 then dispatch_driver_interrupt m device x c else c

  -- The loop `while (1)`, with `firstByteHeld` and `firstByte` as an option.
  unfoldable pub expect_loop :
      ℕ → DeviceType → ℕ → Option ℕ → ℕ → Controller S D → Option (ℕ × Controller S D)
  expect_loop zero device expected held t c = none
  expect_loop (suc rounds) device expected held t c =
      let (found, c') = next_byte m t c in
      elim found [
        | none ↦ elim held [ none ↦ some (0, c') | some first ↦ some (first, c') ]
        | some (from_mouse, x, t') ↦ elim (is_stream device from_mouse) [
          | false ↦ expect_loop rounds device expected held t' (hand_on (other device) x c')
          | true ↦ elim (x == expected) [
            | true ↦ elim held [
              | none ↦ some (x, c')
              | some first ↦ some (x, hand_on device first c')
            ]
            | false ↦ elim held [
              | none ↦ expect_loop rounds device expected (some x) t' c'
              | some first ↦ some (first, hand_on device x c')
            ]
          ]
        ]
      ]

  unfoldable pub read_expected : ℕ → DeviceType → ℕ → Controller S D → Option (ℕ × Controller S D)
  read_expected rounds device expected c = expect_loop rounds device expected none timeout c

  module _ (device : DeviceType) (expected : ℕ) (from_mouse : Bool)
      (mine : is_stream device from_mouse ≡ true) where
    -- The byte that is expected comes first: it is answered.
    pub read_expected_first :
        (rounds k : ℕ) (s' : S) (c : Controller S D)
        → 0 < rounds
        → k < timeout
        → Offers m from_mouse k expected c.hardware s'
        → read_expected rounds device expected c ≡ some (expected, record c { hardware = s' })
    unfolding read_expected expect_loop
    read_expected_first zero k s' c r h o = absurd (omega arith)
    read_expected_first (suc rounds) k s' c r h o =
        ground (arith, next_byte-Offers m timeout c o refl h)

    -- Where out-of-order bytes are not ignored, one byte of the device overtakes the expected one
    -- and both come within the time limit: the expected byte is answered, and the other is given to
    -- the driver of the device.
    pub read_expected_second :
        (rounds k k' x : ℕ) (s₁ s' : S) (c : Controller S D)
        → 1 < rounds
        → k + k' < timeout
        → c.ignore_out_of_order ≡ 0
        → x ≢ expected
        → Offers m from_mouse k x c.hardware s₁
        → Offers m from_mouse k' expected s₁ s'
        → read_expected rounds device expected c
          ≡ some (expected, record (dispatch_driver_interrupt m device x c) { hardware = s' })
    unfolding read_expected expect_loop hand_on
    read_expected_second zero k k' x s₁ s' c r h i ne o o' = absurd (omega arith)
    read_expected_second (suc zero) k k' x s₁ s' c r h i ne o o' = absurd (omega arith)
    read_expected_second (suc (suc rounds)) k k' x s₁ s' c r h i ne o o' = ground (
      arith,
      next_byte-Offers m timeout c o refl (omega arith),
      next_byte-Offers m (timeout - k) (record c { hardware = s₁ }) o' refl (omega arith),
      dispatch-hardware m device x s' c,
    )

    -- Where out-of-order bytes are not ignored, two bytes of the device come within the time limit
    -- and are other than expected: the first is answered, which makes the command fail, and the
    -- second is given to the driver.
    pub read_expected_never :
        (rounds k k' x y : ℕ) (s₁ s' : S) (c : Controller S D)
        → 1 < rounds
        → k + k' < timeout
        → c.ignore_out_of_order ≡ 0
        → x ≢ expected
        → y ≢ expected
        → Offers m from_mouse k x c.hardware s₁
        → Offers m from_mouse k' y s₁ s'
        → read_expected rounds device expected c
          ≡ some (x, record (dispatch_driver_interrupt m device y c) { hardware = s' })
    unfolding read_expected expect_loop hand_on
    read_expected_never zero k k' x y s₁ s' c r h i ne ne' o o' = absurd (omega arith)
    read_expected_never (suc zero) k k' x y s₁ s' c r h i ne ne' o o' = absurd (omega arith)
    read_expected_never (suc (suc rounds)) k k' x y s₁ s' c r h i ne ne' o o' = ground (
      arith,
      next_byte-Offers m timeout c o refl (omega arith),
      next_byte-Offers m (timeout - k) (record c { hardware = s₁ }) o' refl (omega arith),
      dispatch-hardware m device y s' c,
    )

    -- A byte other than expected comes within the time limit, and then nothing: that byte is
    -- answered, and no driver sees it.
    pub read_expected-timeout :
        (rounds k x : ℕ) (s₁ s' : S) (c : Controller S D)
        → 1 < rounds
        → k < timeout
        → x ≢ expected
        → Offers m from_mouse k x c.hardware s₁
        → Silent m (timeout - k) s₁ s'
        → read_expected rounds device expected c ≡ some (x, record c { hardware = s' })
    unfolding read_expected expect_loop
    read_expected-timeout zero k x s₁ s' c r h ne o q = absurd (omega arith)
    read_expected-timeout (suc zero) k x s₁ s' c r h ne o q = absurd (omega arith)
    read_expected-timeout (suc (suc rounds)) k x s₁ s' c r h ne o q = ground (
      arith,
      next_byte-Offers m timeout c o refl h,
      next_byte-Silent m (timeout - k) (record c { hardware = s₁ }) q refl,
    )
