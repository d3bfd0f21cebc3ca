-- ===== src/Trackpad/Gestures/Parse/Layout.antt =====
-- The layout of a packet in absolute mode, as the comment in dispatchEventsWithPacket draws it.
use os_x_voodoo_ps2_controll.Base.{
  ℕ, ◌+◌, ◌*◌, ◌/◌, ◌%◌, ◌<◌, ◌≡◌, ◌∙◌, refl, arith, Bool, true, ◌&&◌, List, [], ◌∷◌, ◌==◌, bit_and,
  bit_or,
}
use os_x_voodoo_ps2_controll.Base.Bytes.{every_below, every-test, byte_table}
use os_x_voodoo_ps2_controll.Trackpad.Gestures.Parse.{width_of, x_of, y_of}

-- A touch with the width `w`, the coordinates and the pressure, and the two pairs of buttons.
abbrev pub layout : ℕ → ℕ → ℕ → ℕ → ℕ → ℕ → List ℕ
layout w x y z rl rd =
    (0x80 + w / 4 % 4 * 16 + w / 2 % 2 * 4 + rl)
    ∷ (y / 256 % 16 * 16 + x / 256 % 16)
    ∷ z
    ∷ (0xc0 + y / 4096 % 2 * 32 + x / 4096 % 2 * 16 + w % 2 * 4 + rd)
    ∷ x % 256
    ∷ y % 256
    ∷ []

abbrev field_test : ℕ → Bool
field_test b =
    bit_and b 0x0f == b % 16
    && bit_and b 0xf0 == b / 16 * 16
    && bit_and b 0x10 == b / 16 % 2 * 16
    && bit_and b 0x20 == b / 32 % 2 * 32
    && bit_and b 0x04 == b / 4 % 2 * 4
    && bit_and b 0x30 == b / 16 % 4 * 16

field_table : every_below 256 field_test ≡ true
unfolding every_below
field_table = refl

abbrev joined : ℕ → ℕ
joined v = bit_or (bit_or (v % 256) (v / 256 % 16 * 256)) (v / 4096 % 2 * 4096)

joined_table : every_below 8192 (λ v. joined v == v) ≡ true
unfolding every_below
joined_table = refl

abbrev width : ℕ → ℕ
width w = bit_or (bit_or (w % 2) (w / 2 % 2 * 2)) (w / 4 % 4 * 4)

width_table : every_below 16 (λ w. width w == w) ≡ true
unfolding every_below
width_table = refl

-- The fields of a byte.
record Fields (b : ℕ) : Type 0 where
  low : bit_and b 0x0f ≡ b % 16
  high : bit_and b 0xf0 ≡ b / 16 * 16
  bit4 : bit_and b 0x10 ≡ b / 16 % 2 * 16
  bit5 : bit_and b 0x20 ≡ b / 32 % 2 * 32
  bit2 : bit_and b 0x04 ≡ b / 4 % 2 * 4
  bits45 : bit_and b 0x30 ≡ b / 16 % 4 * 16

fields : (b : ℕ) → b < 256 → Fields b
fields b h = ground (arith, byte_table field_test field_table b h)

abbrev byte0 : ℕ → ℕ → ℕ
byte0 w rl = 0x80 + w / 4 % 4 * 16 + w / 2 % 2 * 4 + rl

abbrev byte1 : ℕ → ℕ → ℕ
byte1 x y = y / 256 % 16 * 16 + x / 256 % 16

abbrev byte3 : ℕ → ℕ → ℕ → ℕ → ℕ
byte3 w x y rd = 0xc0 + y / 4096 % 2 * 32 + x / 4096 % 2 * 16 + w % 2 * 4 + rd

three :
    (a b c a' b' c' : ℕ)
    → a ≡ a'
    → b ≡ b'
    → c ≡ c'
    → bit_or (bit_or a b) c ≡ bit_or (bit_or a' b') c'
three a b c a' b' c' e f g = cc

-- A packet that is laid out as the comment draws it, of a width below 16 and coordinates of 13 bits,
-- is read as that width and these coordinates, whatever the buttons and the pressure are.
pub layout_lem :
    (w x y z rl rd : ℕ)
    → w < 16
    → x < 8192
    → y < 8192
    → rl < 4
    → rd < 4
    → (width_of (layout w x y z rl rd) ≡ w)
      × (x_of (layout w x y z rl rd) ≡ x)
      × (y_of (layout w x y z rl rd) ≡ y)
unfolding width_of x_of y_of
layout_lem w x y z rl rd hw hx hy hl hd =
    let f0 = fields (byte0 w rl) (omega arith) in
    let f1 = fields (byte1 x y) (omega arith) in
    let f3 = fields (byte3 w x y rd) (omega arith) in
    (
      three _ _ _ (w % 2) (w / 2 % 2 * 2) (w / 4 % 4 * 4) (omega (arith, f3.bit2))
            (omega (arith, f0.bit2)) (omega (arith, f0.bits45))
          ∙ ground (arith, every-test (λ v. width v == v) 16 w hw width_table),
      three _ _ _ (x % 256) (x / 256 % 16 * 256) (x / 4096 % 2 * 4096) refl (omega (arith, f1.low))
            (omega (arith, f3.bit4))
          ∙ ground (arith, every-test (λ v. joined v == v) 8192 x hx joined_table),
      three _ _ _ (y % 256) (y / 256 % 16 * 256) (y / 4096 % 2 * 4096) refl (omega (arith, f1.high))
            (omega (arith, f3.bit5))
          ∙ ground (arith, every-test (λ v. joined v == v) 8192 y hy joined_table),
    )
