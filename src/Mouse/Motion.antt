-- ===== src/Mouse/Motion.antt =====
-- What the dispatch of a mouse packet makes of its bytes and of the driver's state.
use os_x_voodoo_ps2_controll.Base.{
  ℕ, ◌+◌, ◌-◌, ◌%◌, ◌≤◌, ◌<◌, ◌≡◌, refl, arith, true, ◌&&◌, ◌||◌, List, ltb, ◌==◌, if◌then◌else◌,
  bit_and, bit_or, take, get_or-take, not_u32, sub_u64,
}
use os_x_voodoo_ps2_controll.Base.Bytes.{every_below, byte_table}
use os_x_voodoo_ps2_controll.Base.Int.{pos, negsuc}
use os_x_voodoo_ps2_controll.Device.{Kernel}
use os_x_voodoo_ps2_controll.MiddleButton.Mouse.{middle_button}
use os_x_voodoo_ps2_controll.Mouse.{Dispatch, delta, wheel, mask_buttons, dispatch_relative}

-- The wheel's byte counts for its low four bits, read as a signed number.
pub wheel_lem :
    (b : ℕ) → b < 256 → wheel b ≡ (if ltb (b % 16) 8 then pos (b % 16) else negsuc (15 - b % 16))
wheel_lem b h = ground arith

or_table : every_below 256 (λ x. bit_or 0xffff_ff00 x == 0xffff_ff00 + x && bit_or 0 x == x) ≡ true
unfolding every_below
or_table = refl

pub sign_bits : (x : ℕ) → x < 256 → (bit_or 0xffff_ff00 x ≡ 0xffff_ff00 + x) × (bit_or 0 x ≡ x)
sign_bits x h = ground (
  arith,
  byte_table (λ x. bit_or 0xffff_ff00 x == 0xffff_ff00 + x && bit_or 0 x == x) or_table x h,
)

-- A delta is its byte, less 256 where the packet's sign bit is set.
pub delta_lem :
    (byte0 sign low : ℕ)
    → low < 256
    → delta byte0 sign low ≡ (if bit_and byte0 sign == 0 then pos low else negsuc (255 - low))
delta_lem byte0 sign low h = ground (arith, sign_bits low h)

mask_table :
    every_below 256 (λ x.
      bit_and (bit_and x (not_u32 (bit_and x 3))) 3 == 0
      && bit_and (bit_and x (not_u32 (bit_and x 3))) 0xfc == bit_and x 0xfc)
    ≡ true
unfolding every_below
mask_table = refl

-- Shortly after a key press, where the driver watches for typing, the left and right buttons are
-- reported as up and the others as they are.
pub mask_buttons-typing :
    (now_ns buttons : ℕ) (s : Dispatch)
    → buttons < 256
    → (s.palm_wt || s.outzone_wt) ≡ true
    → sub_u64 now_ns s.key_time ≤ s.max_after_typing
    → (bit_and (mask_buttons now_ns buttons s).0 3 ≡ 0)
      × (bit_and (mask_buttons now_ns buttons s).0 0xfc ≡ bit_and buttons 0xfc)
unfolding mask_buttons
mask_buttons-typing now_ns buttons s h watch typing = ground (
  arith,
  byte_table
      (λ x.
        bit_and (bit_and x (not_u32 (bit_and x 3))) 3 == 0
        && bit_and (bit_and x (not_u32 (bit_and x 3))) 0xfc == bit_and x 0xfc)
      mask_table buttons h,
)

module _ (k : Kernel) (packet_size : ℕ) (packet : List ℕ) (s : Dispatch) where
  -- A driver that is told to ignore its device sends nothing.
  pub dispatch_relative-ignored :
      s.emulator.ignore_all ≡ true
      → (dispatch_relative k packet_size packet s).emulator.events ≡ s.emulator.events
  unfolding dispatch_relative middle_button
  dispatch_relative-ignored h = ground arith

  -- Only the bytes of the packet count, not the padding of its slot.
  pub dispatch_relative-take :
      3 ≤ packet_size
      → dispatch_relative k packet_size (take packet_size packet) s
        ≡ dispatch_relative k packet_size packet s
  unfolding dispatch_relative
  dispatch_relative-take h = ground (
    arith,
    get_or-take packet_size 0 packet 0,
    get_or-take packet_size 1 packet 0,
    get_or-take packet_size 2 packet 0,
    get_or-take packet_size 3 packet 0,
  )
