-- ===== src/Keyboard/Held.antt =====
-- The key bit vector, which records the keys that are down, and what the interrupt routine makes of
-- a key that repeats.
use os_x_voodoo_ps2_controll.Base.{
  ℕ, ◌-◌, ◌/◌, ◌%◌, ◌^◌, ◌≤◌, ◌<◌, ◌≡◌, ap, refl, arith, Bool, true, false, not, ◌&&◌, ◌||◌, List,
  ltb, ◌==◌, ◌!=◌, if◌then◌else◌, bit_and, bit_or, length, get_or, set, get_or-set,
  get_or-set_other, length-set,
}
use os_x_voodoo_ps2_controll.Base.Bits.{bit, test-bit, bit-or, bit-and}
use os_x_voodoo_ps2_controll.Base.Bytes.{every_below, byte_table}
use os_x_voodoo_ps2_controll.Device.{
  InterruptResult, packet_ready, packet_buffering, sc_reset, sc_acknowledge, sc_resend, sc_extend,
  sc_pause, sc_up_bit,
}
use os_x_voodoo_ps2_controll.Keyboard.{
  Keyboard, is_key_down, key_down, key_up, raw_key, key_data, interrupt_occurred, breakless_key,
}

-- Whether a key is down is one bit of one unit.
down-bit :
    (key : ℕ) (units : List ℕ)
    → is_key_down key units ≡ (bit (key % 32) (get_or units (key / 32) 0) != 0)
down-bit key units = test-bit (key % 32) (get_or units (key / 32) 0)

same_key : (a b : ℕ) → a / 32 ≡ b / 32 → a % 32 ≡ b % 32 → a ≡ b
same_key a b e f = omega arith

-- Pressing a key marks that key alone.
pub key_down_lem :
    (a b : ℕ) (units : List ℕ)
    → length units ≡ 16
    → a < 512
    → is_key_down b (key_down a units) ≡ (if b == a then true else is_key_down b units)
key_down_lem a b units size h = ground (
  arith,
  down-bit b units,
  down-bit b (key_down a units),
  get_or-set units (a / 32) (bit_or (get_or units (a / 32) 0) (2 ^ (a % 32))) 0 (omega arith),
  get_or-set_other units (a / 32) (b / 32) (bit_or (get_or units (a / 32) 0) (2 ^ (a % 32))) 0,
  ap (λ u. get_or (set units (a / 32) (bit_or (get_or units (a / 32) 0) (2 ^ (a % 32)))) u 0)
      {x = b / 32} {y = a / 32},
  bit-or (b % 32) (a % 32) (get_or units (a / 32) 0),
)

pub key_up_lem :
    (a b : ℕ) (units : List ℕ)
    → length units ≡ 16
    → a < 512
    → is_key_down b (key_up a units) ≡ (if b == a then false else is_key_down b units)
key_up_lem a b units size h = ground (
  arith,
  down-bit b units,
  down-bit b (key_up a units),
  get_or-set units (a / 32) (bit_and (get_or units (a / 32) 0) (0xffff_ffff - 2 ^ (a % 32))) 0
      (omega arith),
  get_or-set_other units (a / 32) (b / 32)
      (bit_and (get_or units (a / 32) 0) (0xffff_ffff - 2 ^ (a % 32))) 0,
  ap
      (λ u.
        get_or (set units (a / 32) (bit_and (get_or units (a / 32) 0) (0xffff_ffff - 2 ^ (a % 32))))
          u 0)
      {x = b / 32} {y = a / 32},
  bit-and 32 (b % 32) (a % 32) (get_or units (a / 32) 0) (omega arith) (omega arith),
)

low_bits_table : every_below 256 (λ x. ltb (bit_and x 127) 128) ≡ true
unfolding every_below
low_bits_table = refl

pub raw_key-lt : (extended x : ℕ) → extended ≤ 1 → x < 256 → raw_key extended x < 512
raw_key-lt extended x h b = ground (arith, byte_table _ low_bits_table x b)

abbrev pub is_ready : InterruptResult → Bool
is_ready packet_ready = true
is_ready packet_buffering = false

-- A byte that is a scan code, in a state that takes it for the end of one.
pub record IsCode (x : ℕ) (k : Keyboard) : Type 0 where
  pub byte : x < 256
  pub no_reset : (k.last_data == sc_reset && x == 0) ≡ false
  pub ordinary : (x == sc_acknowledge || x == sc_resend || x == sc_extend || x == sc_pause) ≡ false
  pub extended : k.extend_count ≤ 1

-- A scan code of a key that generates break codes, outside the Pause sequence, makes a packet,
-- unless it is the make of a key that is down already; after it the key is down if it was a make
-- and up if it was a break, every other key is as it was, and the next byte starts a new code.
pub interrupt-held :
    (uptime : ℕ → ℕ) (x other : ℕ) (k : Keyboard)
    → IsCode x k
    → length k.key_bit_vector ≡ 16
    → bit_and (get_or k.ps2_flags (raw_key k.extend_count x) 0) breakless_key ≡ 0
    → (is_ready (interrupt_occurred uptime x k).0 ≡ (
        bit_and x sc_up_bit != 0 || not (is_key_down (raw_key k.extend_count x) k.key_bit_vector)))
      × (is_key_down other (interrupt_occurred uptime x k).1.key_bit_vector ≡ (
          if other == raw_key k.extend_count x
          then bit_and x sc_up_bit == 0
          else is_key_down other k.key_bit_vector))
      × ((interrupt_occurred uptime x k).1.extend_count ≡ 0)
unfolding interrupt_occurred key_data
interrupt-held uptime x other k c size breaks =
    let key = raw_key k.extend_count x in
    let lt = raw_key-lt k.extend_count x c.extended c.byte in
    ground (
      arith,
      c,
      key_down_lem key other k.key_bit_vector size lt,
      key_up_lem key other k.key_bit_vector size lt,
      ap (λ u. is_key_down u k.key_bit_vector) {x = other} {y = key},
    )

-- The vector keeps its size.
pub interrupt-size :
    (uptime : ℕ → ℕ) (x : ℕ) (k : Keyboard)
    → length (interrupt_occurred uptime x k).1.key_bit_vector ≡ length k.key_bit_vector
unfolding interrupt_occurred key_data
interrupt-size uptime x k =
    let key = raw_key k.extend_count x in
    let unit = get_or k.key_bit_vector (key / 32) 0 in
    ground (
      arith,
      length-set k.key_bit_vector (key / 32) (bit_or unit (2 ^ (key % 32))),
      length-set k.key_bit_vector (key / 32) (bit_and unit (0xffff_ffff - 2 ^ (key % 32))),
    )
