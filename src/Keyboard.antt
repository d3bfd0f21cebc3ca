-- ===== src/Keyboard.antt =====
-- ApplePS2Keyboard (VoodooPS2Keyboard/VoodooPS2Keyboard.cpp and .h): the interrupt routine and its
-- packets. A packet has two bytes of key data, six bytes that are not used, and the time.
pub mod Held
pub mod Packets
pub mod Macros
pub mod Values
pub mod Announce
pub mod Parse
pub mod Tables
pub mod Events
pub mod Levels
pub mod Dispatch
pub mod Messages
mod Tests
use os_x_voodoo_ps2_controll.Base.{
  ℕ, zero, suc, ◌+◌, ◌-◌, ◌*◌, ◌/◌, ◌%◌, ◌^◌, Bool, true, false, not, ◌&&◌, ◌||◌, List, [], ◌∷◌,
  ◌==◌, ◌!=◌, if◌then◌else◌, bit_and, bit_or, get_or, set,
}
use os_x_voodoo_ps2_controll.Device.{
  InterruptResult, packet_ready, packet_buffering, sc_reset, sc_acknowledge, sc_resend, sc_extend,
  sc_pause, sc_up_bit,
}
use os_x_voodoo_ps2_controll.Ring.{Ring, poke, advance_head}

abbrev pub packet_length : ℕ
packet_length = 2 + 6 + 8

abbrev pub packet_time_offset : ℕ
packet_time_offset = 8

-- The N of `RingBuffer<UInt8, kPacketLength*32>`.
abbrev pub ring_size : ℕ
ring_size = packet_length * 32

abbrev pub breakless_key : ℕ
breakless_key = 0x01

-- The members that the interrupt routine uses; `clock_reads` counts the readings of the clock.
pub record Keyboard : Type 0 where
  pub ring : Ring ℕ
  pub last_data : ℕ
  pub extend_count : ℕ
  -- 16 units of 32 bits.
  pub key_bit_vector : List ℕ
  pub ps2_flags : List ℕ
  pub clock_reads : ℕ

-- KBV_IS_KEYDOWN, KBV_KEYDOWN and KBV_KEYUP
abbrev pub is_key_down : ℕ → List ℕ → Bool
is_key_down key units = bit_and (get_or units (key / 32) 0) (2 ^ (key % 32)) != 0

abbrev pub key_down : ℕ → List ℕ → List ℕ
key_down key units = set units (key / 32) (bit_or (get_or units (key / 32) 0) (2 ^ (key % 32)))

abbrev pub key_up : ℕ → List ℕ → List ℕ
key_up key units =
    set units (key / 32) (bit_and (get_or units (key / 32) 0) (0xffff_ffff - 2 ^ (key % 32)))

-- The `n` bytes of a value, lowest first, written from index `i` of the slot at the head on.
unfoldable pub poke_value : ℕ → ℕ → ℕ → Ring ℕ → Ring ℕ
poke_value zero i x r = r
poke_value (suc n) i x r = poke_value n (i + 1) (x / 256) (poke r i (x % 256))

-- "packet[0] = first; packet[1] = second;", the timestamp and the advance of the head.
abbrev pub publish : ℕ → ℕ → ℕ → Ring ℕ → Ring ℕ
publish now first second r =
    advance_head ring_size packet_length
      (poke_value 8 packet_time_offset now (poke (poke r 0 first) 1 second))

-- The key that a scan code is of: `keyCodeRaw`.
abbrev pub raw_key : ℕ → ℕ → ℕ
raw_key extended x = extended * 256 + bit_and x (255 - sc_up_bit)

module _ (uptime : ℕ → ℕ) where
  abbrev pub announce : ℕ → ℕ → Keyboard → InterruptResult × Keyboard
  announce first second k = (
    packet_ready,
    record k {
      ring = publish (uptime k.clock_reads) first second k.ring;
      clock_reads = k.clock_reads + 1;
    },
  )

  -- "non-repeat make, or just break found, buffer it and dispatch"
  unfoldable pub key_data : ℕ → ℕ → Keyboard → InterruptResult × Keyboard
  key_data extended x k =
      let key = raw_key extended x in
      let units = k.key_bit_vector in
      if bit_and (get_or k.ps2_flags key 0) breakless_key != 0
      then announce (extended + 1) x k
      else if bit_and x sc_up_bit != 0
      then announce (extended + 1) x (record k { key_bit_vector = key_up key units })
      else if is_key_down key units
      then (packet_buffering, k)
      else announce (extended + 1) x (record k { key_bit_vector = key_down key units })

  unfoldable pub interrupt_occurred : ℕ → Keyboard → InterruptResult × Keyboard
  unfolding key_data
  interrupt_occurred x k =
      if k.last_data == sc_reset && x == 0
      then announce 0 sc_reset (record k { extend_count = 0 })
      else let k' : Keyboard = record k { last_data = x } in
        if x == sc_acknowledge || x == sc_resend
        then (packet_buffering, k')
        else if x == sc_extend
        then (packet_buffering, record k' { extend_count = 1 })
        else if x == sc_pause
        then (packet_buffering, record k' { extend_count = 2 })
        else if k.extend_count == 0 || k.extend_count == 1
        then key_data k.extend_count x (record k' { extend_count = 0 })
        else (packet_buffering, record k' { extend_count = k.extend_count - 1 })
