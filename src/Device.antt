-- ===== src/Device.antt =====
-- What the drivers share: the constants and result codes of VoodooPS2Controller/ApplePS2Device.h,
-- and the events that a pointing driver hands to the HID system.
use os_x_voodoo_ps2_controll.Base.{ℕ, Bool}
use os_x_voodoo_ps2_controll.Base.Int.{ℤ, to_i16}

-- enum PS2InterruptResult
pub data InterruptResult : Type 0 where
  packet_ready packet_buffering : InterruptResult

-- Scan codes used for special purposes.
abbrev pub sc_acknowledge : ℕ
sc_acknowledge = 0xfa

abbrev pub sc_extend : ℕ
sc_extend = 0xe0

abbrev pub sc_pause : ℕ
sc_pause = 0xe1

abbrev pub sc_resend : ℕ
sc_resend = 0xfe

abbrev pub sc_reset : ℕ
sc_reset = 0xaa

abbrev pub sc_up_bit : ℕ
sc_up_bit = 0x80

-- The calls of dispatchRelativePointerEventX and dispatchScrollWheelEventX, oldest first.
pub data PointerEvent : Type 0 where
  relative : ℤ → ℤ → ℕ → ℕ → PointerEvent
  scroll_wheel : ℤ → ℤ → ℤ → ℕ → PointerEvent

-- The scroll deltas are passed as `short`.
abbrev pub scroll_event : ℤ → ℤ → ℤ → ℕ → PointerEvent
scroll_event a b c now = scroll_wheel (to_i16 a) (to_i16 b) (to_i16 c) now

-- struct PS2KeyInfo
pub record KeyInfo : Type 0 where
  pub time : ℕ
  pub adb_key_code : ℕ
  pub going_down : Bool
  pub eat_key : Bool

-- What the drivers ask of the kernel's clock: the reading that clock_get_uptime gives at each of
-- its calls in turn, and absolutetime_to_nanoseconds.
pub record Kernel : Type 0 where
  pub uptime : ℕ → ℕ
  pub to_ns : ℕ → ℕ
