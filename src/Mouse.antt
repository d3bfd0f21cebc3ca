-- ===== src/Mouse.antt =====
-- ApplePS2Mouse (VoodooPS2Mouse/VoodooPS2Mouse.cpp): the interrupt routine, the work loop and the
-- dispatch of a packet.
pub mod Assembly
pub mod Motion
pub mod Delivery
mod Tests
use os_x_voodoo_ps2_controll.Base.{
  ℕ, ◌+◌, ◌-◌, ◌*◌, ◌%◌, ◌/◌, Bool, true, false, not, ◌&&◌, ◌||◌, List, [], ◌∷◌, ◌++◌, leb, ltb,
  ◌==◌, ◌!=◌, if◌then◌else◌, bit_and, bit_or, get_or, sub_u64, not_u32,
}
use os_x_voodoo_ps2_controll.Base.Int.{ℤ, pos, ◌-ℤ◌, ◌*ℤ◌, signed32, signed8, shift_right, ◌==ℤ◌}
use os_x_voodoo_ps2_controll.Device.{
  InterruptResult, packet_ready, packet_buffering, sc_reset, sc_acknowledge, PointerEvent, relative,
  scroll_event, Kernel,
}
use os_x_voodoo_ps2_controll.Ring.{Ring, count, poke, advance_head}
use os_x_voodoo_ps2_controll.Ring.Drain.{drain}
use os_x_voodoo_ps2_controll.MiddleButton.{Emulator}
use os_x_voodoo_ps2_controll.MiddleButton.Mouse.{middle_button, from_timer, from_mouse}

abbrev pub packet_length_max : ℕ
packet_length_max = 4

-- The N of `RingBuffer<UInt8, kPacketLengthMax*32>`.
abbrev pub ring_size : ℕ
ring_size = packet_length_max * 32

-- enum PS2MouseId
pub data MouseId : Type 0 where
  standard intellimouse intellimouse_explorer : MouseId

-- The members that the dispatch of a packet reads and writes. `emulator` holds those of the middle
-- button emulation, `ignoreall` among them, and the events sent to the HID system.
pub record Dispatch : Type 0 where
  pub emulator : Emulator
  pub type : MouseId
  pub act_like_trackpad : ℕ
  pub scroll : Bool
  pub button_mask : ℕ
  pub palm_wt : Bool
  pub outzone_wt : Bool
  pub key_time : ℕ
  pub max_after_typing : ℕ
  pub mouse_y_inverter : ℤ
  pub scroll_y_inverter : ℤ
  pub last_buttons : ℕ
  -- How often the clock has been read.
  pub clock_reads : ℕ

pub record Mouse : Type 0 where
  pub ring : Ring ℕ
  pub packet_byte_count : ℕ
  pub last_data : ℕ
  pub packet_length : ℕ
  pub mouse_reset_count : ℕ
  pub state : Dispatch

-- A packet that the work loop takes for a command: 0 and a reason.
abbrev pub post : ℕ → Ring ℕ → Ring ℕ
post reason r = advance_head ring_size packet_length_max (poke (poke r 0 0) 1 reason)

-- "Add this byte to the packet buffer."
pub store : ℕ → Mouse → InterruptResult × Mouse
store x d =
    let r = poke d.ring d.packet_byte_count x in
    let stored = d.packet_byte_count + 1 in
    if stored == d.packet_length
    then (
      packet_ready,
      record d {
        mouse_reset_count = 0;
        ring = advance_head ring_size packet_length_max r;
        packet_byte_count = 0;
      },
    )
    else (packet_buffering, record d { ring = r; packet_byte_count = stored })

-- A byte that cannot start a packet, met where one must start.
pub out_of_sync : Mouse → InterruptResult × Mouse
out_of_sync d =
    if ltb d.mouse_reset_count 5
    then (
      packet_ready,
      record d { mouse_reset_count = d.mouse_reset_count + 1; ring = post sc_acknowledge d.ring },
    )
    else (packet_buffering, d)

pub interrupt_occurred : ℕ → Mouse → InterruptResult × Mouse
unfolding store out_of_sync
interrupt_occurred x d =
    if d.last_data == sc_reset && x == 0
    then (packet_ready, record d { ring = post sc_reset d.ring; packet_byte_count = 0 })
    else let d' : Mouse = record d { last_data = x } in
      if d'.packet_byte_count == 0 && (x == sc_acknowledge || bit_and x 0x08 == 0)
      then out_of_sync d'
      else store x d'

-- The sign extended deltas of a packet: bytes 1 and 2 with the sign bits of byte 0.
abbrev pub delta : ℕ → ℕ → ℕ → ℤ
delta byte0 sign low = signed32 (bit_or (if bit_and byte0 sign != 0 then 0xffff_ff00 else 0) low)

-- `(SInt16)(((SInt8)(packet[3] << 4)) >> 4)`
abbrev pub wheel : ℕ → ℤ
wheel byte3 = shift_right (signed8 (byte3 * 16 % 256)) 4

abbrev pub emit : Bool → PointerEvent → Dispatch → Dispatch
emit test event s =
    let e = s.emulator in
    record s { emulator = record e { events = if test then e.events ++ event ∷ [] else e.events } }

abbrev pub is_explorer : MouseId → Bool
is_explorer intellimouse_explorer = true
is_explorer standard = false
is_explorer intellimouse = false

-- The buttons of a packet, before the emulation.
pub packet_buttons : MouseId → ℕ → List ℕ → ℕ
packet_buttons type packet_size packet =
    let buttons = bit_and (get_or packet 0 0) 7 in
    if ltb 3 packet_size && is_explorer type
    then bit_or buttons (bit_and (get_or packet 3 0) 0x30 / 2)
    else buttons

abbrev pub typing_mask : ℕ → ℕ → Dispatch → ℕ
typing_mask now_ns buttons s =
    if leb (sub_u64 now_ns s.key_time) s.max_after_typing
    then not_u32 (bit_and buttons 3)
    else 0xffff_ffff

-- "ignore button 1 and 2 (could be simulated by trackpad) if just after typing"
pub mask_buttons : ℕ → ℕ → Dispatch → ℕ × Dispatch
mask_buttons now_ns buttons s =
    if s.palm_wt || s.outzone_wt
    then (
      bit_and buttons (typing_mask now_ns buttons s),
      record s { button_mask = typing_mask now_ns buttons s },
    )
    else (buttons, s)

pub dispatch_relative : Kernel → ℕ → List ℕ → Dispatch → Dispatch
unfolding packet_buttons mask_buttons
dispatch_relative k packet_size packet s =
    let byte0 = get_or packet 0 0 in
    let dx = delta byte0 0x10 (get_or packet 1 0) in
    let dy = pos 0 -ℤ delta byte0 0x20 (get_or packet 2 0) in
    let dz : ℤ =
      if ltb 3 packet_size && (s.act_like_trackpad == 0 || s.scroll)
      then wheel (get_or packet 3 0)
      else pos 0 in
    let now_abs = k.uptime s.clock_reads in
    let now_ns = k.to_ns now_abs in
    let (pressed, e) =
      middle_button k.to_ns (packet_buttons s.type packet_size packet) now_abs from_mouse
        s.emulator in
    let (buttons, s') =
      mask_buttons now_ns pressed
        (record s { emulator = e; last_buttons = pressed; clock_reads = s.clock_reads + 1 }) in
    let moved =
      emit (not s'.emulator.ignore_all) (relative dx (s.mouse_y_inverter *ℤ dy) buttons now_abs)
        s' in
    emit
      (not (dz ==ℤ pos 0)
        && (not (s.palm_wt || s.outzone_wt) || ltb s.max_after_typing (sub_u64 now_ns s.key_time))
        && not s'.emulator.ignore_all)
      (scroll_event ((pos 0 -ℤ s.scroll_y_inverter) *ℤ dz) (pos 0) (pos 0) now_abs) moved

-- A packet that begins with 0 is a command, for which the work loop does nothing.
pub handle_packet : Kernel → ℕ → List ℕ → Dispatch → Dispatch
handle_packet k packet_length packet s =
    if get_or packet 0 0 != 0 then dispatch_relative k packet_length packet s else s

-- The number of bytes stored bounds the rounds of the loop.
pub packet_ready_loop : Kernel → Mouse → Mouse
packet_ready_loop k d =
    let (r, s) =
      drain ring_size packet_length_max (handle_packet k d.packet_length) (count ring_size d.ring)
        d.ring d.state in
    record d { ring = r; state = s }

pub on_button_timer : Kernel → Dispatch → Dispatch
on_button_timer k s = record s {
  emulator =
      (middle_button k.to_ns s.last_buttons (k.uptime s.clock_reads) from_timer s.emulator).1;
  clock_reads = s.clock_reads + 1;
}
