-- ===== src/Trackpad/Synaptics.antt =====
-- ApplePS2SynapticsTouchPad (VoodooPS2Trackpad/VoodooPS2SynapticsTouchPad.cpp and .h): the interrupt
-- routine and packetReady.
pub mod Assembly
use os_x_voodoo_ps2_controll.Base.{
  ℕ, ◌+◌, ◌*◌, Bool, true, false, ◌&&◌, List, [], ◌∷◌, ◌==◌, ◌!=◌, if◌then◌else◌, bit_and, get_or,
}
use os_x_voodoo_ps2_controll.Device.{InterruptResult, packet_ready, packet_buffering, sc_reset}
use os_x_voodoo_ps2_controll.Ring.{Ring, count, poke, advance_head}
use os_x_voodoo_ps2_controll.Ring.Drain.{drain}

abbrev pub packet_length : ℕ
packet_length = 6

abbrev pub ring_size : ℕ
ring_size = packet_length * 32

pub record TouchPad : Type 0 where
  pub ring : Ring ℕ
  pub last_data : ℕ
  pub packet_byte_count : ℕ

-- A packet that the work loop takes for a command: 0 and a reason.
abbrev pub post : ℕ → Ring ℕ → Ring ℕ
post reason r = advance_head ring_size packet_length (poke (poke r 0 0) 1 reason)

-- "Add this byte to the packet buffer."
pub store : ℕ → TouchPad → InterruptResult × TouchPad
store x d =
    let r = poke d.ring d.packet_byte_count x in
    if packet_length == d.packet_byte_count + 1
    then (
      packet_ready,
      record d { ring = advance_head ring_size packet_length r; packet_byte_count = 0 },
    )
    else (packet_buffering, record d { ring = r; packet_byte_count = d.packet_byte_count + 1 })

pub interrupt_occurred : ℕ → TouchPad → InterruptResult × TouchPad
unfolding store
interrupt_occurred x d =
    if d.last_data == sc_reset && x == 0
    then (packet_ready, record d { ring = post sc_reset d.ring; packet_byte_count = 0 })
    else let d' : TouchPad = record d { last_data = x } in
      if d.packet_byte_count == 0 && bit_and x 0xc8 != 0x80
      then (packet_ready, record d' { ring = post 0 d.ring })
      else if d.packet_byte_count == 3 && bit_and x 0xc8 != 0xc0
      then (packet_ready, record d' { ring = post 3 d.ring; packet_byte_count = 0 })
      else store x d'

-- `dispatch` stands for dispatchEventsWithPacket.
pub packet_ready_loop : {D : Type 0} → (List ℕ → D → D) → TouchPad → D → TouchPad × D
packet_ready_loop dispatch d s =
    let (r, s') =
      drain ring_size packet_length
        (λ packet t. if get_or packet 0 0 != 0 then dispatch packet t else t)
        (count ring_size d.ring) d.ring s in
    (record d { ring = r }, s')
