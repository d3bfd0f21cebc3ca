-- ===== src/Controller.antt =====
-- ApplePS2Controller (VoodooPS2Controller/VoodooPS2Controller.cpp and .h, as compiled with
-- DEBUGGER_SUPPORT 0, OUT_OF_ORDER_DATA_CORRECTION_FEATURE 1, HANDLE_INTERRUPT_DATA_LATER 0 and
-- WATCHDOG_TIMER 0): its state, its ports, and the interrupt actions of the drivers.
pub mod Command
pub mod Reading
pub mod Expecting
pub mod Requests
pub mod Composite
pub mod Queue
pub mod Bookkeeping
pub mod Keeping
pub mod Service
mod Tests
pub mod Interrupt
pub mod Power
use os_x_voodoo_ps2_controll.Base.{
  ℕ, zero, suc, ◌+◌, Bool, true, false, not, ◌&&◌, ◌||◌, Option, none, some, List, [], ◌∷◌, ◌++◌,
  ◌==◌, ◌!=◌, if◌then◌else◌, bit_and,
}
use os_x_voodoo_ps2_controll.Device.{InterruptResult, packet_ready, packet_buffering}
use Command.{Request, Finish}

-- PS2DeviceType
pub data DeviceType : Type 0 where
  keyboard mouse : DeviceType

abbrev pub other : DeviceType → DeviceType
other keyboard = mouse
other mouse = keyboard

abbrev pub is_mouse : DeviceType → Bool
is_mouse keyboard = false
is_mouse mouse = true

-- What the controller calls and this repository does not implement in it: the processor's port
-- instructions, on the state `S` of the hardware, and the interrupt actions that the two drivers
-- have installed, on the state `D` of the drivers.
pub record Machine (S D : Type 0) : Type 0 where
  pub inb : ℕ → S → ℕ × S
  pub outb : ℕ → ℕ → S → S
  pub action : DeviceType → ℕ → D → InterruptResult × D

pub record Controller (S D : Type 0) : Type 0 where
  pub hardware : S
  pub drivers : D
  pub interrupt_installed_keyboard : Bool
  pub interrupt_installed_mouse : Bool
  -- The calls of interruptOccurred on the event sources of the work loop, oldest first.
  pub signals : List DeviceType
  pub ignore_interrupts : ℕ
  pub ignore_out_of_order : ℕ
  pub hardware_offline : Bool
  pub suppress_timeout : Bool
  pub request_queue : List Request
  -- The ends of requests, oldest first.
  pub finished : List Finish

abbrev pub data_port : ℕ
data_port = 0x60

abbrev pub command_port : ℕ
command_port = 0x64

abbrev pub output_ready : ℕ
output_ready = 0x01

abbrev pub input_busy : ℕ
input_busy = 0x02

abbrev pub mouse_data : ℕ
mouse_data = 0x20

module _ {S D : Type 0} (m : Machine S D) where
  abbrev pub read_port : ℕ → Controller S D → ℕ × Controller S D
  read_port port c = let (x, s) = m.inb port c.hardware in (x, record c { hardware = s })

  abbrev pub write_port : ℕ → ℕ → Controller S D → Controller S D
  write_port port x c = record c { hardware = m.outb port x c.hardware }

  abbrev pub installed : DeviceType → Controller S D → Bool
  installed keyboard c = c.interrupt_installed_keyboard
  installed mouse c = c.interrupt_installed_mouse

  -- `_dispatchDriverInterrupt`
  unfoldable pub call_action : DeviceType → ℕ → Controller S D → InterruptResult × Controller S D
  call_action device x c =
      if installed device c
      then ((m.action device x c.drivers).0, record c { drivers = (m.action device x c.drivers).1 })
      else (packet_buffering, c)

  abbrev pub signal_if : InterruptResult → DeviceType → Controller S D → Controller S D
  signal_if packet_ready device c = record c { signals = c.signals ++ device ∷ [] }
  signal_if packet_buffering device c = c

  unfoldable pub dispatch_driver_interrupt : DeviceType → ℕ → Controller S D → Controller S D
  unfolding call_action
  dispatch_driver_interrupt device x c =
      let (result, c') = call_action device x c in signal_if result device c'

  -- `while (timeoutCounter && !((status = inb(kCommandPort)) & kOutputReady)) timeoutCounter--`: the
  -- status and the counter that are left, or none if the counter has run out.
  unfoldable pub wait_output : ℕ → Controller S D → Option (ℕ × ℕ) × Controller S D
  wait_output zero c = (none, c)
  wait_output (suc t) c =
      let (status, c') = read_port command_port c in
      elim (bit_and status output_ready == 0) [
        | true ↦ wait_output t c'
        | false ↦ (some (status, suc t), c')
      ]

  -- The wait, and the read of the data port that follows it: whether the byte is the mouse's, the
  -- byte, and the counter.
  unfoldable pub next_byte : ℕ → Controller S D → Option (Bool × ℕ × ℕ) × Controller S D
  next_byte t c =
      let (found, c') = wait_output t c in
      elim found [
        | none ↦ (none, c')
        | some (status, t') ↦
            let (x, c'') = read_port data_port c' in
            (some (bit_and status mouse_data != 0, x, t'), c'')
      ]
