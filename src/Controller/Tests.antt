-- ===== src/Controller/Tests.antt =====
-- The controller at work, on hardware that holds a list of bytes, each with the status that announces
-- it.
mod Quiet
use os_x_voodoo_ps2_controll.Base.{
  ℕ, zero, suc, ◌+◌, ◌-◌, ◌≡◌, ◌≢◌, ◌≤◌, ◌<◌, refl, arith, Bool, true, false, some, none, Option,
  List, [], ◌∷◌, ◌++◌, ◌==◌, if◌then◌else◌, length, bit_and,
}
use os_x_voodoo_ps2_controll.Device.{InterruptResult, packet_ready, sc_acknowledge}
use os_x_voodoo_ps2_controll.Controller.{
  Controller, Machine, DeviceType, keyboard, mouse, command_port, dispatch_driver_interrupt,
}
use os_x_voodoo_ps2_controll.Controller.Command.{
  Request, fire_and_forget, on_stack, write_command, write_data, read_data_and_compare, read_data,
  send_mouse_command_and_compare_ack,
}
use os_x_voodoo_ps2_controll.Controller.Reading.{
  read_data_port, timeout, Offers, full, Arrives, own, foreign, dispatch_all,
  read_data_port-Arrives, Silent, over, again, read_data_port-Silent,
}
use os_x_voodoo_ps2_controll.Controller.Expecting.{
  read_expected, read_expected_second, read_expected_never, read_expected-timeout,
}
use os_x_voodoo_ps2_controll.Controller.Interrupt.{
  interrupt_handler, wake, sort_bytes, completes, interrupt_handler-Holds,
}
use os_x_voodoo_ps2_controll.Controller.Composite.{command, visible, composite_command}
use os_x_voodoo_ps2_controll.Controller.Requests.{
  process_commands, submit_request_and_block, transmit_to_mouse,
}
use os_x_voodoo_ps2_controll.Controller.Queue.{finishes, submit_offline}
use os_x_voodoo_ps2_controll.Controller.Power.{reset_command_byte, reset_command_byte_lem}

abbrev Hardware : Type 0
Hardware = List (ℕ × ℕ)

abbrev status_of : Hardware → ℕ
status_of [] = 0
status_of ((status, x) ∷ rest) = status

abbrev take_byte : Hardware → ℕ × Hardware
take_byte [] = (0, [])
take_byte ((status, x) ∷ rest) = (x, rest)

-- The drivers record what they are given, and take each byte for a packet.
abbrev Record : Type 0
Record = List (DeviceType × ℕ)

abbrev machine : Machine Hardware Record
machine = record {
  inb = λ port s. if port == command_port then (status_of s, s) else take_byte s;
  outb = λ port x s. s;
  action = λ device x d. (packet_ready, d ++ (device, x) ∷ []);
}

abbrev with_hardware : Hardware → Controller Hardware Record
with_hardware s = record {
  hardware = s;
  drivers = [];
  interrupt_installed_keyboard = true;
  interrupt_installed_mouse = true;
  signals = [];
  ignore_interrupts = 0;
  ignore_out_of_order = 0;
  hardware_offline = false;
  suppress_timeout = false;
  request_queue = [];
  finished = [];
}

silent : (t : ℕ) → Silent machine t [] []
silent zero = over refl refl
silent (suc t) = again refl refl (silent t)

arrives_example :
    read_data_port machine 2 keyboard (with_hardware ((0x21, 5) ∷ (0x01, 7) ∷ []))
    ≡ some (
      7,
      record (dispatch_all machine mouse (5 ∷ []) (with_hardware ((0x21, 5) ∷ (0x01, 7) ∷ []))) {
        hardware = [];
      },
    )
arrives_example =
    read_data_port-Arrives machine 2 keyboard (5 ∷ []) 7 0 []
      (with_hardware ((0x21, 5) ∷ (0x01, 7) ∷ []))
      (foreign {from_mouse = true} {k = 0} {n = 0} refl refl refl (full refl refl refl refl)
        (own {from_mouse = false} refl refl (full refl refl refl refl)))
      refl (omega arith) (omega arith)

silent_example : read_data_port machine 1 mouse (with_hardware []) ≡ some (0, with_hardware [])
silent_example =
    read_data_port-Silent machine 1 mouse [] (with_hardware []) (omega arith) (silent timeout)

abbrev overtaken : Controller Hardware Record
overtaken = with_hardware ((0x01, 0x1c) ∷ (0x01, 0xfa) ∷ [])

second_example :
    read_expected machine 2 keyboard 0xfa overtaken
    ≡ some
        (0xfa, record (dispatch_driver_interrupt machine keyboard 0x1c overtaken) { hardware = [] })
second_example =
    read_expected_second machine keyboard 0xfa false refl 2 0 0 0x1c ((0x01, 0xfa) ∷ []) []
      overtaken (omega arith) (omega arith) refl (λ e. omega (arith, e)) (full refl refl refl refl)
      (full refl refl refl refl)

abbrev two_others : Controller Hardware Record
two_others = with_hardware ((0x01, 0x1c) ∷ (0x01, 0x1d) ∷ [])

timeout_example :
    read_expected machine 2 keyboard 0xfa (with_hardware ((0x01, 0x1c) ∷ []))
    ≡ some (0x1c, with_hardware [])
timeout_example =
    read_expected-timeout machine keyboard 0xfa false refl 2 0 0x1c [] []
      (with_hardware ((0x01, 0x1c) ∷ [])) (omega arith) (omega arith) (λ e. omega (arith, e))
      (full refl refl refl refl) (silent (timeout - 0))

abbrev two_bytes : Controller Hardware Record
two_bytes = with_hardware ((0x21, 5) ∷ (0x01, 7) ∷ [])

handler_example :
    interrupt_handler machine 3 two_bytes
    ≡ some (
        if two_bytes.ignore_interrupts == 0
        then wake machine
            (completes machine false ((true, 5) ∷ (false, 7) ∷ []) two_bytes)
            keyboard
            (wake machine
              (completes machine true ((true, 5) ∷ (false, 7) ∷ []) two_bytes)
              mouse
              (record (sort_bytes machine ((true, 5) ∷ (false, 7) ∷ []) two_bytes) {
                hardware = [];
              }))
        else two_bytes)
handler_example =
    interrupt_handler-Holds machine 3 ((true, 5) ∷ (false, 7) ∷ []) [] two_bytes
      (refl, refl, refl, (refl, refl, refl, (refl, refl))) (omega arith)

composite_example :
    visible 1 (
      process_commands machine 2 2
        (command send_mouse_command_and_compare_ack 0xf4 ∷ command read_data 0 ∷ [])
        (record { device = keyboard; transmit = false })
        overtaken)
    ≡ visible 3 (
        process_commands machine 2 4
          (command write_command transmit_to_mouse
            ∷ command write_data 0xf4
            ∷ command read_data_and_compare sc_acknowledge
            ∷ command read_data 0
            ∷ [])
          (record { device = keyboard; transmit = false })
          overtaken)
composite_example =
    composite_command machine 2 0xf4 1 (command read_data 0 ∷ []) keyboard overtaken (omega arith)

abbrev plain_request : ℕ → Request
plain_request address = record {
  address = address;
  commands_count = 1;
  commands = command write_data 0xed ∷ [];
  completion = fire_and_forget;
}

abbrev asleep : Controller Hardware Record
asleep = record (with_hardware []) {
  hardware_offline = true;
  request_queue = plain_request 1 ∷ plain_request 2 ∷ [];
}

offline_example :
    submit_request_and_block machine 1 (plain_request 3) asleep
    ≡ some (
      record (plain_request 3) { commands_count = 0 },
      record asleep {
        request_queue = [];
        finished =
            []
            ++ finishes machine 1
                ((plain_request 1 ∷ plain_request 2 ∷ []) ++ plain_request 3 ∷ []);
      },
    )
offline_example = submit_offline machine 1 (plain_request 3) asleep refl

reset_byte_example :
    (bit_and (reset_command_byte 0x77) 0x23 ≡ 0)
    × (bit_and (reset_command_byte 0x77) 0x10 ≡ bit_and 0x77 0x10)
reset_byte_example = reset_command_byte_lem 0x77 (omega arith)
