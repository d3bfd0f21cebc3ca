-- ===== src/Controller/Requests.antt =====
-- writeDataPort, writeCommandPort, processRequest, processRequestQueue, submitRequest,
-- submitRequestAndBlockGated and setCommandByteGated.
use mathlib.Core.Option
use os_x_voodoo_ps2_controll.Base.{
  ℕ, zero, suc, ◌+◌, ◌-◌, ◌%◌, ◌^◌, Bool, true, false, Option, none, some, List, [], ◌∷◌, ◌++◌,
  ◌==◌, ◌!=◌, if◌then◌else◌, bit_and, bit_or,
}
use os_x_voodoo_ps2_controll.Device.{sc_acknowledge}
use os_x_voodoo_ps2_controll.Controller.{
  Controller, Machine, DeviceType, keyboard, mouse, read_port, write_port, command_port, data_port,
  output_ready, input_busy,
}
use os_x_voodoo_ps2_controll.Controller.Command.{
  Kind, read_data, read_data_and_compare, write_data, write_command,
  send_mouse_command_and_compare_ack, read_mouse_data, read_mouse_data_and_compare, flush_data,
  sleep_ms, modify_command_byte, Command, in_or_out, with_in_or_out, set_bits, clear_bits,
  with_old_bits, on_stack, with_action, fire_and_forget, Request, Finish, called_back, freed,
  returned,
}
use os_x_voodoo_ps2_controll.Controller.Reading.{read_data_port}
use os_x_voodoo_ps2_controll.Controller.Expecting.{read_expected}

abbrev pub get_command_byte : ℕ
get_command_byte = 0x20

abbrev pub put_command_byte : ℕ
put_command_byte = 0x60

abbrev pub transmit_to_mouse : ℕ
transmit_to_mouse = 0xd4

-- `none`: a loop that waits for the hardware has used up its rounds.
abbrev pub M : Type 0 → Type 0 → Type 0 → Type 0
M S D A = Controller S D → Option (A × Controller S D)

infixl 5 ◌>>=◌ ◌>>◌
abbrev pub ◌>>=◌ : {S D A B : Type 0} → M S D A → (A → M S D B) → M S D B
◌>>=◌ act f c = elim (act c) [ none ↦ none | some (a, c') ↦ f a c' ]

abbrev pub ◌>>◌ : {S D B : Type 0} → M S D (Unit {0}) → M S D B → M S D B
act >> rest = act >>= λ _. rest

abbrev pub pure : {S D A : Type 0} → A → M S D A
pure a c = some (a, c)

-- `deviceMode` and `transmitToMouse`.
pub record Mode : Type 0 where
  pub device : DeviceType
  pub transmit : Bool

-- A command has run: whether it failed, the mode, and its word.
pub record Outcome : Type 0 where
  pub failed : Bool
  pub mode : Mode
  pub word : ℕ

module _ {S D : Type 0} (m : Machine S D) where
  -- `while (inb(kCommandPort) & kInputBusy)`
  unfoldable pub wait_input : ℕ → M S D (Unit {0})
  wait_input zero c = none
  wait_input (suc rounds) c =
      let (status, c') = read_port m command_port c in
      elim (bit_and status input_busy == 0) [ true ↦ some (tt, c') | false ↦ wait_input rounds c' ]

  -- `while (inb(kCommandPort) & kOutputReady)`, counting the bytes that are thrown away.
  unfoldable pub flush_loop : ℕ → ℕ → M S D ℕ
  flush_loop zero n c = none
  flush_loop (suc rounds) n c =
      let (status, c') = read_port m command_port c in
      elim (bit_and status output_ready == 0) [
        | true ↦ some (n, c')
        | false ↦ flush_loop rounds ((n + 1) % 2 ^ 32) (read_port m data_port c').1
      ]

  module _ (rounds : ℕ) where
    unfoldable pub write_data_port : ℕ → M S D (Unit {0})
    write_data_port x = do wait_input rounds; λ c. some (tt, write_port m data_port x c)

    unfoldable pub write_command_port : ℕ → M S D (Unit {0})
    write_command_port x = do wait_input rounds; λ c. some (tt, write_port m command_port x c)

    -- The body of the switch on a command's kind.
    unfoldable pub process_command : Kind → ℕ → Mode → M S D Outcome
    process_command read_data word mode = do
      x ← read_data_port m rounds mode.device
      pure (record { failed = false; mode = mode; word = with_in_or_out x word })
    process_command read_data_and_compare word mode = do
      x ← read_expected m rounds mode.device (in_or_out word)
      pure (record { failed = x != in_or_out word; mode = mode; word = with_in_or_out x word })
    process_command write_data word mode = do
      write_data_port (in_or_out word)
      pure (record {
        failed = false;
        mode = record { device = if mode.transmit then mouse else keyboard; transmit = false };
        word = word;
      })
    process_command write_command word mode = do
      write_command_port (in_or_out word)
      pure (record {
        failed = false;
        mode = record mode {
          transmit = if in_or_out word == transmit_to_mouse then true else mode.transmit;
        };
        word = word;
      })
    process_command send_mouse_command_and_compare_ack word mode = do
      write_command_port transmit_to_mouse
      write_data_port (in_or_out word)
      x ← read_expected m rounds mouse sc_acknowledge
      pure (record {
        failed = x != sc_acknowledge;
        mode = record mode { device = mouse };
        word = word;
      })
    process_command read_mouse_data word mode = do
      x ← read_data_port m rounds mouse
      pure (record {
        failed = false;
        mode = record mode { device = mouse };
        word = with_in_or_out x word;
      })
    process_command read_mouse_data_and_compare word mode = do
      x ← read_expected m rounds mouse (in_or_out word)
      pure (record {
        failed = x != in_or_out word;
        mode = record mode { device = mouse };
        word = word;
      })
    process_command flush_data word mode = do
      n ← flush_loop rounds 0
      pure (record { failed = false; mode = mode; word = n })
    process_command sleep_ms word mode = pure (record { failed = false; mode = mode; word = word })
    process_command modify_command_byte word mode = do
      write_command_port get_command_byte
      x ← read_data_port m rounds keyboard
      write_command_port put_command_byte
      write_data_port (bit_and (bit_or x (set_bits word)) (255 - clear_bits word))
      pure (record { failed = false; mode = mode; word = with_old_bits x word })

    -- The loop over the commands: those that ran with their new words, and the index of the one
    -- that failed. The count never exceeds the array (an assertion of every caller).
    unfoldable pub process_commands : ℕ → List Command → Mode → M S D (List Command × Option ℕ)
    process_commands zero cs mode = pure (cs, none)
    process_commands (suc n) [] mode = pure ([], none)
    process_commands (suc n) (command ∷ cs) mode = do
      done ← process_command command.kind command.word mode
      let command' : Command = record command { word = done.word }
      if done.failed
          then pure (command' ∷ cs, some 0)
          else (process_commands n cs done.mode >>= λ r. pure (command' ∷ r.0, Option.map suc r.1))

    abbrev pub finish : Request → Finish
    finish r = elim r.completion [
      | on_stack ↦ returned r.address
      | with_action ↦ called_back r.address
      | fire_and_forget ↦ freed r.address
    ]

    abbrev end_request : Option ℕ → List Command → Request → M S D Request
    end_request failed cs r c =
        let r' : Request = record r {
          commands = cs;
          commands_count = elim failed [ none ↦ r.commands_count | some i ↦ i ];
        } in
        some (r', record c { finished = c.finished ++ finish r ∷ [] })

    -- Off line, a request fails at its first command.
    unfoldable pub process_request : Request → M S D Request
    process_request r c =
        if c.hardware_offline
        then end_request (some 0) r.commands r c
        else (process_commands r.commands_count r.commands
                (record { device = keyboard; transmit = false })
              >>= λ done c'.
                  end_request done.1 done.0 r
                    (record c' { ignore_interrupts = c'.ignore_interrupts - 1 }))
            (record c { ignore_interrupts = c.ignore_interrupts + 1 })

    unfoldable pub process_all : List Request → M S D (Unit {0})
    process_all [] = pure tt
    process_all (r ∷ rs) = process_request r >>= λ _. process_all rs

    -- The queue is emptied first: what is submitted meanwhile waits for the next call.
    unfoldable pub process_request_queue : M S D (Unit {0})
    process_request_queue c = process_all c.request_queue (record c { request_queue = [] })

    unfoldable pub submit_request_and_block : Request → M S D Request
    submit_request_and_block r = do process_request_queue; process_request r

    -- `setCommandByteGated`, which answers the old command byte.
    unfoldable pub set_command_byte : ℕ → ℕ → M S D ℕ
    set_command_byte set clear c =
        (do
          write_command_port get_command_byte
          old ← read_data_port m rounds keyboard
          λ c'. some (tt, record c' { ignore_interrupts = c'.ignore_interrupts - 1 })
          let new = bit_and (bit_or old set) (255 - clear)
          if old == new
              then pure old
              else (do write_command_port put_command_byte; write_data_port new; pure old))
          (record c { ignore_interrupts = c.ignore_interrupts + 1 })

  -- `submitRequest` queues the request and signals the work loop.
  pub submit_request : Request → Controller S D → Controller S D
  submit_request r c = record c { request_queue = c.request_queue ++ r ∷ [] }
