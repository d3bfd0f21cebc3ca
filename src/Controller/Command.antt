-- ===== src/Controller/Command.antt =====
-- PS2Command and PS2Request of VoodooPS2Controller/ApplePS2Device.h.
use os_x_voodoo_ps2_controll.Base.{ℕ, ◌+◌, ◌*◌, ◌/◌, ◌%◌, ◌^◌, List}

-- enum PS2CommandEnum
pub data Kind : Type 0 where
  read_data read_data_and_compare write_data write_command : Kind
  send_mouse_command_and_compare_ack read_mouse_data read_mouse_data_and_compare : Kind
  flush_data sleep_ms modify_command_byte : Kind

-- The union of PS2Command is its 32-bit word: `inOrOut` and `setBits` are the lowest byte,
-- `clearBits` and `oldBits` the next two.
pub record Command : Type 0 where
  pub kind : Kind
  pub word : ℕ

abbrev pub in_or_out : ℕ → ℕ
in_or_out word = word % 256

abbrev pub with_in_or_out : ℕ → ℕ → ℕ
with_in_or_out x word = word / 256 * 256 + x

abbrev pub set_bits : ℕ → ℕ
set_bits word = word % 256

abbrev pub clear_bits : ℕ → ℕ
clear_bits word = word / 256 % 256

abbrev pub old_bits : ℕ → ℕ
old_bits word = word / 65536 % 256

abbrev pub with_old_bits : ℕ → ℕ → ℕ
with_old_bits x word = word / 2 ^ 24 * 2 ^ 24 + x * 65536 + word % 65536

-- How a request ends: on the stack of a caller that waits, with a completion routine, or with
-- neither.
pub data Completion : Type 0 where
  on_stack with_action fire_and_forget : Completion

-- `address` tells the requests apart.
pub record Request : Type 0 where
  pub address : ℕ
  pub commands_count : ℕ
  pub commands : List Command
  pub completion : Completion

-- What processRequest does at its end: it calls the completion routine, frees the request, or
-- leaves it to the caller.
pub data Finish : Type 0 where
  called_back freed returned : ℕ → Finish
