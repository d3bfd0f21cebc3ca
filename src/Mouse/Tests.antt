-- ===== src/Mouse/Tests.antt =====
-- The mouse driver at work: a packet of three bytes, from the interrupts to the events.
use os_x_voodoo_ps2_controll.Base.{ℕ, ◌≡◌, refl, arith, true, false, none, [], ◌∷◌, replicate}
use os_x_voodoo_ps2_controll.Base.Int.{pos}
use os_x_voodoo_ps2_controll.Device.{Kernel}
use os_x_voodoo_ps2_controll.Ring.{Ring, count}
use os_x_voodoo_ps2_controll.Ring.Valid.{count-eq-length}
use os_x_voodoo_ps2_controll.Ring.Aligned.{Aligned}
use os_x_voodoo_ps2_controll.MiddleButton.{Emulator, no_buttons}
use os_x_voodoo_ps2_controll.Mouse.{
  Mouse, Dispatch, standard, ring_size, packet_length_max, interrupt_occurred, packet_ready_loop,
  dispatch_relative,
}
use os_x_voodoo_ps2_controll.Mouse.Assembly.{IsValid, interrupt_occurred-IsValid, feed}
use os_x_voodoo_ps2_controll.Mouse.Delivery.{deliver}

abbrev zeros : Ring ℕ
zeros = record { buffer = replicate ring_size 0; head = 0; tail = 0 }

zeros-Aligned : Aligned ring_size packet_length_max zeros
zeros-Aligned = record {
  valid = record { fits = refl; head_in = omega arith; tail_in = omega arith; small = omega arith };
  some_size = omega arith;
  size = refl;
  head_at = refl;
  tail_at = refl;
}

abbrev rest : Emulator
rest = record {
  state = no_buttons;
  pending_buttons = 0;
  button_time = 0;
  button_timer = none;
  events = [];
  max_middle_click_time = 100;
  fake_middle_button = 1;
  button_count = 3;
  ignore_all = false;
}

abbrev dispatch_state : Dispatch
dispatch_state = record {
  emulator = rest;
  type = standard;
  act_like_trackpad = 0;
  scroll = true;
  button_mask = 0xffff_ffff;
  palm_wt = true;
  outzone_wt = false;
  key_time = 40;
  max_after_typing = 500;
  mouse_y_inverter = pos 1;
  scroll_y_inverter = pos 1;
  last_buttons = 0;
  clock_reads = 0;
}

abbrev three_bytes : Mouse
three_bytes = record {
  ring = zeros;
  packet_byte_count = 0;
  last_data = 0;
  packet_length = 3;
  mouse_reset_count = 0;
  state = dispatch_state;
}

three_bytes-IsValid : IsValid three_bytes
three_bytes-IsValid = record {
  aligned = zeros-Aligned;
  incomplete = omega arith;
  fits = omega arith;
  resets = omega arith;
}

zeros-count : count ring_size zeros ≡ 0
zeros-count = count-eq-length ring_size zeros zeros-Aligned.valid

abbrev clock : Kernel
clock = record { uptime = λ n. n; to_ns = λ t. t }

deliver_example :
    (packet_ready_loop clock (feed (0x08 ∷ 5 ∷ 3 ∷ []) three_bytes)).state
    ≡ dispatch_relative clock 3 (0x08 ∷ 5 ∷ 3 ∷ []) dispatch_state
deliver_example =
    deliver clock 0x08 5 (3 ∷ []) three_bytes three_bytes-IsValid zeros-count refl refl
      (omega arith) refl (refl, (refl, (refl, tt)))

interrupt_example : IsValid (interrupt_occurred 0x08 three_bytes).1
interrupt_example = interrupt_occurred-IsValid 0x08 three_bytes three_bytes-IsValid
