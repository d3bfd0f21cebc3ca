-- ===== src/Controller/Tests/Quiet.antt =====
-- Hardware that is never busy and never sends a byte: every command returns.
use os_x_voodoo_ps2_controll.Base.{
  ℕ, zero, suc, ◌≡◌, ◌≢◌, refl, arith, true, false, some, none, List, [], ◌∷◌, ◌++◌,
}
use os_x_voodoo_ps2_controll.Device.{packet_buffering, sc_acknowledge}
use os_x_voodoo_ps2_controll.Controller.{Controller, Machine, DeviceType, keyboard, mouse}
use os_x_voodoo_ps2_controll.Controller.Command.{
  Kind, read_data, read_data_and_compare, write_data, write_command,
  send_mouse_command_and_compare_ack, read_mouse_data, read_mouse_data_and_compare, flush_data,
  sleep_ms, modify_command_byte, in_or_out, Request, fire_and_forget,
}
use os_x_voodoo_ps2_controll.Controller.Reading.{
  read_data_port, timeout, Silent, over, again, read_data_port-Silent, next_byte-Silent,
}
use os_x_voodoo_ps2_controll.Controller.Expecting.{read_expected, expect_loop}
use os_x_voodoo_ps2_controll.Controller.Requests.{
  Mode, M, pure, wait_input, flush_loop, write_data_port, write_command_port, process_command,
  process_request_queue, get_command_byte, put_command_byte, transmit_to_mouse,
}
use os_x_voodoo_ps2_controll.Controller.Queue.{finishes}
use os_x_voodoo_ps2_controll.Controller.Service.{bind-answers, process_request_queue-Served}
use os_x_voodoo_ps2_controll.Controller.Power.{PowerState, PowerControl, set_power_state}
use os_x_voodoo_ps2_controll.Controller.Power.Transitions.{set_power_state-Powered}
use os_x_voodoo_ps2_controll.Controller.Power.Reaching.{At}
use os_x_voodoo_ps2_controll.Controller.Composite.{command}

abbrev Nothing : Type 0
Nothing = List ℕ

abbrev quiet : Machine Nothing Nothing
quiet = record {
  inb = λ port s. (0, s);
  outb = λ port x s. s;
  action = λ device x d. (packet_buffering, d);
}

silent : (t : ℕ) (s : Nothing) → Silent quiet t s s
silent zero s = over refl refl
silent (suc t) s = again refl refl (silent t s)

ready : (c : Controller Nothing Nothing) → wait_input quiet 1 c ≢ none
unfolding wait_input
ready c e = ground (arith, e)

flushes : (n : ℕ) (c : Controller Nothing Nothing) → flush_loop quiet 1 n c ≢ none
unfolding flush_loop
flushes n c e = ground (arith, e)

reads :
    (device : DeviceType) (c : Controller Nothing Nothing) → read_data_port quiet 1 device c ≢ none
reads device c e = ground (
  arith,
  e,
  read_data_port-Silent quiet 1 device c.hardware c (omega arith) (silent timeout c.hardware),
)

expects :
    (device : DeviceType) (x : ℕ) (c : Controller Nothing Nothing)
    → read_expected quiet 1 device x c ≢ none
unfolding read_expected expect_loop
expects device x c e =
    ground (arith, e, next_byte-Silent quiet timeout c (silent timeout c.hardware) refl)

writes_data : (x : ℕ) (c : Controller Nothing Nothing) → write_data_port quiet 1 x c ≢ none
unfolding write_data_port
writes_data x c = bind-answers (wait_input quiet 1) _ c (ready c) (λ _ c' e. ground (arith, e))

writes_command : (x : ℕ) (c : Controller Nothing Nothing) → write_command_port quiet 1 x c ≢ none
unfolding write_command_port
writes_command x c = bind-answers (wait_input quiet 1) _ c (ready c) (λ _ c' e. ground (arith, e))

answers :
    (kind : Kind) (word : ℕ) (mode : Mode) (c : Controller Nothing Nothing)
    → process_command quiet 1 kind word mode c ≢ none
unfolding process_command
answers read_data word mode c =
    bind-answers (read_data_port quiet 1 mode.device) _ c (reads mode.device c)
      (λ x c' e. ground (arith, e))
answers read_data_and_compare word mode c =
    bind-answers (read_expected quiet 1 mode.device (in_or_out word)) _ c (expects mode.device _ c)
      (λ x c' e. ground (arith, e))
answers write_data word mode c =
    bind-answers (write_data_port quiet 1 (in_or_out word)) _ c (writes_data _ c)
      (λ x c' e. ground (arith, e))
answers write_command word mode c =
    bind-answers (write_command_port quiet 1 (in_or_out word)) _ c (writes_command _ c)
      (λ x c' e. ground (arith, e))
answers send_mouse_command_and_compare_ack word mode c =
    bind-answers (write_command_port quiet 1 transmit_to_mouse) _ c (writes_command _ c) (λ _ c₁.
      bind-answers (write_data_port quiet 1 (in_or_out word)) _ c₁ (writes_data _ c₁) (λ _ c₂.
        bind-answers (read_expected quiet 1 mouse sc_acknowledge) _ c₂ (expects mouse _ c₂)
          (λ x c' e. ground (arith, e))))
answers read_mouse_data word mode c =
    bind-answers (read_data_port quiet 1 mouse) _ c (reads mouse c) (λ x c' e. ground (arith, e))
answers read_mouse_data_and_compare word mode c =
    bind-answers (read_expected quiet 1 mouse (in_or_out word)) _ c (expects mouse _ c)
      (λ x c' e. ground (arith, e))
answers flush_data word mode c =
    bind-answers (flush_loop quiet 1 0) _ c (flushes 0 c) (λ x c' e. ground (arith, e))
answers sleep_ms word mode c = λ e. ground (arith, e)
answers modify_command_byte word mode c =
    bind-answers (write_command_port quiet 1 get_command_byte) _ c (writes_command _ c) (λ _ c₁.
      bind-answers (read_data_port quiet 1 keyboard) _ c₁ (reads keyboard c₁) (λ x c₂.
        bind-answers (write_command_port quiet 1 put_command_byte) _ c₂ (writes_command _ c₂)
          (λ _ c₃.
            bind-answers (write_data_port quiet 1 _) _ c₃ (writes_data _ c₃)
              (λ x c' e. ground (arith, e)))))

abbrev request : ℕ → Request
request address = record {
  address = address;
  commands_count = 1;
  commands = command write_data 0xed ∷ [];
  completion = fire_and_forget;
}

abbrev working : Controller Nothing Nothing
working = record {
  hardware = [];
  drivers = [];
  interrupt_installed_keyboard = true;
  interrupt_installed_mouse = true;
  signals = [];
  ignore_interrupts = 0;
  ignore_out_of_order = 0;
  hardware_offline = false;
  suppress_timeout = false;
  request_queue = request 1 ∷ request 2 ∷ [];
  finished = [];
}

served_example :
    (c' : Controller Nothing Nothing) × (process_request_queue quiet 1 working ≡ some (tt, c'))
    × (c'.finished ≡ [] ++ finishes quiet 1 (request 1 ∷ request 2 ∷ []))
    × (c'.ignore_interrupts ≡ 0)
    × (c'.request_queue ≡ [])
served_example = process_request_queue-Served quiet 1 answers working

abbrev awake : PowerState
awake = record {
  current_power_state = 2;
  power_control_installed_keyboard = true;
  power_control_installed_mouse = true;
  mouse_wake_first = false;
  acknowledged = 0;
}

abbrev no_action : DeviceType → PowerControl → M Nothing Nothing (Unit {0})
no_action device what = pure tt

sleep_example :
    (p' : PowerState) × (c' : Controller Nothing Nothing) × (set_power_state quiet 1 no_action 0
        awake working
      ≡ some (p', c'))
    × (p'.current_power_state ≡ 0)
    × (p'.acknowledged ≡ 1)
    × At true 1 c'
sleep_example =
    set_power_state-Powered quiet 1 ready reads flushes no_action
      (λ device what o n c at. (tt, c, refl, at)) 0 0 awake working (omega arith)
      (record { offline_at = refl; ignored_at = refl })
