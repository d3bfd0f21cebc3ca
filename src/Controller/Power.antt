-- ===== src/Controller/Power.antt =====
-- setPowerStateGated, dispatchDriverPowerControl, resetController, installPowerControlAction and
-- uninstallPowerControlAction, as compiled with FULL_INIT_AFTER_WAKE 1 and
-- DISABLE_CLOCKS_IRQS_BEFORE_SLEEP 1.
pub mod Reaching
pub mod Transitions
use os_x_voodoo_ps2_controll.Base.{
  ℕ, zero, suc, ◌+◌, ◌-◌, ◌<◌, ◌≡◌, ◌∙◌, ap, refl, sym, arith, Bool, true, false, not, ◌&&◌, ◌||◌,
  Option, none, some, List, [], ◌∷◌, ◌++◌, leb, ◌==◌, ◌!=◌, if◌then◌else◌, bit_and, bit_or,
}
use os_x_voodoo_ps2_controll.Base.Bytes.{every_below, byte_table}
use os_x_voodoo_ps2_controll.Controller.{
  Controller, Machine, DeviceType, keyboard, mouse, read_port,
}
use os_x_voodoo_ps2_controll.Controller.Reading.{read_data_port}
use os_x_voodoo_ps2_controll.Controller.Requests.{
  M, ◌>>=◌, ◌>>◌, pure, write_command_port, write_data_port, flush_loop, set_command_byte,
  get_command_byte, put_command_byte, transmit_to_mouse,
}

-- kPS2C_EnableDevice, kPS2C_DisableDevice
pub data PowerControl : Type 0 where
  enable_device disable_device : PowerControl

abbrev pub power_state_sleep : ℕ
power_state_sleep = 0

abbrev pub power_state_normal : ℕ
power_state_normal = 2

-- kCB_EnableKeyboardIRQ | kCB_EnableMouseIRQ
abbrev pub enable_irqs : ℕ
enable_irqs = 0x03

-- kCB_DisableKeyboardClock | kCB_DisableMouseClock
abbrev pub disable_clocks : ℕ
disable_clocks = 0x30

abbrev pub system_flag : ℕ
system_flag = 0x04

pub record PowerState : Type 0 where
  pub current_power_state : ℕ
  pub power_control_installed_keyboard : Bool
  pub power_control_installed_mouse : Bool
  pub mouse_wake_first : Bool
  -- The calls of acknowledgeSetPowerState.
  pub acknowledged : ℕ

-- "commandByte &= ~(kCB_EnableKeyboardIRQ | kCB_EnableMouseIRQ | kCB_DisableMouseClock |
-- kCB_DisableMouseClock)" and "commandByte |= kCB_TranslateMode"
abbrev pub reset_command_byte : ℕ → ℕ
reset_command_byte x = bit_or (bit_and x (255 - bit_or (bit_or (bit_or 0x01 0x02) 0x20) 0x20)) 0x40

module _ {S D : Type 0} (m : Machine S D) where
  module _ (rounds : ℕ) where
    -- A read whose answer is not used.
    abbrev pub discard : DeviceType → M S D (Unit {0})
    discard device = do _ ← read_data_port m rounds device; pure tt

    abbrev pub suppress : Bool → M S D (Unit {0})
    suppress b c = some (tt, record c { suppress_timeout = b })

    unfoldable pub reset_controller : M S D (Unit {0})
    reset_controller = do
      suppress true
      write_command_port m rounds 0xad
      write_command_port m rounds 0xa7
      _ ← flush_loop m rounds 0
      write_command_port m rounds 0xa8
      write_command_port m rounds 0xae
      write_command_port m rounds get_command_byte
      command_byte ← read_data_port m rounds keyboard
      write_command_port m rounds 0xaa
      discard keyboard
      discard mouse
      write_command_port m rounds 0xab
      discard keyboard
      write_command_port m rounds 0xa9
      discard mouse
      suppress false
      write_command_port m rounds put_command_byte
      write_data_port m rounds (reset_command_byte command_byte)
      write_data_port m rounds 0xf5
      discard keyboard
      write_command_port m rounds transmit_to_mouse
      write_data_port m rounds 0xf5
      discard mouse
      _ ← flush_loop m rounds 0
      pure tt

    -- `power_action` stands for the power control actions of the drivers, which issue requests.
    module _ (power_action : DeviceType → PowerControl → M S D (Unit {0})) where
      unfoldable pub dispatch_driver_power_control :
          PowerControl → DeviceType → PowerState → M S D (Unit {0})
      dispatch_driver_power_control what keyboard p =
          if p.power_control_installed_keyboard then power_action keyboard what else pure tt
      dispatch_driver_power_control what mouse p =
          if p.power_control_installed_mouse then power_action mouse what else pure tt

      abbrev pub ignore_more : M S D (Unit {0})
      ignore_more c = some (tt, record c { ignore_interrupts = c.ignore_interrupts + 1 })

      abbrev pub ignore_less : M S D (Unit {0})
      ignore_less c = some (tt, record c { ignore_interrupts = c.ignore_interrupts - 1 })

      abbrev pub set_offline : Bool → M S D (Unit {0})
      set_offline b c = some (tt, record c { hardware_offline = b })

      -- "case kPS2PowerStateSleep"
      unfoldable pub go_to_sleep : PowerState → M S D (Unit {0})
      go_to_sleep p = do
        ignore_more
        _ ← set_command_byte m rounds 0 enable_irqs
        dispatch_driver_power_control disable_device mouse p
        dispatch_driver_power_control disable_device keyboard p
        set_offline true
        _ ← set_command_byte m rounds disable_clocks 0
        pure tt

      -- "Transition from Sleep state to Working state in 4 stages."
      unfoldable pub wake_up : PowerState → M S D (Unit {0})
      wake_up p = do
        reset_controller
        _ ← set_command_byte m rounds 0 (bit_or disable_clocks enable_irqs)
        set_offline false
        dispatch_driver_power_control enable_device (if p.mouse_wake_first then mouse else keyboard)
            p
        dispatch_driver_power_control enable_device (if p.mouse_wake_first then keyboard else mouse)
            p
        _ ← set_command_byte m rounds (bit_or enable_irqs system_flag) 0
        ignore_less

      abbrev pub transition : ℕ → PowerState → M S D (Unit {0})
      transition power_state p =
          if power_state == power_state_sleep
          then go_to_sleep p
          else if leb power_state power_state_normal && p.current_power_state == power_state_sleep
          then wake_up p
          else pure tt

      unfoldable pub set_power_state : ℕ → PowerState → M S D PowerState
      set_power_state power_state p = do
        (if p.current_power_state != power_state then transition power_state p else pure tt)
        pure (record p { current_power_state = power_state; acknowledged = p.acknowledged + 1 })

abbrev pub set_power_installed : Bool → DeviceType → PowerState → PowerState
set_power_installed b keyboard p = record p { power_control_installed_keyboard = b }
set_power_installed b mouse p = record p { power_control_installed_mouse = b }

abbrev pub power_installed : DeviceType → PowerState → Bool
power_installed keyboard p = p.power_control_installed_keyboard
power_installed mouse p = p.power_control_installed_mouse

-- The target and the action that are kept with the flag are those of `power_action`.
abbrev pub install_power_control_action : DeviceType → PowerState → PowerState
install_power_control_action device p =
    if not (power_installed device p) then set_power_installed true device p else p

abbrev pub uninstall_power_control_action : DeviceType → PowerState → PowerState
uninstall_power_control_action device p =
    if power_installed device p then set_power_installed false device p else p

abbrev kept_clock : ℕ → Bool
kept_clock x =
    bit_and (reset_command_byte x) 0x10 == bit_and x 0x10
    && bit_and (reset_command_byte x) 0x23 == 0

kept_table : every_below 256 kept_clock ≡ true
unfolding every_below
kept_table = refl

-- The command byte that the reset writes has the interrupts of both devices off and the clock of the
-- mouse on; the clock of the keyboard stays off if it was off.
pub reset_command_byte_lem :
    (x : ℕ)
    → x < 256
    → (bit_and (reset_command_byte x) 0x23 ≡ 0)
      × (bit_and (reset_command_byte x) 0x10 ≡ bit_and x 0x10)
reset_command_byte_lem x h = ground (arith, byte_table kept_clock kept_table x h)
