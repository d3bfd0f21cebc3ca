-- ===== src/Keyboard/Tests/Typing.antt =====
-- Keys, levels, actions and messages, with a system that answers yes and eats no key.
use os_x_voodoo_ps2_controll.Base.{
  ℕ, zero, suc, ◌+◌, ◌-◌, ◌%◌, ◌^◌, ◌/◌, ◌≡◌, refl, arith, Bool, true, false, some, none, List, [],
  ◌∷◌, replicate, if◌then◌else◌, get_or, bit_and, ◌!=◌, ◌==◌, inl, inr, Bool-cases, not, ltb, ◌&&◌,
  ◌||◌,
}
use os_x_voodoo_ps2_controll.Device.{Kernel}
use os_x_voodoo_ps2_controll.Ring.{count, span}
use os_x_voodoo_ps2_controll.Keyboard.Packets.{IsValid}
use os_x_voodoo_ps2_controll.Keyboard.{
  Keyboard, ring_size, is_key_down, interrupt_occurred, breakless_key,
}
use os_x_voodoo_ps2_controll.Base.Bits.{bit-none}
use os_x_voodoo_ps2_controll.Base.Bytes.{every_below, every-test, none-bit_and}
use os_x_voodoo_ps2_controll.Keyboard.Macros.{Macros}
use os_x_voodoo_ps2_controll.Keyboard.Held.{IsCode}
use os_x_voodoo_ps2_controll.Keyboard.Tables.{ps2_to_adb_map_stock}
use os_x_voodoo_ps2_controll.Keyboard.Tables.Flags.{ps2_flags_stock}
use os_x_voodoo_ps2_controll.Keyboard.Events.{
  key_event, evaluate_object, kbqc, kbcm, Typist, Settings, World, timer_sleep,
}
use os_x_voodoo_ps2_controll.Keyboard.Levels.{modify_level}
use os_x_voodoo_ps2_controll.Keyboard.Levels.Steps.{modify_level-step}
use os_x_voodoo_ps2_controll.Keyboard.Dispatch.{dispatch_key, dispatch_packet}
use os_x_voodoo_ps2_controll.Keyboard.Dispatch.Tracking.{typed, IsTracked, typed-IsTracked}
use os_x_voodoo_ps2_controll.Keyboard.Dispatch.Stock.{beyond, stock-IsTable, stock_power}
use os_x_voodoo_ps2_controll.Keyboard.Dispatch.Ordinary.{
  is_ordinary, adb_code, key_events, press-release,
}
use os_x_voodoo_ps2_controll.Keyboard.Dispatch.Salute.{IsGuarded, nothing}
use os_x_voodoo_ps2_controll.Keyboard.Dispatch.Salute.Packets.{dispatch_packet-IsGuarded}
use os_x_voodoo_ps2_controll.Keyboard.Parse.{parse_action}
use os_x_voodoo_ps2_controll.Keyboard.Messages.{
  init_keyboard, acpi_message, send_key_sequence, with_keyboard,
}
use os_x_voodoo_ps2_controll.Keyboard.Messages.Reset.{
  is_plain, AllReleasable, held_keys, released, unset_time, init_keyboard_lem, all_up,
}
use os_x_voodoo_ps2_controll.Keyboard.Messages.Sequences.{print_steps, type_steps}
use os_x_voodoo_ps2_controll.Keyboard.Messages.Sequences.Arrays.{parse_action-send}
use os_x_voodoo_ps2_controll.Keyboard.Messages.Acpi.{acpi_message-press}
use os_x_voodoo_ps2_controll.Keyboard.Tests.{
  nothing_typed, nothing_typed-IsValid, ticks, clock, packet_of,
}

abbrev answers : World
answers = record {
  kernel = clock;
  evaluate_integer = λ method es. some 40;
  gives_number = λ es. true;
  has_power_root = λ es. true;
  touchpad_disabled = λ es. false;
  eats_key = λ info es. false;
  has_hid_system = λ es. true;
}

abbrev count_up : ℕ → ℕ → List ℕ
count_up zero from = []
count_up (suc n) from = from ∷ count_up n (from + 1)

-- The driver as it starts, for a system that has no levels to step through.
abbrev small_settings : Settings
small_settings = record {
  ps2_to_ps2_map = count_up 512 0;
  ps2_to_adb_map = ps2_to_adb_map_stock;
  ps2_flags = ps2_flags_stock;
  key_bit_vector = replicate 16 0;
  brightness_levels = none;
  backlight_levels = none;
  brightness_hack = true;
  has_provider = true;
  fkeymode = 0;
  fkeymodesupported = true;
  maxsleeppresstime = 500;
  f12ejectdelay = 250;
  version_major = 16;
}

abbrev fresh : Typist
fresh = record {
  modifier_state = 0;
  timer_func = timer_sleep;
  sleep_eject_timer = none;
  caps_first_time = true;
  clock_reads = 0;
  effects = [];
}

abbrev rising_levels : List ℕ
rising_levels = 80 ∷ 40 ∷ 20 ∷ 40 ∷ 60 ∷ []

level_example :
    (modify_level answers kbqc kbcm 2 true true rising_levels fresh).effects
    ≡ evaluate_object kbcm 60 ∷ []
level_example =
    modify_level-step answers kbqc kbcm 2 3 true true rising_levels fresh
      ((refl, (refl, tt)), ((refl, tt), (tt, tt))) (omega arith) (omega arith) refl refl

abbrev with_flags : Keyboard
with_flags = record nothing_typed { ps2_flags = ps2_flags_stock }

abbrev shift_code : IsCode 0x2a with_flags
shift_code = record { byte = omega arith; no_reset = refl; ordinary = refl; extended = omega arith }

none-IsTracked : (flags : List ℕ) → IsTracked flags (replicate 16 0) 0
none-IsTracked flags key n = ground (arith, bit-none (get_or flags key 0 / 256 - 1), all_up key)

with_flags-IsValid : IsValid with_flags
with_flags-IsValid = record {
  aligned = nothing_typed-IsValid.aligned;
  extended = omega arith;
  units = refl;
}

modifier_example :
    IsTracked ps2_flags_stock
      (interrupt_occurred ticks 0x2a with_flags).1.key_bit_vector
      (typed answers small_settings
        (interrupt_occurred ticks 0x2a with_flags).1
        fresh).modifier_state
unfolding count span
modifier_example =
    typed-IsTracked ticks answers small_settings 0x2a with_flags fresh with_flags-IsValid refl
      shift_code (omega arith) stock-IsTable refl (none-IsTracked ps2_flags_stock)

press_example :
    key_events
      (dispatch_key answers small_settings 0x1e false 9
        (dispatch_key answers small_settings 0x1e true 5 fresh)).effects
    ≡ key_event
        (adb_code small_settings 0x1e)
        false
        (if bit_and (get_or ps2_flags_stock 0x1e 0) breakless_key != 0 then 5 else 9)
      ∷ key_event (adb_code small_settings 0x1e) true 5
      ∷ key_events []
press_example = press-release answers small_settings 0x1e 5 9 fresh refl (λ info es. refl)

guarded_example :
    IsGuarded (dispatch_packet answers small_settings (packet_of 2 0x53) fresh).1.effects
guarded_example =
    dispatch_packet-IsGuarded answers small_settings stock_power (packet_of 2 0x53) fresh
      (omega arith) nothing

send_example :
    ((parse_action 16 (print_steps ((0x3b, true) ∷ (0x7e, true) ∷ [])) (replicate 16 0)).0 ≡ true)
    × (send_key_sequence answers
          (parse_action 16 (print_steps ((0x3b, true) ∷ (0x7e, true) ∷ [])) (replicate 16 0)).1
          fresh
        ≡ type_steps answers ((0x3b, true) ∷ (0x7e, true) ∷ []) fresh)
send_example =
    parse_action-send answers 0x3b true ((0x7e, true) ∷ []) 16 (replicate 16 0) fresh
      ((omega arith, omega arith), ((omega arith, omega arith), tt)) (omega arith) (omega arith)

abbrev no_macros : Macros Typist
no_macros = record {
  macro_inversion = [];
  has_timer = true;
  macro_buffer = [];
  macro_max = 0;
  macro_current = 0;
  macro_max_time = 1000;
  timer = none;
  clock_reads = 3;
  driver = fresh;
}

-- The reading of a clock of 64 bits.
abbrev clock_64 : Kernel
clock_64 = record { uptime = λ n. n % 2 ^ 64; to_ns = λ t. t }

acpi_example :
    key_events
      (acpi_message answers clock_64 small_settings (0x300 + 0x1e) no_macros).driver.effects
    ≡ key_event
        (adb_code small_settings 0x1e)
        false
        ((if bit_and (get_or ps2_flags_stock 0x1e 0) breakless_key != 0 then 3 else 3 + 1) % 2 ^ 64)
      ∷ key_event (adb_code small_settings 0x1e) true (3 % 2 ^ 64)
      ∷ key_events []
acpi_example =
    acpi_message-press answers clock_64 small_settings 0x1e no_macros (omega arith) refl refl refl
      (λ n. omega arith) (λ info es. refl)

-- Two keys are held.
abbrev held_down : Keyboard
held_down = record with_flags { key_bit_vector = (2 ^ 30 + 2 ^ 31) ∷ replicate 15 0 }

abbrev releasable_test : ℕ → Bool
releasable_test key =
    not (is_key_down key held_down.key_bit_vector)
    || is_plain key
      && is_ordinary small_settings key
      && bit_and (get_or ps2_flags_stock key 0) breakless_key == 0

releasable_table : every_below 512 releasable_test ≡ true
unfolding every_below
releasable_table = refl

held_releasable : AllReleasable (with_keyboard small_settings held_down)
held_releasable key h = elim (Bool-cases (ltb key 512)) [
  | inl e ↦
      ground (arith, h, every-test releasable_test 512 key (ground (arith, e)) releasable_table)
  | inr e ↦ ground (
    arith,
    h,
    beyond held_down.key_bit_vector (key / 32) (ground (arith, e)),
    none-bit_and (2 ^ (key % 32)),
  )
]

reset_example :
    (key_events (init_keyboard answers small_settings (replicate 14 0) (held_down, fresh)).1.effects
      ≡ released
          (with_keyboard small_settings held_down)
          (unset_time (replicate 14 0))
          (held_keys held_down.key_bit_vector 512 0)
          (key_events []))
    × ((init_keyboard answers small_settings (replicate 14 0) (held_down, fresh)).1.modifier_state
        ≡ 0)
    × ((key : ℕ)
        → is_key_down key
            (init_keyboard answers small_settings
              (replicate 14 0)
              (held_down, fresh)).0.key_bit_vector
          ≡ false)
    × (count ring_size
          (init_keyboard answers small_settings (replicate 14 0) (held_down, fresh)).0.ring
        ≡ 0)
    × ((init_keyboard answers small_settings (replicate 14 0) (held_down, fresh)).0.extend_count
        ≡ 0)
reset_example =
    init_keyboard_lem answers small_settings (replicate 14 0) held_down fresh (λ info es. refl)
      held_releasable
