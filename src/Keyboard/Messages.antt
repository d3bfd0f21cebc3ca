-- ===== src/Keyboard/Messages.antt =====
-- message, sendKeySequence and initKeyboard, with the requests of setLEDs, setKeyboardEnable and the
-- two functions that set a light.
pub mod Reset
pub mod Acpi
pub mod Sequences
use os_x_voodoo_ps2_controll.Base.{
  ℕ, zero, suc, ◌+◌, ◌-◌, ◌*◌, ◌/◌, ◌%◌, ◌^◌, Bool, true, false, not, ◌&&◌, ◌||◌, List, [], ◌∷◌,
  ◌++◌, ltb, leb, ◌==◌, ◌!=◌, if◌then◌else◌, bit_and, bit_or, get_or, replicate,
}
use os_x_voodoo_ps2_controll.Device.{Kernel, sc_acknowledge, sc_up_bit}
use os_x_voodoo_ps2_controll.Ring.{reset}
use os_x_voodoo_ps2_controll.Controller.Command.{Command, write_data, read_data_and_compare, Kind}
use os_x_voodoo_ps2_controll.Keyboard.{Keyboard, is_key_down, ring_size}
use os_x_voodoo_ps2_controll.Keyboard.Macros.{Macros, handle_packet}
use os_x_voodoo_ps2_controll.Keyboard.Events.{Typist, Settings, World, dispatch_keyboard_event_now}
use os_x_voodoo_ps2_controll.Keyboard.Dispatch.{dispatch_packet}

-- What a driver sends to the controller: a request, which is a list of commands, or the change of the
-- command byte, with the bits to set and to clear.
pub data Sent : Type 0 where
  request : List Command → Sent
  command_byte : ℕ → ℕ → Sent

abbrev pub acknowledged : ℕ → List Command → List Command
acknowledged x rest =
    record { kind = write_data; word = x }
    ∷ record { kind = read_data_and_compare; word = sc_acknowledge }
    ∷ rest

abbrev pub dp_set_keyboard_leds : ℕ
dp_set_keyboard_leds = 0xed

abbrev pub dp_enable : ℕ
dp_enable = 0xf4

abbrev pub dp_set_defaults_and_disable : ℕ
dp_set_defaults_and_disable = 0xf5

abbrev pub dp_set_defaults : ℕ
dp_set_defaults = 0xf6

abbrev pub cb_translate_mode : ℕ
cb_translate_mode = 0x40

abbrev pub led_num_lock : ℕ
led_num_lock = 2

abbrev pub led_caps_lock : ℕ
led_caps_lock = 4

-- setLEDs
unfoldable pub set_leds : ℕ → Sent
set_leds led_state = request (acknowledged dp_set_keyboard_leds (acknowledged led_state []))

-- setKeyboardEnable
unfoldable pub set_keyboard_enable : Bool → Sent
set_keyboard_enable enable =
    request (acknowledged (if enable then dp_enable else dp_set_defaults_and_disable) [])

-- The lights after setAlphaLockFeedback or setNumLockFeedback, which call setLEDs with them.
pub set_light : ℕ → Bool → ℕ → ℕ
set_light mask locked led_state =
    if locked then bit_or led_state mask else bit_and led_state (255 - mask)

abbrev pub set_alpha_lock_feedback : Bool → ℕ → ℕ × Sent
set_alpha_lock_feedback locked led_state =
    let lights = set_light led_caps_lock locked led_state in (lights, set_leds lights)

abbrev pub set_num_lock_feedback : Bool → ℕ → ℕ × Sent
set_num_lock_feedback locked led_state =
    let lights = set_light led_num_lock locked led_state in (lights, set_leds lights)

-- The `n` bytes of a number, lowest first.
unfoldable pub bytes_of : ℕ → ℕ → List ℕ
bytes_of zero x = []
bytes_of (suc n) x = x % 256 ∷ bytes_of n (x / 256)

-- A packet with its time; the six bytes between are not used.
abbrev pub stamped : ℕ → ℕ → ℕ → List ℕ
stamped first second now = first ∷ second ∷ 0 ∷ 0 ∷ 0 ∷ 0 ∷ 0 ∷ 0 ∷ bytes_of 8 now

-- The messages of other drivers and of ACPI that the keyboard acts on. That of ACPI has a 32-bit
-- number; without one, it does nothing and is left out.
pub data Message : Type 0 where
  swipe_down swipe_left swipe_right swipe_up : Message
  device_notification : ℕ → Message

-- The four arrays of actions.
pub record Actions : Type 0 where
  pub action_swipe_up : List ℕ
  pub action_swipe_down : List ℕ
  pub action_swipe_left : List ℕ
  pub action_swipe_right : List ℕ

-- The members that the interrupt routine and the dispatch share.
abbrev pub with_keyboard : Settings → Keyboard → Settings
with_keyboard c k = record c { key_bit_vector = k.key_bit_vector; ps2_flags = k.ps2_flags }

module _ (w : World) where
  -- sendKeySequence, up to the entry 0.
  unfoldable pub send_key_sequence : List ℕ → Typist → Typist
  send_key_sequence [] s = s
  send_key_sequence (key ∷ keys) s =
      if key == 0
      then s
      else send_key_sequence keys
          (dispatch_keyboard_event_now w (bit_and key 0xff) (bit_and key 0x1000 == 0) s)

  module _ (k : Kernel) (c : Settings) where
    -- "if (!_macroInversion || !invertMacros(packet)) dispatchKeyboardEventWithPacket(packet)", after
    -- the packet is marked with the time.
    abbrev pub type_packet : ℕ → ℕ → Macros Typist → Macros Typist
    type_packet first second s =
        handle_packet k (λ packet t. (dispatch_packet w c packet t).1) (λ t. t.modifier_state)
          (stamped first second (k.uptime s.clock_reads))
          (record s { clock_reads = s.clock_reads + 1 })

    -- kIOACPIMessageDeviceNotification: "code 3 and 4 indicate send both make and break".
    unfoldable pub acpi_message : ℕ → Macros Typist → Macros Typist
    acpi_message argument s =
        let first = argument / 256 in
        let second = argument % 256 in
        if leb (2 ^ 16) argument
        then s
        else if first == 1 || first == 2
        then type_packet first second s
        else if first == 3 || first == 4
        then type_packet (first - 2) (bit_or second 0x80) (type_packet (first - 2) second s)
        else s

    unfoldable pub message : Actions → Message → Macros Typist → Macros Typist
    message a m s = elim m [
      | swipe_down ↦ record s { driver = send_key_sequence a.action_swipe_down s.driver }
      | swipe_left ↦ record s { driver = send_key_sequence a.action_swipe_left s.driver }
      | swipe_right ↦ record s { driver = send_key_sequence a.action_swipe_right s.driver }
      | swipe_up ↦ record s { driver = send_key_sequence a.action_swipe_up s.driver }
      | device_notification argument ↦ acpi_message argument s
    ]

  -- "for each key that is down, dispatch a key up for it": `unset` are the bytes of the packet that
  -- are not written, the time among them. `left` counts the keys from `key` on.
  unfoldable pub release_keys : Settings → List ℕ → ℕ → ℕ → Typist → Typist
  release_keys c unset zero key s = s
  release_keys c unset (suc left) key s =
      let first : ℕ = if ltb key 256 then 1 else 2 in
      let packet = first ∷ bit_or key sc_up_bit % 256 ∷ unset in
      release_keys c unset left (key + 1)
        (if is_key_down key c.key_bit_vector then (dispatch_packet w c packet s).1 else s)

  -- initKeyboard: what it sends, and the members after it.
  unfoldable pub init_sent : ℕ → List Sent
  init_sent led_state =
      request (acknowledged dp_set_defaults [])
      ∷ set_leds led_state
      ∷ set_keyboard_enable true
      ∷ command_byte cb_translate_mode 0
      ∷ []

  unfoldable pub init_keyboard : Settings → List ℕ → Keyboard × Typist → Keyboard × Typist
  init_keyboard c unset (k, s) = (
    record k { key_bit_vector = replicate 16 0; extend_count = 0; ring = reset k.ring },
    record (release_keys (with_keyboard c k) unset 512 0 s) { modifier_state = 0 },
  )
