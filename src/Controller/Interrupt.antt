-- ===== src/Controller/Interrupt.antt =====
-- handleInterrupt, the interrupt handlers that call it, packetReadyKeyboard and packetReadyMouse, and
-- installInterruptAction and uninstallInterruptAction.
use os_x_voodoo_ps2_controll.Base.{
  ℕ, zero, suc, ◌<◌, ◌≡◌, ◌∙◌, ap, refl, arith, Bool, true, false, not, ◌&&◌, ◌||◌, Option, none,
  some, List, [], ◌∷◌, ◌++◌, length, ◌==◌, ◌!=◌, if◌then◌else◌, bit_and,
}
use os_x_voodoo_ps2_controll.Device.{InterruptResult, packet_ready, packet_buffering}
use os_x_voodoo_ps2_controll.Controller.{
  Controller, Machine, DeviceType, keyboard, mouse, installed, read_port, call_action, command_port,
  data_port, output_ready, mouse_data,
}
use os_x_voodoo_ps2_controll.Controller.Requests.{M, set_command_byte}

abbrev pub sender : Bool → DeviceType
sender from_mouse = if from_mouse then mouse else keyboard

abbrev pub is_ready : InterruptResult → Bool
is_ready packet_ready = true
is_ready packet_buffering = false

abbrev pub enable_irq : DeviceType → ℕ
enable_irq keyboard = 0x01
enable_irq mouse = 0x02

module _ {S D : Type 0} (m : Machine S D) where
  -- The loop `while (1)`, with `wakeMouse` and `wakeKeyboard`; a round for each byte.
  unfoldable pub handle_loop :
      ℕ → Bool → Bool → Controller S D → Option (Bool × Bool × Controller S D)
  handle_loop zero wake_mouse wake_keyboard c = none
  handle_loop (suc rounds) wake_mouse wake_keyboard c =
      let (status, c') = read_port m command_port c in
      elim (bit_and status output_ready == 0) [
        | true ↦ some (wake_mouse, wake_keyboard, c')
        | false ↦
            let (x, c'') = read_port m data_port c' in
            elim (bit_and status mouse_data != 0) [
              | true ↦
                  let (result, c''') = call_action m mouse x c'' in
                  handle_loop rounds (wake_mouse || is_ready result) wake_keyboard c'''
              | false ↦
                  let (result, c''') = call_action m keyboard x c'' in
                  handle_loop rounds wake_mouse (wake_keyboard || is_ready result) c'''
            ]
      ]

  abbrev pub wake : Bool → DeviceType → Controller S D → Controller S D
  wake needed device c = if needed then record c { signals = c.signals ++ device ∷ [] } else c

  unfoldable pub handle_interrupt : ℕ → Controller S D → Option (Controller S D)
  handle_interrupt rounds c = elim (handle_loop rounds false false c) [
    | none ↦ none
    | some (wake_mouse, wake_keyboard, c') ↦
        some (wake wake_keyboard keyboard (wake wake_mouse mouse c'))
  ]

  -- `interruptHandlerMouse` and `interruptHandlerKeyboard`, whose bodies are the same here.
  unfoldable pub interrupt_handler : ℕ → Controller S D → Option (Controller S D)
  interrupt_handler rounds c =
      if c.ignore_interrupts != 0 then some c else handle_interrupt rounds c

  -- `packetReadyKeyboard` and `packetReadyMouse`: `packet_action` is the action that is installed.
  pub packet_ready_source : (DeviceType → D → D) → DeviceType → Controller S D → Controller S D
  packet_ready_source packet_action device c =
      if installed m device c then record c { drivers = packet_action device c.drivers } else c

  abbrev set_installed : Bool → DeviceType → Controller S D → Controller S D
  set_installed b keyboard c = record c { interrupt_installed_keyboard = b }
  set_installed b mouse c = record c { interrupt_installed_mouse = b }

  -- `has_source` says that start has created the event source of the device.
  unfoldable pub install_interrupt_action : ℕ → (DeviceType → Bool) → DeviceType → M S D (Unit {0})
  install_interrupt_action rounds has_source device c =
      if not (installed m device c) && has_source device
      then elim (set_command_byte m rounds (enable_irq device) 0 c) [
        | none ↦ none
        | some (old, c') ↦ some (tt, set_installed true device c')
      ]
      else some (tt, c)

  unfoldable pub uninstall_interrupt_action : ℕ → DeviceType → M S D (Unit {0})
  uninstall_interrupt_action rounds device c =
      if installed m device c
      then elim (set_command_byte m rounds 0 (enable_irq device) c) [
        | none ↦ none
        | some (old, c') ↦ some (tt, set_installed false device c')
      ]
      else some (tt, c)

  -- From hardware state `s` on, the output buffer holds these bytes one after another, each with
  -- whether it is the mouse's, and is then empty.
  abbrev pub Holds : List (Bool × ℕ) → S → S → Type 0
  Holds [] s s' =
      ((bit_and (m.inb command_port s).0 output_ready == 0) ≡ true)
      × ((m.inb command_port s).1 ≡ s')
  Holds ((from_mouse, x) ∷ bytes) s s' =
      ((bit_and (m.inb command_port s).0 output_ready == 0) ≡ false)
      × ((bit_and (m.inb command_port s).0 mouse_data != 0) ≡ from_mouse)
      × ((m.inb data_port (m.inb command_port s).1).0 ≡ x)
      × Holds bytes (m.inb data_port (m.inb command_port s).1).1 s'

  -- Each byte is given to the driver of its sender, in order.
  pub sort_bytes : List (Bool × ℕ) → Controller S D → Controller S D
  sort_bytes [] c = c
  sort_bytes ((from_mouse, x) ∷ bytes) c =
      sort_bytes bytes (call_action m (sender from_mouse) x c).1

  -- One of the bytes of the mouse, or of the keyboard, has completed a packet.
  pub completes : Bool → List (Bool × ℕ) → Controller S D → Bool
  completes of_mouse [] c = false
  completes of_mouse ((from_mouse, x) ∷ bytes) c =
      let (result, c') = call_action m (sender from_mouse) x c in
      (if of_mouse then from_mouse else not from_mouse) && is_ready result
      || completes of_mouse bytes c'

  call_action-hardware :
      (device : DeviceType) (x : ℕ) (s : S) (c : Controller S D)
      → call_action m device x (record c { hardware = s })
        ≡ ((call_action m device x c).0, record (call_action m device x c).1 { hardware = s })
  unfolding call_action
  call_action-hardware device x s c = ground arith

  sort_bytes-hardware :
      (bytes : List (Bool × ℕ)) (s : S) (c : Controller S D)
      → sort_bytes bytes (record c { hardware = s }) ≡ record (sort_bytes bytes c) { hardware = s }
  unfolding sort_bytes
  sort_bytes-hardware [] s c = refl
  sort_bytes-hardware ((from_mouse, x) ∷ bytes) s c =
      ap (λ r. sort_bytes bytes r.1) (call_action-hardware (sender from_mouse) x s c)
      ∙ sort_bytes-hardware bytes s (call_action m (sender from_mouse) x c).1

  completes-hardware :
      (of_mouse : Bool) (bytes : List (Bool × ℕ)) (s : S) (c : Controller S D)
      → completes of_mouse bytes (record c { hardware = s }) ≡ completes of_mouse bytes c
  unfolding completes
  completes-hardware of_mouse [] s c = refl
  completes-hardware of_mouse ((from_mouse, x) ∷ bytes) s c = ground (
    arith,
    call_action-hardware (sender from_mouse) x s c,
    completes-hardware of_mouse bytes s (call_action m (sender from_mouse) x c).1,
  )

  handle_loop-Holds :
      (rounds : ℕ) (bytes : List (Bool × ℕ)) (wake_mouse wake_keyboard : Bool) (s' : S)
      (c : Controller S D)
      → Holds bytes c.hardware s'
      → length bytes < rounds
      → handle_loop rounds wake_mouse wake_keyboard c
        ≡ some (
          wake_mouse || completes true bytes c,
          wake_keyboard || completes false bytes c,
          record (sort_bytes bytes c) { hardware = s' },
        )
  unfolding handle_loop sort_bytes completes
  handle_loop-Holds zero bytes wm wk s' c h r = absurd (omega arith)
  handle_loop-Holds (suc rounds) [] wm wk s' c h r = ground (arith, h.0, h.1)
  handle_loop-Holds (suc rounds) ((from_mouse, x) ∷ bytes) wm wk s' c h r =
      let s₁ = (m.inb data_port (m.inb command_port c.hardware).1).1 in
      let called = call_action m (sender from_mouse) x c in
      let next : Controller S D = record called.1 { hardware = s₁ } in
      ground (
        arith,
        h.0,
        h.1,
        h.2,
        call_action-hardware (sender from_mouse) x s₁ c,
        handle_loop-Holds rounds bytes (wm || (from_mouse && is_ready called.0))
            (wk || (not from_mouse && is_ready called.0)) s' next h.3 (omega (arith, r)),
        sort_bytes-hardware bytes s₁ called.1,
        completes-hardware true bytes s₁ called.1,
        completes-hardware false bytes s₁ called.1,
      )

  -- With a round more than there are bytes, an interrupt gives every byte that the output buffer
  -- holds to the driver of its sender, in order, and wakes the work loop for each device of which a
  -- packet is complete, once for all its bytes and for the mouse first; while interrupts are
  -- ignored it does nothing.
  pub interrupt_handler-Holds :
      (rounds : ℕ) (bytes : List (Bool × ℕ)) (s' : S) (c : Controller S D)
      → Holds bytes c.hardware s'
      → length bytes < rounds
      → interrupt_handler rounds c
        ≡ some (
            if c.ignore_interrupts == 0
            then wake (completes false bytes c) keyboard (
                wake (completes true bytes c) mouse (record (sort_bytes bytes c) { hardware = s' }))
            else c)
  unfolding interrupt_handler handle_interrupt
  interrupt_handler-Holds rounds bytes s' c h r =
      ground (arith, handle_loop-Holds rounds bytes false false s' c h r)
