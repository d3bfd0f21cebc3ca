-- ===== src/Controller/Power/Transitions.antt =====
-- The power states: while the machine sleeps the hardware is off line and interrupts are ignored, and
-- a transition brings both about.

use os_x_voodoo_ps2_controll.Base.{
  ℕ, ◌+◌, ◌-◌, ◌≤◌, ◌≡◌, ◌≢◌, refl, arith, Bool, true, false, none, some, ◌==◌, ◌!=◌, if◌then◌else◌,
  inl, inr, Bool-cases, bit_or,
}
use os_x_voodoo_ps2_controll.Controller.{Controller, Machine, DeviceType, keyboard, mouse}
use os_x_voodoo_ps2_controll.Controller.Reading.{read_data_port}
use os_x_voodoo_ps2_controll.Controller.Requests.{M, wait_input, flush_loop, set_command_byte, pure}
use os_x_voodoo_ps2_controll.Controller.Service.{opened}
use os_x_voodoo_ps2_controll.Controller.Power.{
  PowerState, PowerControl, enable_device, disable_device, power_state_sleep, power_state_normal,
  reset_controller, dispatch_driver_power_control, go_to_sleep, wake_up, transition,
  set_power_state, enable_irqs, disable_clocks, system_flag,
}
use os_x_voodoo_ps2_controll.Controller.Power.Reaching.{
  At, Reaches, bind-Reaches, as_Reaches, if-Reaches, reset_controller-Reaches,
  set_command_byte-Reaches,
}

module _ {S D : Type 0} (m : Machine S D) (rounds : ℕ)
    (ready : (c : Controller S D) → wait_input m rounds c ≢ none)
    (reads : (device : DeviceType) (c : Controller S D) → read_data_port m rounds device c ≢ none)
    (flushes : (n : ℕ) (c : Controller S D) → flush_loop m rounds n c ≢ none) where
  module _ (power_action : DeviceType → PowerControl → M S D (Unit {0}))
      (acts : (device : DeviceType) (what : PowerControl) (o : Bool) (n : ℕ) (c : Controller S D)
        → At o n c
        → Reaches o n (power_action device what c)) where
    notify-Reaches :
        {o : Bool} {n : ℕ} (what : PowerControl) (device : DeviceType) (p : PowerState)
        (c : Controller S D)
        → At o n c
        → Reaches o n (dispatch_driver_power_control m rounds power_action what device p c)
    unfolding dispatch_driver_power_control
    notify-Reaches what keyboard p c at =
        if-Reaches p.power_control_installed_keyboard (power_action keyboard what) _ c
          (acts keyboard what _ _ c at) (tt, c, refl, at)
    notify-Reaches what mouse p c at =
        if-Reaches p.power_control_installed_mouse (power_action mouse what) _ c
          (acts mouse what _ _ c at) (tt, c, refl, at)

    go_to_sleep-Reaches :
        {o : Bool} {n : ℕ} (p : PowerState) (c : Controller S D)
        → At o n c
        → Reaches true (n + 1) (go_to_sleep m rounds power_action p c)
    unfolding go_to_sleep
    go_to_sleep-Reaches {o} {n} p c at =
        let c₁ : Controller S D = record c { ignore_interrupts = c.ignore_interrupts + 1 } in
        let at₁ : At o (n + 1) c₁ = record {
          offline_at = at.offline_at;
          ignored_at = omega (arith, at.ignored_at);
        } in
        bind-Reaches (set_command_byte m rounds 0 enable_irqs) _ c₁
          (set_command_byte-Reaches m rounds ready reads flushes 0 enable_irqs c₁ at₁)
          (λ _ c₂ at₂.
            bind-Reaches
              (dispatch_driver_power_control m rounds power_action disable_device mouse p) _ c₂
              (notify-Reaches disable_device mouse p c₂ at₂)
              (λ _ c₃ at₃.
                bind-Reaches
                  (dispatch_driver_power_control m rounds power_action disable_device keyboard p) _
                  c₃ (notify-Reaches disable_device keyboard p c₃ at₃)
                  (λ _ c₄ at₄.
                    let c₅ : Controller S D = record c₄ { hardware_offline = true } in
                    let at₅ : At true (n + 1) c₅ = record {
                      offline_at = refl;
                      ignored_at = at₄.ignored_at;
                    } in
                    bind-Reaches (set_command_byte m rounds disable_clocks 0) _ c₅
                      (set_command_byte-Reaches m rounds ready reads flushes disable_clocks 0 c₅
                        at₅)
                      (λ _ c₆ at₆. (tt, c₆, refl, at₆)))))

    wake_up-Reaches :
        {o : Bool} {n : ℕ} (p : PowerState) (c : Controller S D)
        → At o (n + 1) c
        → Reaches false n (wake_up m rounds power_action p c)
    unfolding wake_up
    wake_up-Reaches {o} {n} p c at =
        bind-Reaches (reset_controller m rounds) _ c
          (reset_controller-Reaches m rounds ready reads flushes c at)
          (λ _ c₁ at₁.
            bind-Reaches (set_command_byte m rounds 0 (bit_or disable_clocks enable_irqs)) _ c₁
              (set_command_byte-Reaches m rounds ready reads flushes 0
                (bit_or disable_clocks enable_irqs) c₁ at₁)
              (λ _ c₂ at₂.
                let c₃ : Controller S D = record c₂ { hardware_offline = false } in
                let at₃ : At false (n + 1) c₃ = record {
                  offline_at = refl;
                  ignored_at = at₂.ignored_at;
                } in
                bind-Reaches
                  (dispatch_driver_power_control m rounds power_action enable_device
                    (if p.mouse_wake_first then mouse else keyboard) p)
                  _ c₃ (notify-Reaches enable_device _ p c₃ at₃)
                  (λ _ c₄ at₄.
                    bind-Reaches
                      (dispatch_driver_power_control m rounds power_action enable_device
                        (if p.mouse_wake_first then keyboard else mouse) p)
                      _ c₄ (notify-Reaches enable_device _ p c₄ at₄)
                      (λ _ c₅ at₅.
                        bind-Reaches (set_command_byte m rounds (bit_or enable_irqs system_flag) 0)
                          _ c₅
                          (set_command_byte-Reaches m rounds ready reads flushes
                            (bit_or enable_irqs system_flag) 0 c₅ at₅)
                          (λ _ c₆ at₆. (
                            tt,
                            record c₆ { ignore_interrupts = c₆.ignore_interrupts - 1 },
                            refl,
                            record {
                              offline_at = at₆.offline_at;
                              ignored_at = omega (arith, at₆.ignored_at);
                            },
                          ))))))

    -- In power state `power_state` the hardware is off line exactly if that is sleep, and there is then
    -- a reason more to ignore interrupts than the `n` there are besides.
    abbrev pub Powered : ℕ → ℕ → Controller S D → Type 0
    Powered n power_state =
        At (power_state == power_state_sleep)
          (if power_state == power_state_sleep then n + 1 else n)

    change-Powered :
        (n power_state : ℕ) (p : PowerState) (c : Controller S D)
        → power_state ≤ power_state_normal
        → Powered n p.current_power_state c
        → Reaches
            (power_state == power_state_sleep)
            (if power_state == power_state_sleep then n + 1 else n)
            ((if p.current_power_state != power_state
                then transition m rounds power_action power_state p
                else pure tt)
              c)
    change-Powered n power_state p c h at =
        let current = p.current_power_state in
        elim (Bool-cases (current == power_state)) [
          | inl e ↦ as_Reaches (ground (arith, e)) refl refl (
            tt,
            c,
            refl,
            record { offline_at = ground (arith, at, e); ignored_at = ground (arith, at, e) },
          )
          | inr e ↦ elim (Bool-cases (power_state == power_state_sleep)) [
            | inl z ↦
                let at' : At false n c = record {
                  offline_at = ground (arith, at, e, z);
                  ignored_at = ground (arith, at, e, z);
                } in
                as_Reaches (ground (arith, e, z)) (ground (arith, z)) (ground (arith, z))
                  (go_to_sleep-Reaches p c at')
            | inr z ↦ elim (Bool-cases (current == power_state_sleep)) [
              | inl w ↦
                  let at' : At true (n + 1) c = record {
                    offline_at = ground (arith, at, w);
                    ignored_at = ground (arith, at, w);
                  } in
                  as_Reaches (ground (arith, e, z, w, h)) (ground (arith, z)) (ground (arith, z))
                    (wake_up-Reaches p c at')
              | inr w ↦ as_Reaches (ground (arith, e, z, w)) refl refl (
                tt,
                c,
                refl,
                record {
                  offline_at = ground (arith, at, z, w);
                  ignored_at = ground (arith, at, z, w);
                },
              )
            ]
          ]
        ]

    -- Where the waits for the hardware end and the drivers' power actions return and leave both
    -- alone, a transition to any of the three power states returns with the hardware off line
    -- exactly if the state is sleep, a reason more to ignore interrupts then and none more
    -- otherwise, and one acknowledgement more.
    pub set_power_state-Powered :
        (n power_state : ℕ) (p : PowerState) (c : Controller S D)
        → power_state ≤ power_state_normal
        → Powered n p.current_power_state c
        → (p' : PowerState) × (c' : Controller S D) × (set_power_state m rounds power_action
              power_state p c
            ≡ some (p', c'))
          × (p'.current_power_state ≡ power_state)
          × (p'.acknowledged ≡ p.acknowledged + 1)
          × Powered n power_state c'
    unfolding set_power_state
    set_power_state-Powered n power_state p c h at =
        let p' : PowerState = record p {
          current_power_state = power_state;
          acknowledged = p.acknowledged + 1;
        } in
        let (_, c', q, at') = change-Powered n power_state p c h at in
        (
          p',
          c',
          opened
              (if p.current_power_state != power_state
                then transition m rounds power_action power_state p
                else pure tt)
              (λ _. pure p') c q,
          refl,
          refl,
          at',
        )
