-- ===== src/Controller/Power/Reaching.antt =====
-- What the commands of a power transition leave the bookkeeping at, where the waits for the hardware end.
use os_x_voodoo_ps2_controll.Base.{
  ℕ, ◌+◌, ◌-◌, ◌≡◌, ◌≢◌, ◌∙◌, refl, arith, Bool, true, false, Option, none, some, ◌==◌,
  if◌then◌else◌, inl, inr, Option-cases, bit_and, bit_or,
}
use os_x_voodoo_ps2_controll.Controller.{Controller, Machine, DeviceType, keyboard, mouse}
use os_x_voodoo_ps2_controll.Controller.Reading.{read_data_port}
use os_x_voodoo_ps2_controll.Controller.Requests.{
  M, ◌>>=◌, ◌>>◌, transmit_to_mouse, wait_input, flush_loop, write_data_port, write_command_port,
  set_command_byte, get_command_byte, put_command_byte, pure,
}
use os_x_voodoo_ps2_controll.Controller.Bookkeeping.{flush_loop-Same}
use os_x_voodoo_ps2_controll.Controller.Service.{opened}
use os_x_voodoo_ps2_controll.Controller.Keeping.{Keeps, wait-Keeps, read-Keeps}
use os_x_voodoo_ps2_controll.Controller.Power.{
  discard, suppress, reset_command_byte, reset_controller,
}

-- Whether the hardware is off line, and the count of reasons to ignore interrupts.
pub record At {S D : Type 0} (offline : Bool) (ignored : ℕ) (c : Controller S D) : Type 0 where
  pub offline_at : c.hardware_offline ≡ offline
  pub ignored_at : c.ignore_interrupts ≡ ignored

-- An action returns, in such a state.
abbrev pub Reaches : {S D A : Type 0} → Bool → ℕ → Option (A × Controller S D) → Type 0
Reaches {S} {D} {A} offline ignored r =
    (a : A) × (c' : Controller S D) × (r ≡ some (a, c')) × At offline ignored c'

pub bind-Reaches :
    {S D A B : Type 0} {o o' : Bool} {n n' : ℕ} (act : M S D A) (f : A → M S D B)
    (c : Controller S D)
    → Reaches o n (act c)
    → ((a : A) (c' : Controller S D) → At o n c' → Reaches o' n' (f a c'))
    → Reaches o' n' ((act >>= f) c)
bind-Reaches act f c (a, c', q, at) k =
    let (b, c'', q', at') = k a c' at in (b, c'', opened act f c q ∙ q', at')

-- Actions one after the other that keep such a state.
abbrev Stays : {S D A : Type 0} → Bool → ℕ → M S D A → Type 0
Stays {S} {D} o n act = (c : Controller S D) → At o n c → Reaches o n (act c)

infixr 3 ◌⟫=◌ ◌⟫◌
◌⟫=◌ :
    {S D A B : Type 0} {o : Bool} {n : ℕ} {act : M S D A} {f : A → M S D B}
    → Stays o n act
    → ((a : A) → Stays o n (f a))
    → Stays o n (act >>= f)
◌⟫=◌ {act = act} {f = f} h k c at = bind-Reaches act f c (h c at) k

◌⟫◌ :
    {S D A B : Type 0} {o : Bool} {n : ℕ} {act : M S D A} {rest : M S D B}
    → Stays o n act
    → Stays o n rest
    → Stays o n (act >>= λ _. rest)
h ⟫ k = h ⟫= λ _. k

-- An action that always returns and leaves the bookkeeping alone.
kept :
    {S D A : Type 0} {o : Bool} {n : ℕ} (act : M S D A) (c : Controller S D)
    → act c ≢ none
    → Keeps c (act c)
    → At o n c
    → Reaches o n (act c)
kept act c h k at = elim (Option-cases (act c)) [
  | inl q ↦ absurd (h q)
  | inr ((a, c'), q) ↦
      let same = k a c' q in
      (
        a,
        c',
        q,
        record {
          offline_at = same.same_offline ∙ at.offline_at;
          ignored_at = same.same_ignored ∙ at.ignored_at;
        },
      )
]

pub as_Reaches :
    {S D A : Type 0} {o o' : Bool} {n n' : ℕ} {r r' : Option (A × Controller S D)}
    → r' ≡ r
    → o ≡ o'
    → n ≡ n'
    → Reaches o n r
    → Reaches o' n' r'
as_Reaches e f g (a, c', q, at) =
    (a, c', e ∙ q, record { offline_at = at.offline_at ∙ f; ignored_at = at.ignored_at ∙ g })

pub if-Reaches :
    {S D A : Type 0} {o : Bool} {n : ℕ} (b : Bool) (f g : M S D A) (c : Controller S D)
    → Reaches o n (f c)
    → Reaches o n (g c)
    → Reaches o n ((if b then f else g) c)
if-Reaches true f g c h k = h
if-Reaches false f g c h k = k

module _ {S D : Type 0} (m : Machine S D) (rounds : ℕ)
    (ready : (c : Controller S D) → wait_input m rounds c ≢ none)
    (reads : (device : DeviceType) (c : Controller S D) → read_data_port m rounds device c ≢ none)
    (flushes : (n : ℕ) (c : Controller S D) → flush_loop m rounds n c ≢ none) where
  module _ {o : Bool} {n : ℕ} where
    write_data-Reaches :
        (x : ℕ) (c : Controller S D) → At o n c → Reaches o n (write_data_port m rounds x c)
    unfolding write_data_port
    write_data-Reaches x c at =
        bind-Reaches (wait_input m rounds) _ c
          (kept (wait_input m rounds) c (ready c) (wait-Keeps m rounds c) at)
          (λ _ c' at'.
            (_, _, refl, record { offline_at = at'.offline_at; ignored_at = at'.ignored_at }))

    write_command-Reaches :
        (x : ℕ) (c : Controller S D) → At o n c → Reaches o n (write_command_port m rounds x c)
    unfolding write_command_port
    write_command-Reaches x c at =
        bind-Reaches (wait_input m rounds) _ c
          (kept (wait_input m rounds) c (ready c) (wait-Keeps m rounds c) at)
          (λ _ c' at'.
            (_, _, refl, record { offline_at = at'.offline_at; ignored_at = at'.ignored_at }))

    read-Reaches :
        (device : DeviceType) (c : Controller S D)
        → At o n c
        → Reaches o n (read_data_port m rounds device c)
    read-Reaches device c at =
        kept (read_data_port m rounds device) c (reads device c) (read-Keeps m rounds device c) at

    flush-Reaches : (c : Controller S D) → At o n c → Reaches o n (flush_loop m rounds 0 c)
    flush-Reaches c at =
        kept (flush_loop m rounds 0) c (flushes 0 c) (λ k c'. flush_loop-Same m rounds 0 k c c') at

    discard-Reaches :
        (device : DeviceType) (c : Controller S D)
        → At o n c
        → Reaches o n (discard m rounds device c)
    discard-Reaches device c at =
        bind-Reaches (read_data_port m rounds device) _ c (read-Reaches device c at)
          (λ _ c' at'. (_, _, refl, at'))

    finish_write :
        (set clear old : ℕ) (c : Controller S D)
        → At o n c
        → Reaches o n (
            (if old == bit_and (bit_or old set) (255 - clear)
                then pure old
                else (write_command_port m rounds put_command_byte
                    >> (write_data_port m rounds (bit_and (bit_or old set) (255 - clear))
                        >> pure old)))
              c)
    finish_write set clear old c at =
        if-Reaches (old == bit_and (bit_or old set) (255 - clear)) _ _ c (old, c, refl, at)
          (bind-Reaches (write_command_port m rounds put_command_byte) _ c
            (write_command-Reaches put_command_byte c at)
            (λ _ c' at'.
              bind-Reaches (write_data_port m rounds _) _ c' (write_data-Reaches _ c' at')
                (λ _ c'' at''. (old, c'', refl, at''))))

    suppress-Reaches : (b : Bool) → Stays o n (suppress m rounds b)
    suppress-Reaches b c at =
        (tt, _, refl, record { offline_at = at.offline_at; ignored_at = at.ignored_at })

    pub reset_controller-Reaches :
        (c : Controller S D) → At o n c → Reaches o n (reset_controller m rounds c)
    unfolding reset_controller
    reset_controller-Reaches c at =
        (suppress-Reaches true
            ⟫ write_command-Reaches 0xad
            ⟫ write_command-Reaches 0xa7
            ⟫ flush-Reaches
            ⟫ write_command-Reaches 0xa8
            ⟫ write_command-Reaches 0xae
            ⟫ write_command-Reaches get_command_byte
            ⟫ (read-Reaches keyboard ⟫= λ command_byte.
                write_command-Reaches 0xaa
                ⟫ discard-Reaches keyboard
                ⟫ discard-Reaches mouse
                ⟫ write_command-Reaches 0xab
                ⟫ discard-Reaches keyboard
                ⟫ write_command-Reaches 0xa9
                ⟫ discard-Reaches mouse
                ⟫ suppress-Reaches false
                ⟫ write_command-Reaches put_command_byte
                ⟫ write_data-Reaches (reset_command_byte command_byte)
                ⟫ write_data-Reaches 0xf5
                ⟫ discard-Reaches keyboard
                ⟫ write_command-Reaches transmit_to_mouse
                ⟫ write_data-Reaches 0xf5
                ⟫ discard-Reaches mouse
                ⟫ flush-Reaches
                ⟫ (λ c' at'. (tt, c', refl, at'))))
          c at

  pub set_command_byte-Reaches :
      {o : Bool} {n : ℕ} (set clear : ℕ) (c : Controller S D)
      → At o n c
      → Reaches o n (set_command_byte m rounds set clear c)
  unfolding set_command_byte
  set_command_byte-Reaches {o} {n} set clear c at =
      let c₁ : Controller S D = record c { ignore_interrupts = c.ignore_interrupts + 1 } in
      let at₁ : At o (n + 1) c₁ = record {
        offline_at = at.offline_at;
        ignored_at = omega (arith, at.ignored_at);
      } in
      bind-Reaches (write_command_port m rounds get_command_byte) _ c₁
        (write_command-Reaches get_command_byte c₁ at₁)
        (λ _ c₂ at₂.
          bind-Reaches (read_data_port m rounds keyboard) _ c₂ (read-Reaches keyboard c₂ at₂)
            (λ old c₃ at₃.
              bind-Reaches
                (λ c. some (tt, record c { ignore_interrupts = c.ignore_interrupts - 1 })) _ c₃
                (
                  tt,
                  record c₃ { ignore_interrupts = c₃.ignore_interrupts - 1 },
                  refl,
                  record {
                    offline_at = at₃.offline_at;
                    ignored_at = omega (arith, at₃.ignored_at);
                  },
                )
                (λ _ c₄ at₄. finish_write set clear old c₄ at₄)))
