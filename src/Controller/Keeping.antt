-- ===== src/Controller/Keeping.antt =====
-- What a command answers with leaves the bookkeeping of the controller alone.
use os_x_voodoo_ps2_controll.Base.{
  ℕ, zero, suc, ◌≡◌, ◌∙◌, ap, refl, sym, arith, Bool, true, false, Option, none, some, List, [],
  ◌∷◌, if◌then◌else◌, inl, inr, Option-cases,
}
use os_x_voodoo_ps2_controll.Device.{sc_acknowledge}
use os_x_voodoo_ps2_controll.Controller.{
  Controller, Machine, DeviceType, keyboard, mouse, write_port, command_port, data_port,
}
use os_x_voodoo_ps2_controll.Controller.Command.{
  Kind, read_data, read_data_and_compare, write_data, write_command,
  send_mouse_command_and_compare_ack, read_mouse_data, read_mouse_data_and_compare, flush_data,
  sleep_ms, modify_command_byte, Command, in_or_out,
}
use os_x_voodoo_ps2_controll.Controller.Reading.{read_data_port, timeout}
use os_x_voodoo_ps2_controll.Controller.Expecting.{read_expected}
use os_x_voodoo_ps2_controll.Controller.Requests.{
  M, ◌>>=◌, Mode, wait_input, flush_loop, write_data_port, write_command_port, process_command,
  process_commands, get_command_byte, put_command_byte, transmit_to_mouse,
}
use os_x_voodoo_ps2_controll.Controller.Bookkeeping.{
  Same, read_loop-Same, expect_loop-Same, wait_input-Same, flush_loop-Same,
}

-- What an action answers with leaves the bookkeeping alone.
abbrev pub Keeps : {S D A : Type 0} → Controller S D → Option (A × Controller S D) → Type 0
Keeps {A = A} c r = (a : A) (c' : _) → r ≡ some (a, c') → Same c c'

Same-refl : {S D : Type 0} (c : Controller S D) → Same c c
Same-refl c = record {
  same_ignored = refl;
  same_finished = refl;
  same_queue = refl;
  same_offline = refl;
}

Same-trans : {S D : Type 0} {c c' c'' : Controller S D} → Same c c' → Same c' c'' → Same c c''
Same-trans a b = record {
  same_ignored = b.same_ignored ∙ a.same_ignored;
  same_finished = b.same_finished ∙ a.same_finished;
  same_queue = b.same_queue ∙ a.same_queue;
  same_offline = b.same_offline ∙ a.same_offline;
}

pure-Keeps : {S D A : Type 0} (c : Controller S D) (a : A) → Keeps c (some (a, c))
pure-Keeps c a a' c' e = ground (arith, e, Same-refl c)

bind-Keeps :
    {S D A B : Type 0} (act : M S D A) (f : A → M S D B) (c : Controller S D)
    → Keeps c (act c)
    → ((a : A) (c' : Controller S D) → Keeps c' (f a c'))
    → Keeps c ((act >>= f) c)
bind-Keeps {S} {D} {A} {B} act f c h k b c'' e = elim (Option-cases (act c)) [
  | inl q ↦ absurd (ground (arith, sym (open_bind q) ∙ e))
  | inr ((a, c'), q) ↦ Same-trans (h a c' q) (k a c' b c'' (sym (open_bind q) ∙ e))
]
  where
    open_bind :
        {r : Option (A × Controller S D)}
        → act c ≡ r
        → (act >>= f) c
          ≡ elim r as (λ x. Option (B × Controller S D)) [ none ↦ none | some (a, c') ↦ f a c' ]
    open_bind q =
        ap
          (λ r. elim r as (λ x. Option (B × Controller S D)) [
            | none ↦ none
            | some (a, c') ↦ f a c'
          ])
          q

module _ {S D : Type 0} (m : Machine S D) (rounds : ℕ) where
  pub wait-Keeps : (c : Controller S D) → Keeps c (wait_input m rounds c)
  wait-Keeps c tt c' e = wait_input-Same m rounds c c' e

  pub write_data-Keeps : (x : ℕ) (c : Controller S D) → Keeps c (write_data_port m rounds x c)
  unfolding write_data_port
  write_data-Keeps x c =
      bind-Keeps (wait_input m rounds) (λ _ c. some (tt, write_port m data_port x c)) c
        (wait-Keeps c) (λ a c' b c'' e. ground (arith, e))

  pub write_command-Keeps : (x : ℕ) (c : Controller S D) → Keeps c (write_command_port m rounds x c)
  unfolding write_command_port
  write_command-Keeps x c =
      bind-Keeps (wait_input m rounds) (λ _ c. some (tt, write_port m command_port x c)) c
        (wait-Keeps c) (λ a c' b c'' e. ground (arith, e))

  pub read-Keeps :
      (device : DeviceType) (c : Controller S D) → Keeps c (read_data_port m rounds device c)
  unfolding read_data_port
  read-Keeps device c x c' e = read_loop-Same m rounds device timeout x c c' e

  read_expected-Keeps :
      (device : DeviceType) (x : ℕ) (c : Controller S D)
      → Keeps c (read_expected m rounds device x c)
  unfolding read_expected
  read_expected-Keeps device x c y c' e = expect_loop-Same m rounds device x none timeout y c c' e

  pub process_command-Keeps :
      (kind : Kind) (word : ℕ) (mode : Mode) (c : Controller S D)
      → Keeps c (process_command m rounds kind word mode c)
  unfolding process_command
  process_command-Keeps read_data word mode c =
      bind-Keeps (read_data_port m rounds mode.device) _ c (read-Keeps mode.device c)
        (λ x c'. pure-Keeps c' _)
  process_command-Keeps read_data_and_compare word mode c =
      bind-Keeps (read_expected m rounds mode.device (in_or_out word)) _ c
        (read_expected-Keeps mode.device _ c) (λ x c'. pure-Keeps c' _)
  process_command-Keeps write_data word mode c =
      bind-Keeps (write_data_port m rounds (in_or_out word)) _ c (write_data-Keeps _ c)
        (λ x c'. pure-Keeps c' _)
  process_command-Keeps write_command word mode c =
      bind-Keeps (write_command_port m rounds (in_or_out word)) _ c (write_command-Keeps _ c)
        (λ x c'. pure-Keeps c' _)
  process_command-Keeps send_mouse_command_and_compare_ack word mode c =
      bind-Keeps (write_command_port m rounds transmit_to_mouse) _ c (write_command-Keeps _ c)
        (λ _ c₁.
          bind-Keeps (write_data_port m rounds (in_or_out word)) _ c₁ (write_data-Keeps _ c₁)
            (λ _ c₂.
              bind-Keeps (read_expected m rounds mouse sc_acknowledge) _ c₂
                (read_expected-Keeps mouse _ c₂) (λ x c'. pure-Keeps c' _)))
  process_command-Keeps read_mouse_data word mode c =
      bind-Keeps (read_data_port m rounds mouse) _ c (read-Keeps mouse c) (λ x c'. pure-Keeps c' _)
  process_command-Keeps read_mouse_data_and_compare word mode c =
      bind-Keeps (read_expected m rounds mouse (in_or_out word)) _ c (read_expected-Keeps mouse _ c)
        (λ x c'. pure-Keeps c' _)
  process_command-Keeps flush_data word mode c =
      bind-Keeps (flush_loop m rounds 0) _ c (λ n c'. flush_loop-Same m rounds 0 n c c')
        (λ x c'. pure-Keeps c' _)
  process_command-Keeps sleep_ms word mode c = pure-Keeps c _
  process_command-Keeps modify_command_byte word mode c =
      bind-Keeps (write_command_port m rounds get_command_byte) _ c (write_command-Keeps _ c)
        (λ _ c₁.
          bind-Keeps (read_data_port m rounds keyboard) _ c₁ (read-Keeps keyboard c₁) (λ x c₂.
            bind-Keeps (write_command_port m rounds put_command_byte) _ c₂
              (write_command-Keeps _ c₂)
              (λ _ c₃.
                bind-Keeps (write_data_port m rounds _) _ c₃ (write_data-Keeps _ c₃)
                  (λ x c'. pure-Keeps c' _))))

  if-Keeps :
      {A : Type 0} (b : Bool) (f g : M S D A) (c : Controller S D)
      → Keeps c (f c)
      → Keeps c (g c)
      → Keeps c ((if b then f else g) c)
  if-Keeps true f g c h k = h
  if-Keeps false f g c h k = k

  pub process_commands-Keeps :
      (n : ℕ) (cs : List Command) (mode : Mode) (c : Controller S D)
      → Keeps c (process_commands m rounds n cs mode c)
  unfolding process_commands
  process_commands-Keeps zero cs mode c = pure-Keeps c _
  process_commands-Keeps (suc n) [] mode c = pure-Keeps c _
  process_commands-Keeps (suc n) (command ∷ cs) mode c =
      bind-Keeps (process_command m rounds command.kind command.word mode) _ c
        (process_command-Keeps command.kind command.word mode c)
        (λ done c'. if-Keeps done.failed _ _ c' (pure-Keeps c' _) (
          bind-Keeps (process_commands m rounds n cs done.mode) _ c'
            (process_commands-Keeps n cs done.mode c') (λ r c''. pure-Keeps c'' _)))
