-- ===== src/Controller/Composite.antt =====
-- The composite command that sends a byte to the mouse, and the commands that it stands for.

use os_x_voodoo_ps2_controll.Base.{
  ℕ, suc, ◌<◌, ◌≡◌, drop, arith, Bool, true, false, Option, none, some, List, ◌∷◌,
}
use os_x_voodoo_ps2_controll.Device.{sc_acknowledge}
use os_x_voodoo_ps2_controll.Controller.{Controller, Machine, DeviceType}
use os_x_voodoo_ps2_controll.Controller.Command.{
  Kind, Command, write_command, write_data, read_data_and_compare,
  send_mouse_command_and_compare_ack,
}
use os_x_voodoo_ps2_controll.Controller.Requests.{
  process_command, process_commands, transmit_to_mouse,
}

abbrev pub command : Kind → ℕ → Command
command kind word = record { kind = kind; word = word }

abbrev succeeded : Option ℕ → Bool
succeeded none = true
succeeded (some i) = false

-- What is seen of a run after its first `n` commands: whether all succeeded, the words of the other
-- commands, and the controller.
abbrev pub visible :
    {S D : Type 0}
    → ℕ
    → Option ((List Command × Option ℕ) × Controller S D)
    → Option (Bool × List Command × Controller S D)
visible n r = elim r [ none ↦ none | some (done, c) ↦ some (succeeded done.1, drop n done.0, c) ]

module _ {S D : Type 0} (m : Machine S D) (rounds : ℕ) where
  -- The composite command that sends a byte to the mouse does what its three commands do one after
  -- another, for either device and with no byte for the mouse announced, and whatever commands follow, so
  -- that it leaves them the same device mode: the same controller state and words of the commands that
  -- follow result, and it succeeds or fails alike.
  pub composite_command :
      (x n : ℕ) (cs : List Command) (device : DeviceType) (c : Controller S D)
      → x < 256
      → visible 1 (
          process_commands m rounds
            (suc n)
            (command send_mouse_command_and_compare_ack x ∷ cs)
            (record { device = device; transmit = false })
            c)
        ≡ visible 3 (
            process_commands m rounds
              (suc (suc (suc n)))
              (command write_command transmit_to_mouse
                ∷ command write_data x
                ∷ command read_data_and_compare sc_acknowledge
                ∷ cs)
              (record { device = device; transmit = false })
              c)
  unfolding process_commands process_command
  composite_command x n cs device c h = ground (arith)
