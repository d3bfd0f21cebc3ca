-- ===== src/Controller/Bookkeeping.antt =====
-- Which members of the controller the port operations leave alone, and what a request does to the
-- others.

use os_x_voodoo_ps2_controll.Base.{
  ℕ, zero, suc, ◌+◌, ◌%◌, ◌^◌, ◌≡◌, arith, Option, none, some, inl, inr, Option-cases,
}
use os_x_voodoo_ps2_controll.Controller.{
  Controller, Machine, DeviceType, other, wait_output, next_byte, dispatch_driver_interrupt,
  read_port, command_port, data_port,
}
use os_x_voodoo_ps2_controll.Controller.Reading.{read_loop}
use os_x_voodoo_ps2_controll.Controller.Expecting.{hand_on, expect_loop}
use os_x_voodoo_ps2_controll.Controller.Requests.{wait_input, flush_loop}

-- What no port operation changes.
pub record Same {S D : Type 0} (c c' : Controller S D) : Type 0 where
  pub same_ignored : c'.ignore_interrupts ≡ c.ignore_interrupts
  pub same_finished : c'.finished ≡ c.finished
  pub same_queue : c'.request_queue ≡ c.request_queue
  pub same_offline : c'.hardware_offline ≡ c.hardware_offline

module _ {S D : Type 0} (m : Machine S D) where
  dispatch-Same :
      (device : DeviceType) (x : ℕ) (c : Controller S D)
      → Same c (dispatch_driver_interrupt m device x c)
  unfolding dispatch_driver_interrupt
  dispatch-Same device x c = ground arith

  hand_on-Same : (device : DeviceType) (x : ℕ) (c : Controller S D) → Same c (hand_on m device x c)
  unfolding hand_on
  hand_on-Same device x c = ground (arith, dispatch-Same device x c)

  wait_output-Same : (t : ℕ) (c : Controller S D) → Same c (wait_output m t c).1
  unfolding wait_output
  wait_output-Same zero c = ground arith
  wait_output-Same (suc t) c = ground (arith, wait_output-Same t (read_port m command_port c).1)

  next_byte-Same : (t : ℕ) (c : Controller S D) → Same c (next_byte m t c).1
  unfolding next_byte
  next_byte-Same t c = ground (arith, wait_output-Same t c)

  pub read_loop-Same :
      (rounds : ℕ) (device : DeviceType) (t x : ℕ) (c c' : Controller S D)
      → read_loop m rounds device t c ≡ some (x, c')
      → Same c c'
  unfolding read_loop
  read_loop-Same zero device t x c c' e = ground (arith, e)
  read_loop-Same (suc rounds) device t x c c' e = elim (Option-cases (next_byte m t c).0) [
    | inl q ↦ ground (arith, e, q, next_byte-Same t c)
    | inr (u, q) ↦ ground (
      arith,
      e,
      q,
      next_byte-Same t c,
      dispatch-Same (other device) u.1 (next_byte m t c).1,
      read_loop-Same rounds device u.2 x
          (dispatch_driver_interrupt m (other device) u.1 (next_byte m t c).1) c',
    )
  ]

  pub expect_loop-Same :
      (rounds : ℕ) (device : DeviceType) (expected : ℕ) (held : Option ℕ) (t x : ℕ)
      (c c' : Controller S D)
      → expect_loop m rounds device expected held t c ≡ some (x, c')
      → Same c c'
  unfolding expect_loop
  expect_loop-Same zero device expected held t x c c' e = ground (arith, e)
  expect_loop-Same (suc rounds) device expected held t x c c' e =
      elim (Option-cases (next_byte m t c).0) [
        | inl q ↦ ground (arith, e, q, next_byte-Same t c)
        | inr (u, q) ↦
            let c₁ = (next_byte m t c).1 in
            ground (
              arith,
              e,
              q,
              next_byte-Same t c,
              hand_on-Same (other device) u.1 c₁,
              hand_on-Same device u.1 c₁,
              held-Same c₁,
              expect_loop-Same rounds device expected held u.2 x (hand_on m (other device) u.1 c₁)
                  c',
              expect_loop-Same rounds device expected (some u.1) u.2 x c₁ c',
            )
      ]
    where
      first_held : ℕ
      first_held = elim held [ none ↦ 0 | some first ↦ first ]

      held-Same : (c : Controller S D) → Same c (hand_on m device first_held c)
      held-Same c = hand_on-Same device first_held c

  pub wait_input-Same :
      (rounds : ℕ) (c c' : Controller S D) → wait_input m rounds c ≡ some (tt, c') → Same c c'
  unfolding wait_input
  wait_input-Same zero c c' e = ground (arith, e)
  wait_input-Same (suc rounds) c c' e =
      ground (arith, e, wait_input-Same rounds (read_port m command_port c).1 c')

  pub flush_loop-Same :
      (rounds n x : ℕ) (c c' : Controller S D) → flush_loop m rounds n c ≡ some (x, c') → Same c c'
  unfolding flush_loop
  flush_loop-Same zero n x c c' e = ground (arith, e)
  flush_loop-Same (suc rounds) n x c c' e = ground (
    arith,
    e,
    flush_loop-Same rounds ((n + 1) % 2 ^ 32) x
        (read_port m data_port (read_port m command_port c).1).1 c',
  )
