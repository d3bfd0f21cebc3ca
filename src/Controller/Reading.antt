-- ===== src/Controller/Reading.antt =====
-- readDataPort(deviceType), and what it does with the bytes that the hardware offers.
use os_x_voodoo_ps2_controll.Base.{
  ℕ, zero, suc, ◌+◌, ◌-◌, ◌<◌, ◌≡◌, ◌∙◌, ap, refl, subst, arith, Bool, true, false, not, ◌||◌,
  Option, none, some, List, [], ◌∷◌, length, ◌==◌, ◌!=◌, bit_and,
}
use os_x_voodoo_ps2_controll.Controller.{
  Controller, Machine, DeviceType, keyboard, mouse, other, wait_output, next_byte,
  dispatch_driver_interrupt, command_port, data_port, output_ready, mouse_data,
}

abbrev pub is_stream : DeviceType → Bool → Bool
is_stream keyboard from_mouse = not from_mouse
is_stream mouse from_mouse = from_mouse

-- "timeoutCounter * kDataDelay = 70 ms"
abbrev pub timeout : ℕ
timeout = 10000

module _ {S D : Type 0} (m : Machine S D) where
  -- The loop `while (1)`. It takes a round for each byte of the other stream, which nothing bounds:
  -- the first argument counts rounds, and `none` says that they have run out.
  unfoldable pub read_loop : ℕ → DeviceType → ℕ → Controller S D → Option (ℕ × Controller S D)
  read_loop zero device t c = none
  read_loop (suc rounds) device t c =
      let (found, c') = next_byte m t c in
      elim found [
        | none ↦ some (0, c')
        | some (from_mouse, x, t') ↦ elim (c'.suppress_timeout || is_stream device from_mouse) [
          | true ↦ some (x, c')
          | false ↦ read_loop rounds device t' (dispatch_driver_interrupt m (other device) x c')
        ]
      ]

  unfoldable pub read_data_port : ℕ → DeviceType → Controller S D → Option (ℕ × Controller S D)
  read_data_port rounds device c = read_loop rounds device timeout c

  -- From hardware state `s` on, the output buffer is found empty `k` times, then to hold the byte
  -- `x` of the keyboard or mouse; reading it leaves state `s'`.
  pub data Offers : Bool → ℕ → ℕ → S → S → Type 0 where
    full :
        {from_mouse : Bool} {k x : ℕ} {s s' : S}
        → k ≡ 0
        → (bit_and (m.inb command_port s).0 output_ready == 0) ≡ false
        → (bit_and (m.inb command_port s).0 mouse_data != 0) ≡ from_mouse
        → m.inb data_port (m.inb command_port s).1 ≡ (x, s')
        → Offers from_mouse k x s s'
    empty :
        {from_mouse : Bool} {k k' x : ℕ} {s s' : S}
        → k' ≡ suc k
        → (bit_and (m.inb command_port s).0 output_ready == 0) ≡ true
        → Offers from_mouse k x (m.inb command_port s).1 s'
        → Offers from_mouse k' x s s'

  -- The wait finds an offered byte, if it comes before the counter runs out.
  pub next_byte-Offers :
      (t : ℕ) {from_mouse : Bool} {k x : ℕ} {s s' : S} (c : Controller S D)
      → Offers from_mouse k x s s'
      → c.hardware ≡ s
      → k < t
      → next_byte m t c ≡ (some (from_mouse, x, t - k), record c { hardware = s' })
  unfolding next_byte wait_output
  next_byte-Offers zero c o e h = absurd (omega arith)
  next_byte-Offers (suc t) c (full z ready from read) e h = ground arith
  next_byte-Offers (suc t) c (empty {k = k} {x = x} {s = s} {s' = s'} z busy rest) e h = ground (
    arith,
    next_byte-Offers t (record c { hardware = (m.inb command_port c.hardware).1 }) rest
        (ap (λ u. (m.inb command_port u).1) e),
  )

  -- From `s` on, the hardware offers the bytes `others` of the other stream, and then `x` of the
  -- stream of `device`, with `polls` vain polls in all.
  pub data Arrives (device : DeviceType) : List ℕ → ℕ → ℕ → S → S → Type 0 where
    own :
        {from_mouse : Bool} {others : List ℕ} {x polls : ℕ} {s s' : S}
        → others ≡ []
        → is_stream device from_mouse ≡ true
        → Offers from_mouse polls x s s'
        → Arrives device others x polls s s'
    foreign :
        {from_mouse : Bool} {others rest : List ℕ} {x y k n polls : ℕ} {s s₁ s' : S}
        → others ≡ y ∷ rest
        → polls ≡ k + n
        → is_stream device from_mouse ≡ false
        → Offers from_mouse k y s s₁
        → Arrives device rest x n s₁ s'
        → Arrives device others x polls s s'

  -- The driver of `device` is given the bytes in turn.
  pub dispatch_all : DeviceType → List ℕ → Controller S D → Controller S D
  dispatch_all device [] c = c
  dispatch_all device (x ∷ xs) c = dispatch_all device xs (dispatch_driver_interrupt m device x c)

  pub dispatch-hardware :
      (device : DeviceType) (x : ℕ) (s : S) (c : Controller S D)
      → dispatch_driver_interrupt m device x (record c { hardware = s })
        ≡ record (dispatch_driver_interrupt m device x c) { hardware = s }
  unfolding dispatch_driver_interrupt
  dispatch-hardware device x s c = ground arith

  pub dispatch_all-hardware :
      (device : DeviceType) (xs : List ℕ) (s : S) (c : Controller S D)
      → dispatch_all device xs (record c { hardware = s })
        ≡ record (dispatch_all device xs c) { hardware = s }
  unfolding dispatch_all
  dispatch_all-hardware device [] s c = refl
  dispatch_all-hardware device (x ∷ xs) s c =
      ap (dispatch_all device xs) (dispatch-hardware device x s c)
      ∙ dispatch_all-hardware device xs s (dispatch_driver_interrupt m device x c)

  dispatch-suppress :
      (device : DeviceType) (x : ℕ) (c : Controller S D)
      → (dispatch_driver_interrupt m device x c).suppress_timeout ≡ c.suppress_timeout
  unfolding dispatch_driver_interrupt
  dispatch-suppress device x c = ground arith

  read_loop-Arrives :
      (rounds : ℕ) (device : DeviceType) (t : ℕ) {others : List ℕ} {x polls : ℕ} {s s' : S}
      (c : Controller S D)
      → Arrives device others x polls s s'
      → c.hardware ≡ s
      → c.suppress_timeout ≡ false
      → polls < t
      → length others < rounds
      → read_loop rounds device t c
        ≡ some (x, record (dispatch_all (other device) others c) { hardware = s' })
  unfolding read_loop dispatch_all
  read_loop-Arrives zero device t c a e q h r = absurd (omega arith)
  read_loop-Arrives (suc rounds) device t c (own none_other mine o) e q h r =
      ground
        (arith, next_byte-Offers t c o e h, ap (λ l. dispatch_all (other device) l c) none_other)
  read_loop-Arrives (suc rounds) device t c
        (foreign {rest = rest} {y = y} {k = k} {n = n} {s₁ = s₁} {s' = s'} es ps theirs o a) e q h
        r =
      let c' : Controller S D = record c { hardware = s₁ } in
      let ih =
        read_loop-Arrives rounds device (t - k) (dispatch_driver_interrupt m (other device) y c') a
          (ap (λ (d : Controller S D). d.hardware) (dispatch-hardware (other device) y s₁ c))
          (dispatch-suppress (other device) y c' ∙ q) (omega arith) (omega (arith, ap length es)) in
      ground (
        arith,
        ih,
        next_byte-Offers t c o e (omega arith),
        ap (λ l. dispatch_all (other device) l c) es,
        ap (dispatch_all (other device) rest) (dispatch-hardware (other device) y s₁ c),
        dispatch_all-hardware (other device) rest s₁
            (dispatch_driver_interrupt m (other device) y c),
      )

  -- While the time limit is not suppressed, a read answers the first byte of the requested stream,
  -- if it comes before the time limit and there is a round for each byte of the other stream before
  -- it, and gives those bytes to the other driver, in order.
  pub read_data_port-Arrives :
      (rounds : ℕ) (device : DeviceType) (others : List ℕ) (x polls : ℕ) (s' : S)
      (c : Controller S D)
      → Arrives device others x polls c.hardware s'
      → c.suppress_timeout ≡ false
      → polls < timeout
      → length others < rounds
      → read_data_port rounds device c
        ≡ some (x, record (dispatch_all (other device) others c) { hardware = s' })
  unfolding read_data_port
  read_data_port-Arrives rounds device others x polls s' c a q h r =
      read_loop-Arrives rounds device timeout c a refl q h r

  -- From `s` on, the output buffer is found empty `t` times.
  pub data Silent : ℕ → S → S → Type 0 where
    over : {t : ℕ} {s s' : S} → t ≡ 0 → s ≡ s' → Silent t s s'
    again :
        {t n : ℕ} {s s' : S}
        → t ≡ suc n
        → (bit_and (m.inb command_port s).0 output_ready == 0) ≡ true
        → Silent n (m.inb command_port s).1 s'
        → Silent t s s'

  pub next_byte-Silent :
      (t : ℕ) {s s' : S} (c : Controller S D)
      → Silent t s s'
      → c.hardware ≡ s
      → next_byte m t c ≡ (none, record c { hardware = s' })
  unfolding next_byte wait_output
  next_byte-Silent zero c (over z e') e = ground arith
  next_byte-Silent zero c (again z busy rest) e = absurd (omega arith)
  next_byte-Silent (suc t) c (over z e') e = absurd (omega arith)
  next_byte-Silent (suc t) c (again {n = n} {s = s} {s' = s'} z busy rest) e =
      let rest' = subst (λ k. Silent k (m.inb command_port s).1 s') (suc_inj z) rest in
      ground (
        arith,
        next_byte-Silent t (record c { hardware = (m.inb command_port c.hardware).1 }) rest'
            (ap (λ u. (m.inb command_port u).1) e),
      )
    where
      suc_inj : suc t ≡ suc n → n ≡ t
      suc_inj q = omega arith

  -- Where nothing comes within the time limit, a read returns 0 after one round, and no driver is
  -- called.
  pub read_data_port-Silent :
      (rounds : ℕ) (device : DeviceType) (s' : S) (c : Controller S D)
      → 0 < rounds
      → Silent timeout c.hardware s'
      → read_data_port rounds device c ≡ some (0, record c { hardware = s' })
  unfolding read_data_port read_loop
  read_data_port-Silent zero device s' c h q = absurd (omega arith)
  read_data_port-Silent (suc rounds) device s' c h q =
      ground (arith, next_byte-Silent timeout c q refl)
