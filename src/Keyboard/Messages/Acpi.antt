-- ===== src/Keyboard/Messages/Acpi.antt =====
-- The message of ACPI that stands for a whole keystroke.
use os_x_voodoo_ps2_controll.Base.{
  ℕ, zero, suc, ◌+◌, ◌-◌, ◌/◌, ◌%◌, ◌^◌, ◌<◌, ◌≡◌, ◌∙◌, ap, refl, arith, Bool, true, false, not,
  ◌&&◌, ◌||◌, List, ◌∷◌, ltb, ◌==◌, ◌!=◌, if◌then◌else◌, bit_and, bit_or, get_or,
}
use os_x_voodoo_ps2_controll.Base.Bytes.{every_below, every-test}
use os_x_voodoo_ps2_controll.Device.{Kernel, KeyInfo}
use os_x_voodoo_ps2_controll.Keyboard.{breakless_key}
use os_x_voodoo_ps2_controll.Keyboard.Macros.{
  Macros, has_macros, handle_packet, packet_time, value_of,
}
use os_x_voodoo_ps2_controll.Keyboard.Events.{Effect, key_event, Typist, Settings, World}
use os_x_voodoo_ps2_controll.Keyboard.Dispatch.{dispatch_key, dispatch_packet}
use os_x_voodoo_ps2_controll.Keyboard.Dispatch.Ordinary.{
  is_ordinary, adb_code, key_events, press-release,
}
use os_x_voodoo_ps2_controll.Keyboard.Messages.{stamped, bytes_of, type_packet, acpi_message}
use os_x_voodoo_ps2_controll.Keyboard.Messages.Reset.{is_plain, break_code, break-key}

bytes_of-value : (n x : ℕ) → x < 256 ^ n → value_of (bytes_of n x) ≡ x
unfolding bytes_of value_of
bytes_of-value zero x h = omega arith
bytes_of-value (suc n) x h = omega (arith, bytes_of-value n (x / 256) (omega arith))

stamped-time : (first second now : ℕ) → now < 2 ^ 64 → packet_time (stamped first second now) ≡ now
unfolding bytes_of
stamped-time first second now h = bytes_of-value 8 now (omega arith)

-- The bytes of the two packets of a key.
abbrev code_test : ℕ → Bool
code_test key =
    let second = key % 256 in
    not (is_plain key)
    || bit_and second 127 == second
      && bit_and second 128 == 0
      && bit_or second 0x80 == break_code key

code_table : every_below 512 code_test ≡ true
unfolding every_below
code_table = refl

module _ (w : World) (c : Settings) where
  make-key :
      (key now : ℕ) (s : Typist)
      → key < 512
      → is_plain key ≡ true
      → now < 2 ^ 64
      → (dispatch_packet w c (stamped (key / 256 + 1) (key % 256) now) s).1
        ≡ dispatch_key w c key true now s
  unfolding dispatch_packet
  make-key key now s h p n =
      let stamp = stamped-time (key / 256 + 1) (key % 256) now n in
      ground (
        arith,
        p,
        every-test code_test 512 key h code_table,
        ap (λ y. dispatch_key w c y true now s) {x = key % 256} {y = key},
        ap (λ y. dispatch_key w c y true now s) {x = key % 256 + 256} {y = key},
        ap (λ t. dispatch_key w c (key % 256) true t s) stamp,
        ap (λ t. dispatch_key w c (key % 256 + 256) true t s) stamp,
        ap (λ y. dispatch_key w c y true (packet_time (stamped (key / 256 + 1) (key % 256) now)) s)
            {x = bit_and (key % 256) 127} {y = key % 256},
        ap (λ y. dispatch_key w c y true (packet_time (stamped (key / 256 + 1) (key % 256) now)) s)
            {x = bit_and (key % 256) 127 + 256} {y = key % 256 + 256},
      )

  stamped_break-key :
      (key now : ℕ) (s : Typist)
      → key < 512
      → is_plain key ≡ true
      → now < 2 ^ 64
      → (dispatch_packet w c (stamped (key / 256 + 1) (bit_or (key % 256) 0x80) now) s).1
        ≡ dispatch_key w c key false now s
  stamped_break-key key now s h p n =
      let unset : List ℕ = 0 ∷ 0 ∷ 0 ∷ 0 ∷ 0 ∷ 0 ∷ bytes_of 8 now in
      ap (λ a. (dispatch_packet w c (a ∷ bit_or (key % 256) 0x80 ∷ unset) s).1) {x = key / 256 + 1}
        {y = if ltb key 256 then 1 else 2} (ground arith)
      ∙ ap (λ x. (dispatch_packet w c ((if ltb key 256 then 1 else 2) ∷ x ∷ unset) s).1)
          {x = bit_or (key % 256) 0x80} {y = break_code key}
          (ground (arith, p, every-test code_test 512 key h code_table))
      ∙ break-key w c unset key s h p
      ∙ ap (λ t. dispatch_key w c key false t s) (stamped-time 0 0 now n)

keystroke :
    (w : World) (k : Kernel) (c : Settings) (key : ℕ) (s : Macros Typist)
    → key < 512
    → acpi_message w k c (0x300 + key) s
      ≡ type_packet w k c
          (key / 256 + 1)
          (bit_or (key % 256) 0x80)
          (type_packet w k c (key / 256 + 1) (key % 256) s)
unfolding acpi_message
keystroke w k c key s h = ground (
  arith,
  ap
      (λ f.
        type_packet w k c f (bit_or ((768 + key) % 256) 0x80)
          (type_packet w k c f ((768 + key) % 256) s))
      {x = (768 + key) / 256 - 2} {y = key / 256 + 1},
  ap
      (λ x.
        type_packet w k c (key / 256 + 1) (bit_or x 0x80) (type_packet w k c (key / 256 + 1) x s))
      {x = (768 + key) % 256} {y = key % 256},
)

-- A driver without macros.
abbrev typed_now : World → Kernel → Settings → ℕ → ℕ → Macros Typist → Macros Typist
typed_now w k c first second s = record s {
  clock_reads = s.clock_reads + 1;
  driver = (dispatch_packet w c (stamped first second (k.uptime s.clock_reads)) s.driver).1;
}

type_packet-plain :
    (w : World) (k : Kernel) (c : Settings) (first second : ℕ) (s : Macros Typist)
    → has_macros s ≡ false
    → type_packet w k c first second s ≡ typed_now w k c first second s
unfolding handle_packet
type_packet-plain w k c first second s e = rw e refl

either_time :
    (f : ℕ → ℕ) (b : Bool) (n : ℕ) → (if b then f n else f (n + 1)) ≡ f (if b then n else n + 1)
either_time f true n = refl
either_time f false n = refl

-- A message of ACPI with the high byte 3 or 4 types a whole keystroke: without macros, and if the key
-- is an ordinary one that no driver eats, the HID system gets one press and then one release, at the
-- times of two readings of the clock, or both at the first for a key without break codes.
pub acpi_message-press :
    (w : World) (k : Kernel) (c : Settings) (key : ℕ) (s : Macros Typist)
    → key < 512
    → is_plain key ≡ true
    → is_ordinary c key ≡ true
    → has_macros s ≡ false
    → ((n : ℕ) → k.uptime n < 2 ^ 64)
    → ((info : KeyInfo) (es : List Effect) → w.eats_key info es ≡ false)
    → key_events (acpi_message w k c (0x300 + key) s).driver.effects
      ≡ key_event (adb_code c key) false (
          k.uptime (
            if bit_and (get_or c.ps2_flags key 0) breakless_key != 0
            then s.clock_reads
            else s.clock_reads + 1))
        ∷ key_event (adb_code c key) true (k.uptime s.clock_reads)
        ∷ key_events s.driver.effects
unfolding acpi_message handle_packet
acpi_message-press w k c key s h p o none_set small eats =
    let now = k.uptime s.clock_reads in
    let s' = typed_now w k c (key / 256 + 1) (key % 256) s in
    ap (λ t. key_events t.driver.effects)
      (keystroke w k c key s h
        ∙ ap (type_packet w k c (key / 256 + 1) (bit_or (key % 256) 0x80))
            (type_packet-plain w k c (key / 256 + 1) (key % 256) s none_set)
        ∙ type_packet-plain w k c (key / 256 + 1) (bit_or (key % 256) 0x80) s' none_set)
    ∙ ap (λ t. key_events t.effects)
        (stamped_break-key w c key (k.uptime (s.clock_reads + 1)) s'.driver h p (small _)
          ∙ ap (dispatch_key w c key false (k.uptime (s.clock_reads + 1)))
              (make-key w c key now s.driver h p (small _)))
    ∙ press-release w c key now (k.uptime (s.clock_reads + 1)) s.driver o eats
    ∙ ap
        (λ t.
          key_event (adb_code c key) false t
          ∷ key_event (adb_code c key) true now
          ∷ key_events s.driver.effects)
        (either_time k.uptime (bit_and (get_or c.ps2_flags key 0) breakless_key != 0) s.clock_reads)
