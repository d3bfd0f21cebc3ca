-- ===== src/Keyboard/Macros.antt =====
-- Macro inversion: compareMacro, invertMacros, dispatchInvertBuffer and onMacroTimer. The buffer of
-- packets at intervals of kPacketLength is a list of packets.
pub mod Bounds
pub mod Matching
use os_x_voodoo_ps2_controll.Base.{
  ℕ, zero, suc, ◌+◌, ◌-◌, ◌*◌, ◌/◌, ◌%◌, Bool, true, false, not, ◌&&◌, ◌||◌, Option, none, some,
  List, [], ◌∷◌, ltb, leb, ◌==◌, ◌!=◌, if◌then◌else◌, bit_and, length, get_or, set, take, drop,
  sub_u64,
}
use os_x_voodoo_ps2_controll.Device.{Kernel}
use os_x_voodoo_ps2_controll.Keyboard.{Keyboard, packet_time_offset}
use os_x_voodoo_ps2_controll.Keyboard.Packets.{packet_ready_loop}

abbrev pub output_bytes_offset : ℕ
output_bytes_offset = 2

abbrev pub modifier_bytes_offset : ℕ
modifier_bytes_offset = 4

-- kPrefixBytes, which is also kSequenceBytesOffset.
abbrev pub prefix_bytes : ℕ
prefix_bytes = 8

-- The 64-bit number at kPacketTimeOffset, lowest byte first.
unfoldable pub value_of : List ℕ → ℕ
value_of [] = 0
value_of (x ∷ xs) = x + 256 * value_of xs

abbrev pub packet_time : List ℕ → ℕ
packet_time packet = value_of (take 8 (drop packet_time_offset packet))

-- `_macroInversion` is the list of valid macros, the empty list for null; the buffer is allocated
-- exactly if it is not null. `driver` is the state of the rest of the driver, `timer` the timeout
-- that is set, and `clock_reads` counts readings of the clock.
pub record Macros (D : Type 0) : Type 0 where
  pub macro_inversion : List (List ℕ)
  pub has_timer : Bool
  pub macro_buffer : List (List ℕ)
  pub macro_max : ℕ
  pub macro_current : ℕ
  pub macro_max_time : ℕ
  pub timer : Option ℕ
  pub clock_reads : ℕ
  pub driver : D

abbrev pub has_macros : {D : Type 0} → Macros D → Bool
has_macros s = elim s.macro_inversion [ [] ↦ false | m ∷ ms ↦ true ]

-- The macro data is read two bytes at a time.
pub compare_macro : List (List ℕ) → List ℕ → ℕ → Bool
compare_macro buffer bytes zero = true
compare_macro buffer bytes (suc n) =
    let rest = compare_macro (drop 1 buffer) (drop 2 bytes) n in
    let packet = get_or buffer 0 [] in
    if get_or packet 0 0 != get_or bytes 0 0 || get_or packet 1 0 != get_or bytes 1 0
    then false
    else rest

-- What loadMacroData's caller allocates: `max` is the longest sequence of bytes.
unfoldable pub longest : List (List ℕ) → ℕ
longest [] = 0
longest (m ∷ ms) =
    let rest = longest ms in
    if ltb rest (length m - prefix_bytes) then length m - prefix_bytes else rest

-- `dispatch` stands for dispatchKeyboardEventWithPacket, and `modifiers` reads `_PS2modifierState`.
module _ {D : Type 0} (k : Kernel) (dispatch : List ℕ → D → D) (modifiers : D → ℕ) where
  pub dispatch_packets : ℕ → List (List ℕ) → D → D
  dispatch_packets zero buffer d = d
  dispatch_packets (suc n) buffer d =
      dispatch_packets n (drop 1 buffer) (dispatch (get_or buffer 0 []) d)

  pub dispatch_invert_buffer : Macros D → Macros D
  dispatch_invert_buffer s = record s {
    driver = dispatch_packets s.macro_current s.macro_buffer s.driver;
    macro_current = 0;
    timer = none;
  }

  abbrev pub last_time : Macros D → ℕ
  last_time s = k.to_ns (packet_time (get_or s.macro_buffer (s.macro_current - 1) []))

  -- "get modifier mask/compare from macro definition"
  pub modifiers_match : List ℕ → ℕ → Bool
  modifiers_match bytes state =
      let mask : ℕ =
        get_or bytes modifier_bytes_offset 0 * 256 + get_or bytes (modifier_bytes_offset + 1) 0 in
      let compare : ℕ =
        get_or bytes (modifier_bytes_offset + 2) 0 * 256
        + get_or bytes (modifier_bytes_offset + 3) 0 in
      compare == 0xffff && bit_and state mask != 0 || bit_and state mask == compare

  -- "exact match causes macro inversion": bytes 0 and 1 of the first packet become the output.
  abbrev pub output_packet : List ℕ → List ℕ → List ℕ
  output_packet bytes packet =
      set (set packet 0 (get_or bytes output_bytes_offset 0)) 1
        (get_or bytes (output_bytes_offset + 1) 0)

  pub invert_exact : List ℕ → Macros D → Macros D
  invert_exact bytes s =
      let first = output_packet bytes (get_or s.macro_buffer 0 []) in
      record s {
        macro_buffer = set s.macro_buffer 0 first;
        driver = dispatch first s.driver;
        timer = none;
        macro_current = 0;
      }

  -- "partial match, keep waiting for full match"
  abbrev pub keep_waiting : Macros D → Macros D
  keep_waiting s = record s { timer = some s.macro_max_time; macro_current = s.macro_current + 1 }

  -- The loop over the macros, after the packet has been added: `none` if none of them matches.
  pub invert_loop : List (List ℕ) → Macros D → Option (Macros D)
  invert_loop [] s = none
  invert_loop (m ∷ ms) s =
      let rest = invert_loop ms s in
      let buffered : ℕ = s.macro_current + 1 in
      let size : ℕ = length m - prefix_bytes in
      if leb (buffered * 2) size && compare_macro s.macro_buffer (drop prefix_bytes m) buffered
      then (if buffered * 2 == size
          then if modifiers_match m (modifiers s.driver) then some (invert_exact m s) else rest
          else some (keep_waiting s))
      else rest

  -- "cancel macro conversion if packet arrives too late"
  pub cancel_late : List ℕ → Macros D → Macros D
  cancel_late packet s =
      if ltb 0 s.macro_current
        && ltb s.macro_max_time (sub_u64 (k.to_ns (packet_time packet)) (last_time s))
      then dispatch_invert_buffer s
      else s

  abbrev pub add_packet : List ℕ → Macros D → Macros D
  add_packet packet s = record s { macro_buffer = set s.macro_buffer s.macro_current packet }

  -- "no match, so... empty macro buffer that may have been existing..."
  abbrev pub flush_buffer : Macros D → Macros D
  flush_buffer s = if ltb 0 s.macro_current then dispatch_invert_buffer s else s

  -- "compare against macro inversions", after the packet has been added.
  pub invert_added : Macros D → Bool × Macros D
  invert_added s = elim (invert_loop s.macro_inversion s) [
    | none ↦ (false, flush_buffer s)
    | some t ↦ (true, t)
  ]

  unfoldable pub invert_macros : List ℕ → Macros D → Bool × Macros D
  invert_macros packet s =
      if not s.has_timer
      then (false, s)
      else invert_added (add_packet packet (cancel_late packet s))

  -- What packetReady does with a packet whose first byte is not 0.
  unfoldable pub handle_packet : List ℕ → Macros D → Macros D
  handle_packet packet s =
      if not (has_macros s)
      then record s { driver = dispatch packet s.driver }
      else let (inverted, s') = invert_macros packet s in
        elim inverted [ true ↦ s' | false ↦ record s' { driver = dispatch packet s'.driver } ]

  -- What onMacroTimer does after packetReady.
  pub macro_timeout : Macros D → Macros D
  macro_timeout s =
      if not (ltb 0 s.macro_current)
      then s
      else let s' : Macros D = record s { clock_reads = s.clock_reads + 1 } in
        if ltb s.macro_max_time (sub_u64 (k.to_ns (k.uptime s.clock_reads)) (last_time s))
        then dispatch_invert_buffer s'
        else s'

  -- packetReady, and onMacroTimer, which calls it first: "these packets are processed before dealing
  -- with the timer".
  pub on_packet_ready : Keyboard → Macros D → Keyboard × Macros D
  on_packet_ready = packet_ready_loop handle_packet

  pub on_macro_timer : Keyboard → Macros D → Keyboard × Macros D
  on_macro_timer keyboard s =
      let (keyboard', s') = on_packet_ready keyboard s in (keyboard', macro_timeout s')
