-- ===== src/Keyboard/Tests.antt =====
-- The keyboard driver at work.
mod Typing
use mathlib.Core.List.{foldl, map}
use os_x_voodoo_ps2_controll.Base.{
  ℕ, ◌≡◌, ◌↔◌, refl, arith, true, not, ◌||◌, ◌==◌, ◌!=◌, some, List, [], ◌∷◌, ◌++◌, replicate,
  bit_and, if◌then◌else◌, get_or, take,
}
use os_x_voodoo_ps2_controll.Device.{Kernel, sc_up_bit}
use os_x_voodoo_ps2_controll.Keyboard.{
  Keyboard, ring_size, interrupt_occurred, is_key_down, raw_key,
}
use os_x_voodoo_ps2_controll.Keyboard.Held.{IsCode, is_ready}
use os_x_voodoo_ps2_controll.Keyboard.Announce.{Announced, interrupt-announces}
use os_x_voodoo_ps2_controll.Keyboard.Packets.{IsValid, interrupt_occurred-Keeps}
use os_x_voodoo_ps2_controll.Keyboard.Parse.{parse_remap, load_ps2_entry, map_index}
use os_x_voodoo_ps2_controll.Keyboard.Parse.RoundTrip.{
  print_remap, parse_remap-print, load_ps2_entry-lookup,
}
use os_x_voodoo_ps2_controll.Keyboard.Macros.{
  Macros, longest, handle_packet, compare_macro, dispatch_invert_buffer,
}
use os_x_voodoo_ps2_controll.Keyboard.Macros.Bounds.{IsBounded, handle_packet-IsBounded}
use os_x_voodoo_ps2_controll.Keyboard.Macros.Matching.{
  packet_key, sequence, compare_macro_lem, dispatch_invert_buffer_lem,
}

abbrev pub nothing_typed : Keyboard
nothing_typed = record {
  ring = record { buffer = replicate ring_size 0; head = 0; tail = 0 };
  last_data = 0;
  extend_count = 0;
  key_bit_vector = replicate 16 0;
  ps2_flags = replicate 512 0;
  clock_reads = 0;
}

pub nothing_typed-IsValid : IsValid nothing_typed
nothing_typed-IsValid = record {
  aligned = record {
    valid = record {
      fits = refl;
      head_in = omega arith;
      tail_in = omega arith;
      small = omega arith;
    };
    some_size = omega arith;
    size = refl;
    head_at = refl;
    tail_at = refl;
  };
  extended = omega arith;
  units = refl;
}

abbrev pub ticks : ℕ → ℕ
ticks n = n

abbrev pub make_code : IsCode 0x1e nothing_typed
make_code = record { byte = omega arith; no_reset = refl; ordinary = refl; extended = omega arith }

announces_example :
    (is_ready (interrupt_occurred ticks 0x1e nothing_typed).0
      ≡ (bit_and 0x1e sc_up_bit != 0 || not (is_key_down (raw_key 0 0x1e) (replicate 16 0))))
    × Announced 0 1 0x1e nothing_typed.ring (interrupt_occurred ticks 0x1e nothing_typed).1.ring
    × (is_key_down 0x1e (interrupt_occurred ticks 0x1e nothing_typed).1.key_bit_vector ≡ (
        if 0x1e == raw_key 0 0x1e
        then bit_and 0x1e sc_up_bit == 0
        else is_key_down 0x1e (replicate 16 0)))
    × ((interrupt_occurred ticks 0x1e nothing_typed).1.extend_count ≡ 0)
announces_example =
    interrupt-announces ticks 0x1e 0x1e nothing_typed nothing_typed-IsValid make_code (omega arith)
      refl

remap_example : parse_remap (print_remap 0x1d 0xe017) ≡ some (0x1d, 0xe017)
remap_example = parse_remap-print 0x1d 0xe017 (omega arith) (omega arith)

abbrev pub clock : Kernel
clock = record { uptime = λ n. n; to_ns = λ t. t }

-- The packets that were dispatched.
abbrev log : List ℕ → List (List ℕ) → List (List ℕ)
log packet packets = packets ++ packet ∷ []

abbrev no_modifiers : List (List ℕ) → ℕ
no_modifiers packets = 0

abbrev pub packet_of : ℕ → ℕ → List ℕ
packet_of first second = first ∷ second ∷ replicate 14 0

-- A macro of two packets, of which the first is buffered.
abbrev one_buffered : Macros (List (List ℕ))
one_buffered = record {
  macro_inversion = (0xff ∷ 0xff ∷ 1 ∷ 0x1e ∷ 0 ∷ 0 ∷ 0 ∷ 0 ∷ 2 ∷ 0x5b ∷ 1 ∷ 0x19 ∷ []) ∷ [];
  has_timer = true;
  macro_buffer = packet_of 2 0x5b ∷ [] ∷ [] ∷ [] ∷ [];
  macro_max = 4;
  macro_current = 1;
  macro_max_time = 1000;
  timer = some 1000;
  clock_reads = 0;
  driver = [];
}

one_buffered-IsBounded : IsBounded one_buffered
unfolding longest
one_buffered-IsBounded = record {
  allocated = refl;
  longest_fits = omega arith;
  room = λ _. omega arith;
}

macro_example : IsBounded (handle_packet clock log no_modifiers (packet_of 1 0x19) one_buffered)
macro_example =
    handle_packet-IsBounded clock log no_modifiers (packet_of 1 0x19) one_buffered
      one_buffered-IsBounded

compare_example :
    (compare_macro (packet_of 2 0x5b ∷ []) (sequence ((2, 0x5b) ∷ []) ++ 1 ∷ 0x19 ∷ []) 1 ≡ true)
    ↔ (map packet_key (packet_of 2 0x5b ∷ []) ≡ (2, 0x5b) ∷ [])
compare_example = compare_macro_lem (packet_of 2 0x5b ∷ []) ((2, 0x5b) ∷ []) (1 ∷ 0x19 ∷ []) refl
