-- ===== src/Trackpad/Gestures/Second/Tests.antt =====
-- A second finger at work.
use os_x_voodoo_ps2_controll.Base.{ℕ, ◌≡◌, refl, arith, true, none, List, [], ◌∷◌, replicate}
use os_x_voodoo_ps2_controll.Base.Int.{pos, ◌+ℤ◌, ◌-ℤ◌}
use os_x_voodoo_ps2_controll.Trackpad.Synaptics.{TouchPad, ring_size, packet_ready_loop}
use os_x_voodoo_ps2_controll.Trackpad.Synaptics.Assembly.{IsValid, next}
use os_x_voodoo_ps2_controll.Trackpad.Gestures.{multi_touch, Options, Pad, Touch}
use os_x_voodoo_ps2_controll.Trackpad.Gestures.Example.{
  nothing_averaged, options, resting, touch_at,
}
use os_x_voodoo_ps2_controll.Trackpad.Gestures.Zones.{is_outside_after_typing}
use os_x_voodoo_ps2_controll.Trackpad.Gestures.Delivery.{dispatch_at, synaptics_deliver}
use os_x_voodoo_ps2_controll.Trackpad.Gestures.Second.{Second, dispatch_events_ew, dispatch_wmode}
use os_x_voodoo_ps2_controll.Trackpad.Gestures.Second.Still.{travelled, dispatch_events_ew-still}
use os_x_voodoo_ps2_controll.Trackpad.Gestures.Second.Balance.{
  IsHolding, held_on, holding_step, held_balance_x, held_balance_y, hold_on, AllHolding,
  hold_on-balance,
}
use os_x_voodoo_ps2_controll.Ring.{count, span}
use mathlib.Core.Path.{subst, sym}

abbrev no_second : Second
no_second = record {
  xrest2 = pos 0;
  yrest2 = pos 0;
  x2_avg = nothing_averaged;
  y2_avg = nothing_averaged;
  x2_undo = none;
  y2_undo = none;
}

abbrev clickpad : Options
clickpad = record options { clickpadtype = 1; clickpadtrackboth = true }

abbrev ew_packet : List ℕ
ew_packet = 0x80 ∷ 100 ∷ 120 ∷ 0xf0 ∷ 0x22 ∷ 0x18 ∷ []

abbrev two_down : Pad
two_down = record resting { touchmode = multi_touch; extendedwmode = true }

still_example :
    travelled (dispatch_events_ew (λ n. n) clickpad 500 ew_packet two_down no_second).0
    ≡ travelled two_down
still_example = dispatch_events_ew-still (λ n. n) clickpad 500 ew_packet two_down no_second refl

abbrev held_down : Pad
held_down = record two_down {
  clickbuttons = 1;
  clickedprimary = true;
  tracksecondary = true;
  lastx2 = pos 3000;
  lasty2 = pos 3000;
}

abbrev touch1 : Touch
touch1 = touch_at 2000 60 3050 2990

abbrev touch2 : Touch
touch2 = touch_at 2010 60 3060 2970

first_holds : IsHolding clickpad touch1 (held_down, no_second)
unfolding ◌+ℤ◌ ◌-ℤ◌ is_outside_after_typing
first_holds = record { known = refl; held = refl; timely = refl; small = refl; other_pad = refl }

second_holds : IsHolding clickpad touch2 (held_on clickpad touch1 (held_down, no_second))
unfolding ◌+ℤ◌ ◌-ℤ◌ is_outside_after_typing
second_holds = record { known = refl; held = refl; timely = refl; small = refl; other_pad = refl }

abbrev two_touches : List (List ℕ × Touch)
two_touches = (ew_packet, touch1) ∷ (ew_packet, touch2) ∷ []

both_hold : AllHolding clickpad two_touches (held_down, no_second)
both_hold = (
  first_holds,
  (
    subst (IsHolding clickpad touch2)
        (sym (holding_step clickpad ew_packet touch1 held_down no_second first_holds)) second_holds,
    tt,
  ),
)

hold_example :
    (held_balance_x clickpad (hold_on clickpad two_touches (held_down, no_second))
      ≡ held_balance_x clickpad (held_down, no_second))
    × (held_balance_y clickpad (hold_on clickpad two_touches (held_down, no_second))
        ≡ held_balance_y clickpad (held_down, no_second))
hold_example =
    hold_on-balance clickpad two_touches (held_down, no_second) (omega arith) (omega arith)
      both_hold

abbrev untouched : TouchPad
untouched = record {
  ring = record { buffer = replicate ring_size 0; head = 0; tail = 0 };
  last_data = 0;
  packet_byte_count = 0;
}

untouched-IsValid : IsValid untouched
untouched-IsValid = record {
  aligned = record {
    valid = record {
      fits = refl;
      head_in = omega arith;
      tail_in = omega arith;
      small = omega arith;
    };
    some_size = omega arith;
    size = refl;
    head_at = refl;
    tail_at = refl;
  };
  incomplete = omega arith;
}

deliver_packet_example :
    (packet_ready_loop
      (dispatch_at (λ n. n) clickpad 500)
      (next 4 (next 3 (next 0xc4 (next 2 (next 1 (next 0x84 untouched))))))
      (two_down, no_second)).1
    ≡ dispatch_wmode (λ n. n) clickpad 500 (0x84 ∷ 1 ∷ 2 ∷ 0xc4 ∷ 3 ∷ 4 ∷ []) two_down no_second
unfolding count span
deliver_packet_example =
    synaptics_deliver (λ n. n) clickpad 500 0x84 1 2 0xc4 3 4 untouched (two_down, no_second)
      untouched-IsValid refl refl refl refl refl refl refl refl refl refl
