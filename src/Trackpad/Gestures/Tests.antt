-- ===== src/Trackpad/Gestures/Tests.antt =====
-- The gestures at work.
use os_x_voodoo_ps2_controll.Base.{ℕ, ◌≡◌, refl, arith, true, false, not, List, [], ◌∷◌}
use os_x_voodoo_ps2_controll.Base.Int.{◌+ℤ◌, ◌-ℤ◌}
use os_x_voodoo_ps2_controll.Trackpad.Gestures.{is_touch_mode, Pad, Touch}
use os_x_voodoo_ps2_controll.Trackpad.Gestures.Parse.{
  width_of, x_of, y_of, touch_of, packet_buttons, finger_change, unsmooth, smooth, ignore_deltas,
}
use os_x_voodoo_ps2_controll.Trackpad.Gestures.Calls.{middle, report}
use os_x_voodoo_ps2_controll.MiddleButton.Trackpad.{middle_button}
use os_x_voodoo_ps2_controll.Trackpad.Gestures.Parse.Layout.{layout, layout_lem}
use os_x_voodoo_ps2_controll.Trackpad.Gestures.Zones.{watch_zone, wait_release}
use os_x_voodoo_ps2_controll.Trackpad.Gestures.Dispatch.DoubleTap.{IsTap, IsLift, double_tap}
use os_x_voodoo_ps2_controll.Trackpad.Gestures.Dispatch.Before.{before_filters}
use os_x_voodoo_ps2_controll.Trackpad.Gestures.Dispatch.Reports.{motions}
use os_x_voodoo_ps2_controll.Trackpad.Gestures.Dispatch.{
  filter_touch, track_finger, touch_packet, dispatch_events,
}
use os_x_voodoo_ps2_controll.Trackpad.Gestures.Dispatch.Disabled.{dispatch_events-quiet}
use os_x_voodoo_ps2_controll.Trackpad.Gestures.Dispatch.Moving.{IsMoving, moved_on, moving_step}
use os_x_voodoo_ps2_controll.Trackpad.Gestures.Release.{cancel_tap}
use os_x_voodoo_ps2_controll.Trackpad.Gestures.Zones.{is_outside_after_typing, disable_zone}
use mathlib.Core.Path.{subst, sym}
use os_x_voodoo_ps2_controll.Trackpad.Gestures.Dispatch.Distance.{
  balance_x, balance_y, move_on, AllMoving, move_on-balance,
}
use os_x_voodoo_ps2_controll.Trackpad.Gestures.Example.{options, resting, touch_at, moving_finger}

layout_example :
    (width_of (layout 4 5000 4099 60 1 0) ≡ 4)
    × (x_of (layout 4 5000 4099 60 1 0) ≡ 5000)
    × (y_of (layout 4 5000 4099 60 1 0) ≡ 4099)
layout_example =
    layout_lem 4 5000 4099 60 1 0 (omega arith) (omega arith) (omega arith) (omega arith)
      (omega arith)

abbrev tap_packet : List ℕ
tap_packet = layout 4 800 5000 60 0 0

abbrev lift_packet : List ℕ
lift_packet = layout 4 800 5000 10 0 0

abbrev ns : ℕ → ℕ
ns n = n

first-IsTap : IsTap ns options 1000 tap_packet resting
unfolding before_filters packet_buttons track_finger touch_of finger_change unsmooth smooth
    ignore_deltas middle middle_button report width_of x_of y_of is_outside_after_typing
first-IsTap = record { own = refl; tapped = refl; heeded = refl }

no_finger : IsLift ns options lift_packet
no_finger = record { own = refl; lifted = refl }

second-IsTap : IsTap ns options 1200 tap_packet (
    dispatch_events ns options 1100 lift_packet
      (dispatch_events ns options 1000 tap_packet resting))
unfolding before_filters packet_buttons track_finger touch_of finger_change unsmooth smooth
    ignore_deltas middle middle_button report width_of x_of y_of is_outside_after_typing
    dispatch_events touch_packet filter_touch watch_zone disable_zone wait_release
second-IsTap = record { own = refl; tapped = refl; heeded = refl }

double_tap_example :
    ((dispatch_events ns options 1300 lift_packet (
        dispatch_events ns options 1200 tap_packet (
          dispatch_events ns options 1100 lift_packet
            (dispatch_events ns options 1000 tap_packet resting)))).ignoreall
      ≡ not resting.ignoreall)
    × (is_touch_mode
          (dispatch_events ns options 1300 lift_packet (
            dispatch_events ns options 1200 tap_packet (
              dispatch_events ns options 1100 lift_packet
                (dispatch_events ns options 1000 tap_packet resting)))).touchmode
        ≡ false)
double_tap_example =
    double_tap ns options refl 1000 1100 1200 1300 tap_packet lift_packet tap_packet lift_packet
      resting refl first-IsTap no_finger refl second-IsTap refl no_finger refl

abbrev turned_off : Pad
turned_off = record moving_finger { ignoreall = true }

abbrev move_packet : List ℕ
move_packet = layout 4 3100 3000 60 0 0

still_off : (dispatch_events ns options 2000 move_packet turned_off).ignoreall ≡ true
unfolding dispatch_events touch_packet packet_buttons track_finger touch_of finger_change unsmooth
    smooth ignore_deltas middle middle_button report width_of x_of y_of filter_touch
    is_outside_after_typing watch_zone disable_zone
still_off = refl

quiet_example :
    motions (dispatch_events ns options 2000 move_packet turned_off).calls
    ≡ motions turned_off.calls
quiet_example = dispatch_events-quiet ns options 2000 move_packet turned_off refl still_off

abbrev touch1 : Touch
touch1 = touch_at 2000 60 3050 2990

abbrev touch2 : Touch
touch2 = touch_at 2010 60 3060 2970

first_moves : IsMoving options touch1 moving_finger
unfolding ◌+ℤ◌ ◌-ℤ◌
first_moves = record {
  mode = refl;
  finger = refl;
  same_fingers = refl;
  free = refl;
  one = refl;
  no_tap = refl;
  small = refl;
  other_pad = refl;
}

second_moves : IsMoving options touch2 (moved_on options touch1 moving_finger)
unfolding cancel_tap ◌+ℤ◌ ◌-ℤ◌
second_moves = record {
  mode = refl;
  finger = refl;
  same_fingers = refl;
  free = refl;
  one = refl;
  no_tap = refl;
  small = refl;
  other_pad = refl;
}

two_moves : AllMoving options (touch1 ∷ touch2 ∷ []) moving_finger
two_moves = (
  first_moves,
  (
    subst (IsMoving options touch2) (sym (moving_step options touch1 moving_finger first_moves))
        second_moves,
    tt,
  ),
)

distance_example :
    (balance_x options (move_on options (touch1 ∷ touch2 ∷ []) moving_finger)
      ≡ balance_x options moving_finger)
    × (balance_y options (move_on options (touch1 ∷ touch2 ∷ []) moving_finger)
        ≡ balance_y options moving_finger)
distance_example =
    move_on-balance options (touch1 ∷ touch2 ∷ []) moving_finger (omega arith) (omega arith)
      two_moves
