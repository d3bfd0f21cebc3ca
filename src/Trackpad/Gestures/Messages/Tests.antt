-- ===== src/Trackpad/Gestures/Messages/Tests.antt =====
-- A keyboard that turns the trackpad off, and a finger while somebody types.
use os_x_voodoo_ps2_controll.Base.{ℕ, refl, ◌≡◌, true, false, not, none, List, []}
use os_x_voodoo_ps2_controll.Base.Int.{pos}
use os_x_voodoo_ps2_controll.Device.{Kernel, KeyInfo}
use os_x_voodoo_ps2_controll.Keyboard.Events.{
  Settings, World, Typist, timer_sleep, notify_key_pressed,
}
use os_x_voodoo_ps2_controll.Keyboard.Dispatch.{special_key}
use os_x_voodoo_ps2_controll.Trackpad.Gestures.{Options}
use os_x_voodoo_ps2_controll.Trackpad.Gestures.Example.{options, resting}
use os_x_voodoo_ps2_controll.Trackpad.Gestures.Messages.{get_disable_touchpad, hear, heard}
use os_x_voodoo_ps2_controll.Trackpad.Gestures.Messages.Toggle.{toggle-flips}
use os_x_voodoo_ps2_controll.Trackpad.Gestures.Messages.Typing.{dispatch_events-ignored}
use os_x_voodoo_ps2_controll.Trackpad.Gestures.Messages.{notice_key}
use os_x_voodoo_ps2_controll.Trackpad.Gestures.Dispatch.{track_finger, dispatch_events}
use os_x_voodoo_ps2_controll.Trackpad.Gestures.Dispatch.Before.{before_filters}
use os_x_voodoo_ps2_controll.Trackpad.Gestures.Dispatch.Kept.{Same}
use os_x_voodoo_ps2_controll.Trackpad.Gestures.Parse.Layout.{layout}
use os_x_voodoo_ps2_controll.Trackpad.Gestures.Parse.{
  width_of, x_of, y_of, touch_of, packet_buttons, finger_change, unsmooth, smooth, ignore_deltas,
}
use os_x_voodoo_ps2_controll.Trackpad.Gestures.Calls.{middle, report}
use os_x_voodoo_ps2_controll.MiddleButton.Trackpad.{middle_button}

abbrev kernel : Kernel
kernel = record { uptime = λ n. n; to_ns = λ n. n }

abbrev with_trackpad : World
with_trackpad = record {
  kernel = kernel;
  evaluate_integer = λ method es. none;
  gives_number = λ es. true;
  has_power_root = λ es. true;
  touchpad_disabled = λ es. get_disable_touchpad (heard es resting);
  eats_key = λ info es. false;
  has_hid_system = λ es. true;
}

abbrev settings : Settings
settings = record {
  ps2_to_ps2_map = [];
  ps2_to_adb_map = [];
  ps2_flags = [];
  key_bit_vector = [];
  brightness_levels = none;
  backlight_levels = none;
  brightness_hack = true;
  has_provider = true;
  fkeymode = 0;
  fkeymodesupported = true;
  maxsleeppresstime = 500;
  f12ejectdelay = 250;
  version_major = 16;
}

abbrev typist : Typist
typist = record {
  modifier_state = 0;
  timer_func = timer_sleep;
  sleep_eject_timer = none;
  caps_first_time = true;
  clock_reads = 0;
  effects = [];
}

toggle_example :
    (heard (special_key with_trackpad settings 0x0128 true 7 typist).1.effects resting).ignoreall
    ≡ not (heard typist.effects resting).ignoreall
toggle_example = toggle-flips with_trackpad settings 0x0128 7 typist resting (λ es. refl) refl refl

abbrev typing_options : Options
typing_options = record options {
  outzone_wt = true;
  maxaftertyping = 500;
  zonel = pos 1700;
  zoner = pos 5200;
  zonet = pos 4000;
  zoneb = pos 0;
}

abbrev key_pressed : KeyInfo
key_pressed = record { time = 1000; adb_key_code = 0; going_down = true; eat_key = false }

abbrev palm_packet : List ℕ
palm_packet = layout 4 900 3000 60 0 0

ignored_example : Same (hear (notify_key_pressed key_pressed) resting) (
    dispatch_events
      (λ n. n)
      typing_options
      1200
      palm_packet
      (hear (notify_key_pressed key_pressed) resting))
unfolding before_filters packet_buttons track_finger touch_of finger_change unsmooth smooth
    ignore_deltas middle middle_button report width_of x_of y_of hear notice_key
ignored_example =
    dispatch_events-ignored (λ n. n) typing_options 1200 palm_packet key_pressed resting refl refl
      refl refl refl refl
