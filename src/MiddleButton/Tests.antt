-- ===== src/MiddleButton/Tests.antt =====
-- The emulation of a middle button at work.
use os_x_voodoo_ps2_controll.Base.{ℕ, ◌≡◌, refl, arith, false, none, some, [], bit_and}
use os_x_voodoo_ps2_controll.MiddleButton.{Emulator, no_buttons, wait_for_two}
use os_x_voodoo_ps2_controll.MiddleButton.Mouse
use os_x_voodoo_ps2_controll.MiddleButton.Mouse.{from_timer, from_mouse}
use os_x_voodoo_ps2_controll.MiddleButton.Trackpad
use os_x_voodoo_ps2_controll.MiddleButton.Clicks.{IsIdle, middle_click}
use os_x_voodoo_ps2_controll.MiddleButton.Consistent.{mouse-eq-trackpad}

abbrev idle : Emulator
idle = record {
  state = no_buttons;
  pending_buttons = 0;
  button_time = 0;
  button_timer = none;
  events = [];
  max_middle_click_time = 100;
  fake_middle_button = 1;
  button_count = 3;
  ignore_all = false;
}

abbrev waiting : Emulator
waiting = record idle {
  state = wait_for_two;
  pending_buttons = 1;
  button_time = 5;
  button_timer = some 100;
}

abbrev same_time : ℕ → ℕ
same_time t = t

idle-IsIdle : IsIdle idle
idle-IsIdle = record {
  enabled = λ e. omega (arith, e);
  three_buttons = omega arith;
  at_rest = refl;
  nothing_pending = refl;
}

middle_click_example :
    let (b0, e0) = Trackpad.middle_button same_time 1 10 Trackpad.from_passthru idle in
    let (b1, e1) = Trackpad.middle_button same_time 3 50 Trackpad.from_passthru e0 in
    let (b2, e2) = Trackpad.middle_button same_time 0 80 Trackpad.from_passthru e1 in
    (b0 ≡ bit_and 1 0xffff_fffc) × (b1 ≡ 4) × (b2 ≡ 0) × IsIdle e2 × (e2.events ≡ idle.events)
middle_click_example =
    middle_click same_time idle idle-IsIdle 1 10 50 80
      ((λ e. omega (arith, e)), (λ e. omega (arith, e)), refl) (omega arith) (omega arith)
      (omega arith)

same_code_example :
    Mouse.middle_button same_time 3 40 from_mouse waiting
    ≡ Trackpad.middle_button same_time 3 40 Trackpad.from_trackpad waiting
same_code_example = mouse-eq-trackpad same_time 3 40 from_mouse waiting
