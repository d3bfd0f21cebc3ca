-- ===== src/Trackpad/Gestures/Example.antt =====
-- A configuration of the gestures, a driver at rest and touches, for examples.
use os_x_voodoo_ps2_controll.Base.{ℕ, true, false, none, [], replicate}
use os_x_voodoo_ps2_controll.Base.Int.{pos}
use os_x_voodoo_ps2_controll.MiddleButton.{Emulator, no_buttons}
use os_x_voodoo_ps2_controll.Trackpad.Averages.{Average}
use os_x_voodoo_ps2_controll.Trackpad.Gestures.{no_touch, move, Options, Pad, Touch}

abbrev pub nothing_averaged : Average
nothing_averaged = record { buffer = replicate 32 (pos 0); kept = 0; sum = pos 0; index = 0 }

abbrev pub no_emulation : Emulator
no_emulation = record {
  state = no_buttons;
  pending_buttons = 0;
  button_time = 0;
  button_timer = none;
  events = [];
  max_middle_click_time = 100;
  fake_middle_button = 0;
  button_count = 3;
  ignore_all = false;
}

abbrev pub options : Options
options = record {
  z_finger = 45;
  zlimit = 100;
  wlimit = 9;
  divisorx = 3;
  divisory = 2;
  vscrolldivisor = 0;
  hscrolldivisor = 0;
  cscrolldivisor = 0;
  wvdivisor = 30;
  whdivisor = 30;
  ctrigger = 0;
  ledge = pos 0;
  redge = pos 0;
  tedge = pos 0;
  bedge = pos 0;
  centerx = pos 0;
  centery = pos 0;
  maxtaptime = 130;
  maxdragtime = 230;
  maxdbltaptime = 0;
  maxaftertyping = 0;
  clickpadclicktime = 0;
  dragexitdelay = 0;
  hsticky = false;
  vsticky = false;
  wsticky = false;
  clicking = true;
  dragging = true;
  draglock = false;
  hscroll = false;
  scroll = false;
  rtap = false;
  outzone_wt = false;
  palm = false;
  palm_wt = false;
  immediateclick = false;
  swapdoubletriple = false;
  smoothinput = false;
  unsmoothinput = false;
  mousemiddlescroll = false;
  isthinkpad = false;
  passthru = false;
  ledpresent = false;
  reportsv = false;
  clickpadtrackboth = false;
  has_drag_timer = false;
  momentumscroll = false;
  dynamic_ew = false;
  extendedwmode_supported = false;
  tapthreshx = 0;
  tapthreshy = 0;
  dblthreshx = 0;
  dblthreshy = 0;
  zonel = pos 0;
  zoner = pos 0;
  zonet = pos 0;
  zoneb = pos 0;
  diszl = pos 0;
  diszr = pos 1700;
  diszt = pos 9999;
  diszb = pos 4000;
  rczl = pos 0;
  rczr = pos 0;
  rczt = pos 0;
  rczb = pos 0;
  diszctrl = pos 1;
  swipedx = pos 0;
  swipedy = pos 0;
  draglocktempmask = 0;
  ignoredeltasstart = 0;
  bogusdxthresh = 400;
  bogusdythresh = 350;
  scrolldxthresh = 0;
  scrolldythresh = 0;
  rightclick_corner = 0;
  clickpadtype = 0;
  xupmm = 50;
  yupmm = 50;
  momentumscrolltimer = 0;
  momentumscrollsamplesmin = 0;
  momentumscrolldivisor = 0;
  momentumscrollthreshy = 0;
  momentumscrollmultiplier = pos 0;
  mousemultiplierx = pos 0;
  mousemultipliery = pos 0;
  mousescrollmultiplierx = pos 0;
  mousescrollmultipliery = pos 0;
  thinkpad_nub_scroll_x_multiplier = pos 0;
  thinkpad_nub_scroll_y_multiplier = pos 0;
}

abbrev pub resting : Pad
resting = record {
  touchmode = no_touch;
  lastx = pos 0;
  lasty = pos 0;
  lastf = 0;
  lastbuttons = 0;
  ignoredeltas = 0;
  xrest = pos 0;
  yrest = pos 0;
  scrollrest = pos 0;
  touchx = pos 0;
  touchy = pos 0;
  touchtime = 0;
  untouchtime = 0;
  keytime = 0;
  wasdouble = false;
  wastriple = false;
  ignoreall = false;
  passbuttons = 0;
  clickbuttons = 0;
  thinkpad_button_state = 0;
  modifierdown = 0;
  draglocktemp = 0;
  mode_byte = 0;
  extendedwmode = false;
  clickedprimary = false;
  tracksecondary = false;
  thinkpad_middle_scrolled = false;
  thinkpad_middle_button_pressed = false;
  lastx2 = pos 0;
  lasty2 = pos 0;
  in_swipe_left = false;
  in_swipe_right = false;
  in_swipe_up = false;
  in_swipe_down = false;
  xmoved = pos 0;
  ymoved = pos 0;
  dy_history = nothing_averaged;
  time_history = nothing_averaged;
  x_avg = nothing_averaged;
  y_avg = nothing_averaged;
  x_undo = none;
  y_undo = none;
  momentumscrollinterval = 0;
  momentumscrollsum = pos 0;
  momentumscrollcurrent = pos 0;
  momentumscrollrest1 = pos 0;
  momentumscrollrest2 = pos 0;
  emulator = no_emulation;
  calls = [];
}

abbrev pub touch_at : ℕ → ℕ → ℕ → ℕ → Touch
touch_at now z x y = record {
  now_abs = now;
  now_ns = now;
  w = 4;
  z = z;
  f = 1;
  xraw = pos x;
  yraw = pos y;
  x = pos x;
  y = pos y;
  buttons = 0;
  dx = pos 0;
  dy = pos 0;
}

abbrev pub moving_finger : Pad
moving_finger = record resting {
  touchmode = move;
  lastx = pos 3000;
  lasty = pos 3000;
  lastf = 1;
  touchtime = 1000;
}
