-- ===== src/Trackpad/Gestures.antt =====
-- dispatchEventsWithPacket of VoodooPS2Trackpad/VoodooPS2SynapticsTouchPad.cpp: what the driver
-- remembers between packets, and the parts that its stages share. Coordinates and distances are
-- integers without a bound.
pub mod Calls
pub mod Parse
pub mod Clickpad
pub mod Zones
pub mod Release
pub mod Motion
pub mod Switch
pub mod Dispatch
pub mod Second
pub mod Delivery
pub mod Messages
mod Example
mod Tests
use os_x_voodoo_ps2_controll.Base.{
  ℕ, ◌+◌, ◌-◌, ◌*◌, ◌/◌, ◌%◌, Bool, true, false, not, ◌&&◌, ◌||◌, Option, none, some, List, [], ◌∷◌,
  suc, ltb, leb, ◌==◌, ◌!=◌, if◌then◌else◌, bit_and, bit_or, sub_u64,
}
use os_x_voodoo_ps2_controll.Base.Int.{
  ℤ, pos, negsuc, ◌+ℤ◌, ◌-ℤ◌, ◌*ℤ◌, ltb_ℤ, ◌==ℤ◌, pos_part, neg_part,
}
use os_x_voodoo_ps2_controll.Device.{PointerEvent, relative, scroll_event}
use os_x_voodoo_ps2_controll.MiddleButton.{Emulator}
use os_x_voodoo_ps2_controll.MiddleButton.Trackpad.{ComingFrom, middle_button}
use os_x_voodoo_ps2_controll.Trackpad.Averages.{Average, quotient}

-- `touchmode`
pub data Mode : Type 0 where
  no_touch predrag drag_no_touch : Mode
  move vscroll hscroll cscroll multi_touch drag drag_lock : Mode
  wait1_release wait2_tap wait2_release : Mode

-- isTouchMode, which is whether the number of the mode is odd.
abbrev pub is_touch_mode : Mode → Bool
is_touch_mode no_touch = false
is_touch_mode predrag = false
is_touch_mode drag_no_touch = false
is_touch_mode move = true
is_touch_mode vscroll = true
is_touch_mode hscroll = true
is_touch_mode cscroll = true
is_touch_mode multi_touch = true
is_touch_mode drag = true
is_touch_mode drag_lock = true
is_touch_mode wait1_release = true
is_touch_mode wait2_tap = false
is_touch_mode wait2_release = true

abbrev pub number_of : Mode → ℕ
number_of no_touch = 0
number_of predrag = 2
number_of drag_no_touch = 4
number_of move = 1
number_of vscroll = 3
number_of hscroll = 5
number_of cscroll = 7
number_of multi_touch = 9
number_of drag = 11
number_of drag_lock = 13
number_of wait1_release = 101
number_of wait2_tap = 102
number_of wait2_release = 103

abbrev pub is_mode : Mode → Mode → Bool
is_mode a b = number_of a == number_of b

pub data Swipe : Type 0 where
  swipe_up swipe_down swipe_left swipe_right : Swipe

-- The calls that leave the driver: events, messages to the keyboard driver, the timers of scrolling
-- and of dragging, the light, and the mode byte that is written to the device.
pub data Call : Type 0 where
  pointer : PointerEvent → Call
  swipe : Swipe → ℕ → Call
  set_scroll_timer set_drag_timer : ℕ → Call
  cancel_drag_timer : Call
  update_led : Bool → Call
  set_mode_byte : ℕ → Call

-- The configuration. What the source compares with a time, a pressure, a width or a count, or divides
-- by, is a natural number here. `has_drag_timer` says that dragTimer is not null.
pub record Options : Type 0 where
  pub z_finger : ℕ
  pub zlimit : ℕ
  pub wlimit : ℕ
  pub divisorx : ℕ
  pub divisory : ℕ
  pub vscrolldivisor : ℕ
  pub hscrolldivisor : ℕ
  pub cscrolldivisor : ℕ
  pub wvdivisor : ℕ
  pub whdivisor : ℕ
  pub ctrigger : ℕ
  pub ledge : ℤ
  pub redge : ℤ
  pub tedge : ℤ
  pub bedge : ℤ
  pub centerx : ℤ
  pub centery : ℤ
  pub maxtaptime : ℕ
  pub maxdragtime : ℕ
  pub maxdbltaptime : ℕ
  pub maxaftertyping : ℕ
  pub clickpadclicktime : ℕ
  pub dragexitdelay : ℕ
  pub hsticky : Bool
  pub vsticky : Bool
  pub wsticky : Bool
  pub clicking : Bool
  pub dragging : Bool
  pub draglock : Bool
  pub hscroll : Bool
  pub scroll : Bool
  pub rtap : Bool
  pub outzone_wt : Bool
  pub palm : Bool
  pub palm_wt : Bool
  pub immediateclick : Bool
  pub swapdoubletriple : Bool
  pub smoothinput : Bool
  pub unsmoothinput : Bool
  pub mousemiddlescroll : Bool
  pub isthinkpad : Bool
  pub passthru : Bool
  pub ledpresent : Bool
  pub reportsv : Bool
  pub clickpadtrackboth : Bool
  pub has_drag_timer : Bool
  pub momentumscroll : Bool
  pub dynamic_ew : Bool
  pub extendedwmode_supported : Bool
  pub tapthreshx : ℕ
  pub tapthreshy : ℕ
  pub dblthreshx : ℕ
  pub dblthreshy : ℕ
  pub zonel : ℤ
  pub zoner : ℤ
  pub zonet : ℤ
  pub zoneb : ℤ
  pub diszl : ℤ
  pub diszr : ℤ
  pub diszt : ℤ
  pub diszb : ℤ
  pub rczl : ℤ
  pub rczr : ℤ
  pub rczt : ℤ
  pub rczb : ℤ
  pub diszctrl : ℤ
  pub swipedx : ℤ
  pub swipedy : ℤ
  pub draglocktempmask : ℕ
  pub ignoredeltasstart : ℕ
  pub bogusdxthresh : ℕ
  pub bogusdythresh : ℕ
  pub scrolldxthresh : ℕ
  pub scrolldythresh : ℕ
  pub rightclick_corner : ℕ
  pub clickpadtype : ℕ
  pub xupmm : ℕ
  pub yupmm : ℕ
  pub momentumscrolltimer : ℕ
  pub momentumscrollsamplesmin : ℕ
  pub momentumscrolldivisor : ℕ
  pub momentumscrollthreshy : ℕ
  pub momentumscrollmultiplier : ℤ
  pub mousemultiplierx : ℤ
  pub mousemultipliery : ℤ
  pub mousescrollmultiplierx : ℤ
  pub mousescrollmultipliery : ℤ
  pub thinkpad_nub_scroll_x_multiplier : ℤ
  pub thinkpad_nub_scroll_y_multiplier : ℤ

-- The members that a packet changes. `calls` are those made so far, the newest first; the undecaying
-- averages keep their last value, `none` if it is not valid.
pub record Pad : Type 0 where
  pub touchmode : Mode
  pub lastx : ℤ
  pub lasty : ℤ
  pub lastf : ℕ
  pub lastbuttons : ℕ
  pub ignoredeltas : ℕ
  pub xrest : ℤ
  pub yrest : ℤ
  pub scrollrest : ℤ
  pub touchx : ℤ
  pub touchy : ℤ
  pub touchtime : ℕ
  pub untouchtime : ℕ
  pub keytime : ℕ
  pub wasdouble : Bool
  pub wastriple : Bool
  pub ignoreall : Bool
  pub passbuttons : ℕ
  pub clickbuttons : ℕ
  pub thinkpad_button_state : ℕ
  pub modifierdown : ℕ
  pub draglocktemp : ℕ
  pub mode_byte : ℕ
  pub extendedwmode : Bool
  pub clickedprimary : Bool
  pub tracksecondary : Bool
  pub thinkpad_middle_scrolled : Bool
  pub thinkpad_middle_button_pressed : Bool
  pub lastx2 : ℤ
  pub lasty2 : ℤ
  pub in_swipe_left : Bool
  pub in_swipe_right : Bool
  pub in_swipe_up : Bool
  pub in_swipe_down : Bool
  pub xmoved : ℤ
  pub ymoved : ℤ
  pub dy_history : Average
  pub time_history : Average
  pub x_avg : Average
  pub y_avg : Average
  pub x_undo : Option ℤ
  pub y_undo : Option ℤ
  pub momentumscrollinterval : ℕ
  pub momentumscrollsum : ℤ
  pub momentumscrollcurrent : ℤ
  pub momentumscrollrest1 : ℤ
  pub momentumscrollrest2 : ℤ
  pub emulator : Emulator
  pub calls : List Call

-- The local variables of dispatchEventsWithPacket, from the parsing of a packet on.
pub record Touch : Type 0 where
  pub now_abs : ℕ
  pub now_ns : ℕ
  pub w : ℕ
  pub z : ℕ
  pub f : ℕ
  pub xraw : ℤ
  pub yraw : ℤ
  pub x : ℤ
  pub y : ℤ
  pub buttons : ℕ
  pub dx : ℤ
  pub dy : ℤ
