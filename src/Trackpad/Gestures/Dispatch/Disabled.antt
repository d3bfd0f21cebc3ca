-- ===== src/Trackpad/Gestures/Dispatch/Disabled.antt =====
-- A trackpad that is turned off.
use os_x_voodoo_ps2_controll.Base.{
  ℕ, true, false, ◌&&◌, List, [], ◌∷◌, ◌==◌, ◌∙◌, ap, sym, if◌then◌else◌,
}
use os_x_voodoo_ps2_controll.Device.{PointerEvent}
use os_x_voodoo_ps2_controll.Trackpad.Gestures.{
  Mode, no_touch, predrag, drag_no_touch, move, vscroll, hscroll, cscroll, multi_touch, drag,
  drag_lock, wait1_release, wait2_tap, wait2_release, Call, pointer, swipe, set_scroll_timer,
  set_drag_timer, cancel_drag_timer, update_led, set_mode_byte, Options, Pad, Touch,
}
use os_x_voodoo_ps2_controll.Base.{◌≡◌, refl, arith}
use os_x_voodoo_ps2_controll.Trackpad.Gestures.Zones.{wait_release, disable_zone, watch_zone}
use os_x_voodoo_ps2_controll.Trackpad.Gestures.Dispatch.{filter_touch, dispatch_events}
use os_x_voodoo_ps2_controll.Trackpad.Gestures.Parse.{width_of}
use os_x_voodoo_ps2_controll.Trackpad.Gestures.Dispatch.Before.{
  before_filters, before_filters_lem, before_filters-Same,
}
use os_x_voodoo_ps2_controll.Trackpad.Gestures.Dispatch.Reports.{is_still, motions}
use os_x_voodoo_ps2_controll.Trackpad.Gestures.Dispatch.Ignoring.{finish_touch-ignoreall}

-- The pointer events among the calls.
pub pointer_events : List Call → List PointerEvent
pointer_events [] = []
pointer_events (pointer e ∷ calls) = e ∷ pointer_events calls
pointer_events (swipe s now ∷ calls) = pointer_events calls
pointer_events (set_scroll_timer n ∷ calls) = pointer_events calls
pointer_events (set_drag_timer n ∷ calls) = pointer_events calls
pointer_events (cancel_drag_timer ∷ calls) = pointer_events calls
pointer_events (update_led off ∷ calls) = pointer_events calls
pointer_events (set_mode_byte x ∷ calls) = pointer_events calls

disable_zone-pointers :
    (o : Options) (m : Mode) (t : Touch) (p : Pad)
    → pointer_events (disable_zone o m t p).calls ≡ pointer_events p.calls
unfolding disable_zone wait_release pointer_events
disable_zone-pointers o no_touch t p = ground arith
disable_zone-pointers o wait1_release t p = ground arith
disable_zone-pointers o wait2_tap t p = ground arith
disable_zone-pointers o wait2_release t p = ground arith
disable_zone-pointers o predrag t p = refl
disable_zone-pointers o drag_no_touch t p = refl
disable_zone-pointers o move t p = refl
disable_zone-pointers o vscroll t p = refl
disable_zone-pointers o hscroll t p = refl
disable_zone-pointers o cscroll t p = refl
disable_zone-pointers o multi_touch t p = refl
disable_zone-pointers o drag t p = refl
disable_zone-pointers o drag_lock t p = refl

watch-pointers :
    (o : Options) (t : Touch) (p : Pad)
    → pointer_events (watch_zone o t p).calls ≡ pointer_events p.calls
unfolding watch_zone
watch-pointers o t p = ground (arith, disable_zone-pointers o p.touchmode t p)

-- From the filters on, a touch that leaves the trackpad turned off makes no pointer event, neither a
-- motion, a button nor a scroll, in any mode and with any options.
pub filter_touch-quiet :
    (o : Options) (t : Touch) (p : Pad)
    → (filter_touch o t p).ignoreall ≡ true
    → pointer_events (filter_touch o t p).calls ≡ pointer_events p.calls
unfolding filter_touch
filter_touch-quiet o t p off =
    ground (arith, off, watch-pointers o t p, finish_touch-ignoreall o t (watch_zone o t p))

moving_events : List PointerEvent → List PointerEvent
moving_events [] = []
moving_events (e ∷ es) = let rest = moving_events es in if is_still e then rest else e ∷ rest

motions-pointers : (calls : List Call) → motions calls ≡ moving_events (pointer_events calls)
unfolding motions moving_events pointer_events
motions-pointers [] = refl
motions-pointers (pointer e ∷ calls) =
    ap (λ rest. if is_still e then rest else e ∷ rest) (motions-pointers calls)
motions-pointers (swipe s now ∷ calls) = motions-pointers calls
motions-pointers (set_scroll_timer n ∷ calls) = motions-pointers calls
motions-pointers (set_drag_timer n ∷ calls) = motions-pointers calls
motions-pointers (cancel_drag_timer ∷ calls) = motions-pointers calls
motions-pointers (update_led off ∷ calls) = motions-pointers calls
motions-pointers (set_mode_byte x ∷ calls) = motions-pointers calls

-- A packet of the trackpad itself, not of what passes through it, that leaves the trackpad turned off
-- neither moves the pointer nor scrolls, in any mode and with any options: the pointer events that it
-- may make only report buttons.
pub dispatch_events-quiet :
    (to_ns : ℕ → ℕ) (o : Options) (now : ℕ) (packet : List ℕ) (p : Pad)
    → (o.passthru && width_of packet == 3) ≡ false
    → (dispatch_events to_ns o now packet p).ignoreall ≡ true
    → motions (dispatch_events to_ns o now packet p).calls ≡ motions p.calls
dispatch_events-quiet to_ns o now packet p own off =
    let (t, q) = before_filters to_ns o now packet p in
    let e = before_filters_lem to_ns o now packet p own in
    let off' = sym (ap (λ (r : Pad). r.ignoreall) e) ∙ off in
    ap (λ (r : Pad). motions r.calls) e
    ∙ motions-pointers (filter_touch o t q).calls
    ∙ ap moving_events (filter_touch-quiet o t q off')
    ∙ sym (motions-pointers q.calls)
    ∙ (before_filters-Same to_ns o now packet p).0.same_motions
