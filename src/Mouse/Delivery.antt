-- ===== src/Mouse/Delivery.antt =====
-- From the bytes of an interrupt to the events of the HID system.
use mathlib.Core.List.{foldl}
use os_x_voodoo_ps2_controll.Base.{
  ℕ, suc, ◌≤◌, ◌≡◌, ◌≢◌, ◌∙◌, ap, sym, arith, false, ◌||◌, List, ◌∷◌, ◌==◌, bit_and, take, length,
  get_or, get_or-take, nil_of_length,
}
use os_x_voodoo_ps2_controll.Base.Bytes.{none-bit_and}
use os_x_voodoo_ps2_controll.Device.{Kernel, sc_acknowledge}
use os_x_voodoo_ps2_controll.Ring.{count}
use os_x_voodoo_ps2_controll.Ring.Valid.{contents, count-eq-length}
use os_x_voodoo_ps2_controll.Ring.Drain.{Drained, drain-Drained, single_packet}
use os_x_voodoo_ps2_controll.Mouse.{
  Mouse, Dispatch, ring_size, packet_length_max, dispatch_relative, handle_packet,
  packet_ready_loop,
}
use os_x_voodoo_ps2_controll.Mouse.Assembly.{IsValid, NoReset, feed, assemble}
use os_x_voodoo_ps2_controll.Mouse.Motion.{dispatch_relative-take}

-- In a valid state the mouse's work loop handles every packet that is stored, once and in order,
-- and leaves the ring empty.
pub packet_ready_loop-Drained :
    (k : Kernel) (d : Mouse)
    → IsValid d
    → Drained ring_size packet_length_max
        (handle_packet k d.packet_length)
        d.ring
        d.state
        ((packet_ready_loop k d).ring, (packet_ready_loop k d).state)
unfolding packet_ready_loop
packet_ready_loop-Drained k d v =
    drain-Drained ring_size packet_length_max (handle_packet k d.packet_length)
      (count ring_size d.ring) d.ring d.state v.aligned (omega arith)

handle_packet-take :
    (k : Kernel) (size : ℕ) (packet bytes : List ℕ) (s : Dispatch)
    → 3 ≤ size
    → take size packet ≡ bytes
    → get_or bytes 0 0 ≢ 0
    → handle_packet k size packet s ≡ dispatch_relative k size bytes s
unfolding handle_packet
handle_packet-take k size packet bytes s h e ne = ground (
  arith,
  get_or-take size 0 packet 0,
  ap (λ l. get_or l 0 0) e,
  ap (λ l. dispatch_relative k size l s) e,
  dispatch_relative-take k size packet s h,
)

starts-ne : (x : ℕ) → (x == sc_acknowledge || bit_and x 0x08 == 0) ≡ false → x ≢ 0
starts-ne x h z = ground (arith, none-bit_and 8, ap (λ t. bit_and t 8) z)

-- In a valid state between two packets with an empty ring, the bytes of a packet of the negotiated
-- length, at least three, whose first can start a packet and among which there is no announcement
-- of a reset, have after the work loop exactly the effect of dispatching that packet.
pub deliver :
    (k : Kernel) (x y : ℕ) (ys : List ℕ) (d : Mouse)
    → IsValid d
    → count ring_size d.ring ≡ 0
    → d.packet_byte_count ≡ 0
    → suc (suc (length ys)) ≡ d.packet_length
    → 3 ≤ d.packet_length
    → (x == sc_acknowledge || bit_and x 0x08 == 0) ≡ false
    → NoReset d.last_data (x ∷ y ∷ ys)
    → (packet_ready_loop k (feed (x ∷ y ∷ ys) d)).state
      ≡ dispatch_relative k d.packet_length (x ∷ y ∷ ys) d.state
deliver k x y ys d v empty h e size starts quiet =
    let a = assemble x y ys d v h e starts quiet in
    let d' = feed (x ∷ y ∷ ys) d in
    let r = packet_ready_loop-Drained k d' a.valid in
    let none_before =
      nil_of_length (contents d.ring)
        (omega (arith, count-eq-length ring_size d.ring v.aligned.valid)) in
    let stored : contents d'.ring ≡ a.packet = ground (arith, a.published, none_before) in
    let one =
      single_packet packet_length_max r.packets a.packet (omega arith) a.padded r.sizes
        (sym stored ∙ r.stored) in
    r.handled
    ∙ ap (foldl (λ s p. handle_packet k d'.packet_length p s) d'.state) one
    ∙ ap (λ n. handle_packet k n a.packet d'.state) a.same_length
    ∙ ap (handle_packet k d.packet_length a.packet) a.untouched
    ∙ handle_packet-take k d.packet_length a.packet (x ∷ y ∷ ys) d.state size a.holds
        (starts-ne x starts)
