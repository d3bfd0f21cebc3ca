-- ===== src/Trackpad/Gestures/Delivery.antt =====
-- From the bytes of an interrupt to the gestures: packetReady with dispatchEventsWithPacket.
use mathlib.Core.List.{foldl}
use os_x_voodoo_ps2_controll.Base.{
  ℕ, ◌≡◌, ◌≢◌, ◌∙◌, ap, sym, refl, arith, List, [], ◌∷◌, ◌!=◌, if◌then◌else◌, bit_and, get_or,
  nil_of_length,
}
use os_x_voodoo_ps2_controll.Base.Bytes.{none-bit_and}
use os_x_voodoo_ps2_controll.Ring.{count}
use os_x_voodoo_ps2_controll.Ring.Valid.{contents, count-eq-length}
use os_x_voodoo_ps2_controll.Ring.Drain.{single_packet}
use os_x_voodoo_ps2_controll.Trackpad.Synaptics.{
  TouchPad, ring_size, packet_length, packet_ready_loop,
}
use os_x_voodoo_ps2_controll.Trackpad.Synaptics.Assembly.{
  IsValid, Quiet, next, synaptics_interrupt-IsValid, synaptics_loop-Drained, synaptics_assemble,
}
use os_x_voodoo_ps2_controll.Trackpad.Gestures.{Options, Pad}
use os_x_voodoo_ps2_controll.Trackpad.Gestures.Second.{Second, dispatch_wmode}

-- The driver's own dispatch, at a time.
abbrev pub dispatch_at : (ℕ → ℕ) → Options → ℕ → List ℕ → Pad × Second → Pad × Second
dispatch_at to_ns o now packet (p, s) = dispatch_wmode to_ns o now packet p s

six_next-IsValid :
    (a b c x y z : ℕ) (d : TouchPad)
    → IsValid d
    → IsValid (next z (next y (next x (next c (next b (next a d))))))
six_next-IsValid a b c x y z d v = synaptics_interrupt-IsValid z _ (
    synaptics_interrupt-IsValid y _ (
      synaptics_interrupt-IsValid x _ (
        synaptics_interrupt-IsValid c _
          (synaptics_interrupt-IsValid b _ (synaptics_interrupt-IsValid a d v)))))

marked-ne : (a : ℕ) → bit_and a 0xc8 ≡ 0x80 → a ≢ 0
marked-ne a h z = ground (arith, none-bit_and 0xc8, ap (λ t. bit_and t 0xc8) z)

dispatch_marked :
    (to_ns : ℕ → ℕ) (o : Options) (now : ℕ) (packet : List ℕ) (r : Pad × Second)
    → get_or packet 0 0 ≢ 0
    → (if get_or packet 0 0 != 0 then dispatch_at to_ns o now packet r else r)
      ≡ dispatch_at to_ns o now packet r
dispatch_marked to_ns o now packet r ne = ground (arith, ne)

-- In a valid state between two packets with an empty ring, six bytes, of which the first and the fourth
-- carry the marks of a packet, and none announces a reset, have after the work loop exactly the effect
-- of dispatching that packet.
pub synaptics_deliver :
    (to_ns : ℕ → ℕ) (o : Options) (now : ℕ)
    → (a b c x y z : ℕ) (d : TouchPad) (r : Pad × Second) → IsValid d
    → count ring_size d.ring ≡ 0
    → d.packet_byte_count ≡ 0
    → bit_and a 0xc8 ≡ 0x80
    → bit_and x 0xc8 ≡ 0xc0
    → Quiet d.last_data a
    → Quiet a b
    → Quiet b c
    → Quiet c x
    → Quiet x y
    → Quiet y z
    → (packet_ready_loop
        (dispatch_at to_ns o now)
        (next z (next y (next x (next c (next b (next a d))))))
        r).1
      ≡ dispatch_wmode to_ns o now (a ∷ b ∷ c ∷ x ∷ y ∷ z ∷ []) r.0 r.1
synaptics_deliver to_ns o now a b c x y z d r v empty start first fourth qa qb qc qx qy qz =
    let packet = a ∷ b ∷ c ∷ x ∷ y ∷ z ∷ [] in
    let d' = next z (next y (next x (next c (next b (next a d))))) in
    let published = (synaptics_assemble a b c x y z d v start first fourth qa qb qc qx qy qz).0 in
    let h =
      synaptics_loop-Drained (dispatch_at to_ns o now) d' r (six_next-IsValid a b c x y z d v) in
    let none_before =
      nil_of_length (contents d.ring)
        (omega (arith, count-eq-length ring_size d.ring v.aligned.valid)) in
    let stored : contents d'.ring ≡ packet = ground (arith, published, none_before, empty) in
    let one =
      single_packet packet_length h.packets packet (omega arith) refl h.sizes
        (sym stored ∙ h.stored) in
    h.handled
    ∙ ap (foldl (λ s p. if get_or p 0 0 != 0 then dispatch_at to_ns o now p s else s) r) one
    ∙ dispatch_marked to_ns o now packet r (marked-ne a first)
