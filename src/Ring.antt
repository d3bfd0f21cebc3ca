-- ===== src/Ring.antt =====
-- RingBuffer<T, N> of VoodooPS2Controller/ApplePS2Device.h: the packet buffer between a driver's
-- interrupt routine (head) and its work loop (tail). Each operation takes N, the template
-- parameter, as its first argument.
pub mod Valid
pub mod Queue
pub mod Packets
pub mod Aligned
pub mod Drain
pub mod History
mod Tests
use os_x_voodoo_ps2_controll.Base.{
  ℕ, ◌+◌, List, Option, leb, ◌==◌, if◌then◌else◌, get_elem?, set, add_u32, sub_u32,
}

pub record Ring {ℓ} (A : Type ℓ) : Type ℓ where
  pub buffer : List A
  pub head : ℕ
  pub tail : ℕ

-- `count(head, tail)`, the private overload.
unfoldable pub span : ℕ → ℕ → ℕ → ℕ
span n head tail = if leb tail head then sub_u32 head tail else add_u32 (sub_u32 n tail) head

module _ {ℓ} {A : Type ℓ} (n : ℕ) where
  unfoldable pub count : Ring A → ℕ
  count r = span n r.head r.tail

  pub push : A → Ring A → Ring A
  push x r =
      let next = add_u32 r.head 1 in
      let new_head : ℕ = if leb n next then 0 else next in
      if new_head == r.tail then r else record r { buffer = set r.buffer r.head x; head = new_head }

  -- The option is the element read, `none` for a read out of range.
  pub fetch : Ring A → Option A × Ring A
  fetch r =
      let next = add_u32 r.tail 1 in
      (get_elem? r.buffer r.tail, record r { tail = if leb n next then 0 else next })

  pub advance_head : ℕ → Ring A → Ring A
  advance_head move r =
      let sum = add_u32 r.head move in
      let new_head : ℕ = if leb n sum then sub_u32 sum n else sum in
      if leb (span n r.head r.tail) (span n new_head r.tail)
      then record r { head = new_head }
      else r

  pub advance_tail : ℕ → Ring A → Ring A
  advance_tail move r =
      let sum = add_u32 r.tail move in record r { tail = if leb n sum then sub_u32 sum n else sum }

module _ {ℓ} {A : Type ℓ} where
  unfoldable pub reset : Ring A → Ring A
  reset r = record r { head = 0; tail = 0 }

  -- `head()[i] = x` and `tail()[i]`: the caller's accesses through the two pointers.
  pub poke : Ring A → ℕ → A → Ring A
  poke r i x = record r { buffer = set r.buffer (r.head + i) x }

  pub peek : Ring A → ℕ → Option A
  peek r i = get_elem? r.buffer (r.tail + i)
