-- ===== src/RingBuffer/Pointers.antt =====
-- `Dequeue` and `Drain` of Kernel/include/RingBuffer.h with indices in place of pointers, where no pointer
-- wraps around.
use lori_os.Prelude.{
  ℕ, suc, ◌+◌, ◌-◌, ◌*◌, ◌/◌, ◌^◌, ◌≤◌, ◌<◌, ◌≡◌, refl, ap, ◌∙◌, List, [], ◌++◌, leb, ltb, ◌&&◌,
  ◌==◌, if◌then◌else◌, take, slice, arith, dec_lt, sub32, word32,
}
use native.Mathlib.Nat.{mul-le-mul_right, mul-div_cancel, mod-eq_of_lt}
use lori_os.RingBuffer.{Ring, pointer, wrapping, amounts, dequeue, drain_count}
use lori_os.RingBuffer.Contents.{IsValid}

-- The end of the block, and the pointer that is `n` elements past the front, are addresses.
pub record Fits (width n : ℕ) (r : Ring) : Type 0 where
  pub element : 0 < width
  pub block : r.base + r.room * width < 2 ^ 64
  pub reach : r.base + (r.deq + n) * width < 2 ^ 64

module _ (width : ℕ) (r : Ring) where
  Address : ℕ → Type 0
  Address i = r.base + i * width < 2 ^ 64

  below : (i j : ℕ) → i ≤ j → Address j → Address i
  unfolding Address
  below i j h a = omega (arith, mul-le-mul_right {m = i} {n = j} width h)

  strictly : (i j : ℕ) → 0 < width → i < j → i * width < j * width
  strictly i j w h = omega (arith, mul-le-mul_right {m = suc i} {n = j} width h)

  ltb-pointer :
      (i j : ℕ)
      → 0 < width
      → Address i
      → Address j
      → ltb (pointer width i r) (pointer width j r) ≡ ltb i j
  unfolding Address
  ltb-pointer i j w a b = elim (dec_lt i j) [
    | yes l ↦ ground (arith, strictly i j w l)
    | no nl ↦ ground (arith, mul-le-mul_right {m = j} {n = i} width (omega arith))
  ]

  leb-pointer :
      (i j : ℕ)
      → 0 < width
      → Address i
      → Address j
      → leb (pointer width i r) (pointer width j r) ≡ leb i j
  leb-pointer i j w a b = ground (arith, ltb-pointer j i w b a)

  wrapping_lem : (i : ℕ) → 0 < width → Address i → wrapping width i ≡ i
  unfolding Address
  wrapping_lem i w a =
      ap (λ m. m / width) (mod-eq_of_lt {n = i * width} {m = 2 ^ 64} (omega arith))
      ∙ mul-div_cancel i w

-- The same functions on indices.
unfoldable pub plain_amounts : ℕ → Ring → ℕ × ℕ
plain_amounts n r =
    let straight = r.room - r.deq in
    let over = n - straight in
    if ltb r.deq r.enq && ltb r.enq (r.deq + n)
    then (r.enq - r.deq, 0)
    else if ltb r.room (r.deq + n)
    then (straight, if ltb r.enq over then r.enq else over)
    else (n, 0)

abbrev pub plain_dequeue : ℕ → Ring → List ℕ × Ring
plain_dequeue n r =
    if r.deq == r.enq
    then ([], r)
    else (let (contiguous, wrapped) = plain_amounts n r in
        let next = r.deq + contiguous in
        let rest = record r {
          deq = if leb r.room next then wrapped else next;
          count = sub32 r.count (word32 (contiguous + wrapped));
        } in
        (
          slice r.deq contiguous r.cells ++ (if leb r.room next then take wrapped r.cells else []),
          rest,
        ))

unfoldable pub plain_drain_count : ℕ → Ring → Ring
plain_drain_count n r =
    let all = record r { deq = r.enq; count = 0 } in
    if leb r.deq r.enq && ltb r.enq (r.deq + n)
    then all
    else if ltb r.room (r.deq + n)
    then (if ltb r.enq n then all else record r { deq = n; count = sub32 r.count (word32 n) })
    else record r { deq = r.deq + n; count = sub32 r.count (word32 n) }

module _ (width n : ℕ) (r : Ring) (v : IsValid r) (f : Fits width n r) where
  at_room : Address width r r.room
  unfolding Address
  at_room = f.block

  at_past : Address width r (r.deq + n)
  unfolding Address
  at_past = f.reach

  at_deq : Address width r r.deq
  at_deq = below width r r.deq r.room (omega (arith, v.deq_inside)) at_room

  at_enq : Address width r r.enq
  at_enq = below width r r.enq r.room (omega (arith, v.enq_inside)) at_room

  pub amounts-plain_amounts : amounts width n r ≡ plain_amounts n r
  unfolding amounts plain_amounts
  amounts-plain_amounts =
      let over = n - (r.room - r.deq) in
      let at_over : Address width r over = below width r over (r.deq + n) (omega arith) at_past in
      rw
        (
          ltb-pointer width r r.deq r.enq f.element at_deq at_enq,
          ltb-pointer width r r.enq (r.deq + n) f.element at_enq at_past,
          ltb-pointer width r r.room (r.deq + n) f.element at_room at_past,
          ltb-pointer width r r.enq over f.element at_enq at_over,
        )
        refl

  pub drain_count-plain_drain_count : drain_count width n r ≡ plain_drain_count n r
  unfolding drain_count plain_drain_count
  drain_count-plain_drain_count =
      let at_n : Address width r n = below width r n (r.deq + n) (omega arith) at_past in
      rw
        (
          leb-pointer width r r.deq r.enq f.element at_deq at_enq,
          ltb-pointer width r r.enq (r.deq + n) f.element at_enq at_past,
          ltb-pointer width r r.room (r.deq + n) f.element at_room at_past,
          ltb-pointer width r r.enq n f.element at_enq at_n,
          wrapping_lem width r (r.deq + n) f.element at_past,
        )
        refl

  -- `dequeue` from the amounts, whose elements all lie in the block.
  pub dequeue-plain_dequeue :
      r.deq + (plain_amounts n r).0 ≤ r.room → dequeue width n r ≡ plain_dequeue n r
  unfolding dequeue
  dequeue-plain_dequeue inside =
      let c = (plain_amounts n r).0 in
      let at_next : Address width r (r.deq + c) = below width r (r.deq + c) r.room inside at_room in
      let at_c : Address width r c = below width r c r.room (omega (arith, inside)) at_room in
      rw
        (
          amounts-plain_amounts,
          leb-pointer width r r.room (r.deq + c) f.element at_room at_next,
          wrapping_lem width r c f.element at_c,
          wrapping_lem width r (r.deq + c) f.element at_next,
        )
        refl
