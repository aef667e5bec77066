-- ===== src/RingBuffer/Resize.antt =====
-- Where the queue is lost: a full block that moves to lower addresses, and a block that is filled to
-- its last element by an `Enqueue` of several.
use lori_os.Prelude.{
  ℕ, ◌+◌, ◌-◌, ◌*◌, ◌%◌, ◌^◌, ◌≤◌, ◌<◌, ◌≡◌, sym, ap, ◌∙◌, List, [], true, false, ltb, ◌==◌, length,
  take, drop, length-set, length-copy_to, list_ext, arith, add64, mul64, copy_to, ==_iff,
}
use native.Mathlib.Nat.{mul-le-mul_right}
use lori_os.Kmalloc.{Kmalloc}
use lori_os.RingBuffer.{Ring, resize, stored, enqueue_one, enqueue}
use lori_os.RingBuffer.Plans.{filled, wrap_lem, enqueue_straight}
use lori_os.RingBuffer.Contents.{contents, IsValid, held, get_elem?-contents}

-- Nothing is held between pointers that have met.
met_empty : (r : Ring) → IsValid r → r.deq ≡ r.enq → contents r ≡ []
met_empty r v met = list_ext (contents r) [] (λ i. get_elem?-contents r i v ∙ ground arith)

module _ (k : Kmalloc) (width : ℕ) where
  -- A full block that moves to a block before it comes out empty.
  resize_empties :
      (addr n : ℕ) (s : Ring)
      → IsValid s
      → s.deq ≡ s.enq
      → s.room < n
      → n < 2 ^ 62
      → addr + n * width ≤ s.base
      → contents (resize k width addr n s) ≡ []
  unfolding resize
  resize_empties addr n s v met larger small before =
      let d : ℕ = n - (s.room - s.deq) in
      let moved : List ℕ = copy_to d (drop s.deq s.cells) (k.block n) in
      let below : ltb (s.base + s.enq * width) (addr + d * width) ≡ false =
        ground (arith, mul-le-mul_right {m = d} {n = n} width (omega arith)) in
      rw below (
        met_empty
          (record s { base = addr; cells = moved; room = n; enq = n - (s.room - s.enq); deq = d })
          (record {
            sized = length-copy_to d (drop s.deq s.cells) (k.block n) ∙ k.length-block n;
            enq_inside = omega (arith, v.enq_inside);
            deq_inside = omega (arith, v.deq_inside);
            small = small;
          })
          (omega arith))

  -- `Enqueue` of the element that fills a valid ring, where the new block that it takes lies before
  -- the old one in memory: the ring is empty, and every element is lost.
  pub enqueue_one_lost :
      (addr x : ℕ) (r : Ring)
      → IsValid r
      → (r.room + 2) * 2 < 2 ^ 62
      → held r + 1 ≡ r.room
      → addr + (r.room + 2) * 2 * width ≤ r.base
      → contents (enqueue_one k width addr x r) ≡ []
  unfolding enqueue_one
  enqueue_one_lost addr x r v small full before =
      let s : Ring = stored k width x r in
      let sv : IsValid s = record {
        sized = length-set r.cells r.enq x ∙ v.sized;
        enq_inside = ground (arith, v.enq_inside);
        deq_inside = v.deq_inside;
        small = v.small;
      } in
      let met : (s.enq == s.deq) ≡ true = ground (arith, v.enq_inside, v.deq_inside) in
      let n : mul64 (add64 r.room 2) 2 ≡ (r.room + 2) * 2 = omega arith in
      rw (met, n)
        (resize_empties addr ((r.room + 2) * 2) s sv (sym ((==_iff s.enq s.deq).0 met))
          (omega arith) small before)

  -- `Enqueue` of several elements that fill a ring whose queue wraps around: the ring is empty, and
  -- every element is lost.
  pub enqueue_lost :
      (addr : ℕ) (xs : List ℕ) (r : Ring)
      → IsValid r
      → r.enq < r.deq
      → r.enq + length xs ≡ r.deq
      → contents (enqueue k width addr xs r) ≡ []
  enqueue_lost addr xs r v wraps full =
      let t : Ring = filled xs (record { ring = r; contiguous = length xs }) in
      let e : enqueue k width addr xs r ≡ t =
        enqueue_straight k width addr xs r (ground arith) (ground (arith, v.deq_inside)) in
      let at : (r.enq + length xs) % r.room ≡ r.deq = ground (
        arith,
        wrap_lem (r.enq + length xs) r.room (omega (arith, v.deq_inside, full)),
        v.deq_inside,
      ) in
      ap contents e
      ∙ met_empty t
          (record {
            sized = length-copy_to r.enq (take (length xs) xs) r.cells ∙ v.sized;
            enq_inside = omega (arith, at, v.deq_inside);
            deq_inside = v.deq_inside;
            small = v.small;
          })
          (sym at)
