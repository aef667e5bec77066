-- ===== src/RingBuffer/Dequeue.antt =====
-- Elements leave a ring from the front.
use lori_os.Prelude.{
  subst, ℕ, ◌+◌, ◌-◌, ◌≤◌, ◌<◌, ◌≡◌, ◌⊎◌, refl, sym, ap, ◌∙◌, List, [], ◌++◌, true, false, Option,
  none, some, leb, ltb, ◌&&◌, ◌==◌, if◌then◌else◌, length, take, drop, slice, get_elem?,
  get_elem?-take, get_elem?-drop, get_elem?-append, length-take, length-drop, list_ext, arith,
  Bool-cases, inl, inr, min, sub32, word32,
}
use lori_os.RingBuffer.{Ring, dequeue, dequeue_one, drain_count}
use lori_os.RingBuffer.Pointers.{
  Fits, plain_amounts, plain_dequeue, plain_drain_count, dequeue-plain_dequeue,
  drain_count-plain_drain_count,
}
use lori_os.RingBuffer.Contents.{
  contents, IsValid, held, place, get_elem?-contents, length-contents,
}

-- A ring whose front moved past `n` of its elements.
moved_front :
    (n d c : ℕ) (r : Ring)
    → IsValid r
    → d < r.room
    → let s : Ring = record r { deq = d; count = c } in
      (held s ≡ held r - n)
      → ((i : ℕ) → i < held s → place s i ≡ place r (n + i))
      → (contents s ≡ drop n (contents r)) × IsValid s
moved_front n d c r v inside fewer same =
    let s : Ring = record r { deq = d; count = c } in
    let w : IsValid s = record {
      sized = v.sized;
      enq_inside = v.enq_inside;
      deq_inside = inside;
      small = v.small;
    } in
    (
      list_ext (contents s) (drop n (contents r)) (λ i.
          get_elem?-contents s i w
          ∙ ground (
            arith,
            get_elem?-drop n (contents r) i,
            get_elem?-contents r (n + i) v,
            fewer,
            same i,
            ap (get_elem? r.cells) {x = place s i} {y = place r (n + i)},
          )),
      w,
    )

-- `Dequeue(T&)`: nothing where the ring is empty, and else its first element, which is gone after.
pub dequeue_one-front :
    (r : Ring)
    → IsValid r
    → ((contents r ≡ []) × (dequeue_one r ≡ none))
      ⊎ ((x : Option ℕ) × (s : Ring) × (dequeue_one r ≡ some (x, s))
          × (x ≡ get_elem? (contents r) 0)
          × (contents s ≡ drop 1 (contents r))
          × IsValid s)
unfolding dequeue_one
dequeue_one-front r v = elim (Bool-cases (r.deq == r.enq)) [
  | inl empty ↦
      inl (list_ext (contents r) [] (λ i. get_elem?-contents r i v ∙ ground arith), rw empty refl)
  | inr some_elements ↦
      let d : ℕ = if leb r.room (r.deq + 1) then 0 else r.deq + 1 in
      let moved =
        moved_front 1 d r.count r v (ground (arith, v.deq_inside))
          (ground (arith, v.deq_inside, v.enq_inside))
          (λ i h. ground (arith, v.deq_inside, v.enq_inside)) in
      inr (
        get_elem? r.cells r.deq,
        record r { deq = d },
        rw some_elements refl,
        sym (
            get_elem?-contents r 0 v
            ∙ ground (arith, v.deq_inside, ap (get_elem? r.cells) {x = place r 0} {y = r.deq})),
        moved.0,
        moved.1,
      )
]

-- What is taken: as much as is asked for and held, and nothing from the start of the block before
-- its end is reached.
amounts_lem :
    (n : ℕ) (r : Ring)
    → IsValid r
    → (r.deq == r.enq) ≡ false
    → let (c, w) = plain_amounts n r in
      (c + w ≡ min n (held r))
      × (r.deq + c ≤ r.room)
      × ((r.deq + c ≡ r.room) ⊎ (w ≡ 0))
      × (w ≤ r.enq)
unfolding plain_amounts
amounts_lem n r v some_elements = elim (Bool-cases (ltb r.deq r.enq && ltb r.enq (r.deq + n))) [
  | inl all ↦ (
    ground (arith, v.enq_inside, v.deq_inside, all),
    ground (arith, v.enq_inside, v.deq_inside, all),
    inr (rw all refl),
    ground (arith, all),
  )
  | inr not_all ↦ elim (Bool-cases (ltb r.room (r.deq + n))) [
    | inl over ↦ (
      ground (arith, v.enq_inside, v.deq_inside, not_all, over),
      ground (arith, v.enq_inside, v.deq_inside, not_all, over),
      inl (ground (arith, v.deq_inside, not_all, over)),
      ground (arith, not_all, over),
    )
    | inr inside ↦ (
      ground (arith, v.enq_inside, v.deq_inside, not_all, inside),
      ground (arith, v.enq_inside, v.deq_inside, not_all, inside),
      inr (rw (not_all, inside) refl),
      ground (arith, not_all, inside),
    )
  ]
]

-- The elements that are copied out.
copied_out :
    (n c w : ℕ) (r : Ring)
    → IsValid r
    → c + w ≡ min n (held r)
    → r.deq + c ≤ r.room
    → (r.deq + c ≡ r.room) ⊎ (w ≡ 0)
    → slice r.deq c r.cells ++ (if leb r.room (r.deq + c) then take w r.cells else [])
      ≡ take n (contents r)
copied_out n c w r v amount inside last =
    let front : List ℕ = slice r.deq c r.cells in
    let back : List ℕ = if leb r.room (r.deq + c) then take w r.cells else [] in
    let len : length front ≡ c =
      omega (arith, length-take c (drop r.deq r.cells), length-drop r.deq r.cells, v.sized) in
    let second = λ (j : ℕ).
      elim (Bool-cases (leb r.room (r.deq + c)))
        as (λ b.
          get_elem? back j
          ≡ (if leb r.room (r.deq + c) && ltb j w then get_elem? r.cells j else none)) [
            | inl e ↦ rw e (get_elem?-take w r.cells j)
            | inr e ↦ rw e refl
          ] in
    list_ext (front ++ back) (take n (contents r)) (λ i.
      get_elem?-append front back i
      ∙ ground (
        arith,
        len,
        get_elem?-take c (drop r.deq r.cells) i,
        get_elem?-drop r.deq r.cells i,
        second (i - length front),
        get_elem?-take n (contents r) i,
        get_elem?-contents r i v,
        v.enq_inside,
        v.deq_inside,
        ap (get_elem? r.cells) {x = i - length front} {y = place r i},
        ap (get_elem? r.cells) {x = r.deq + i} {y = place r i},
      ))

dequeue_empty :
    (width n : ℕ) (r : Ring) → (r.deq == r.enq) ≡ true → dequeue width n r ≡ plain_dequeue n r
unfolding dequeue
dequeue_empty width n r empty = rw empty refl

-- What is copied out of a ring, and what stays.
abbrev pub Front : ℕ → Ring → List ℕ × Ring → Type 0
Front n r (out, s) = (out ≡ take n (contents r)) × (contents s ≡ drop n (contents r)) × IsValid s

plain_dequeue-Front : (n : ℕ) (r : Ring) → IsValid r → Front n r (plain_dequeue n r)
plain_dequeue-Front n r v = elim (Bool-cases (r.deq == r.enq)) [
  | inl empty ↦
      let nothing : contents r ≡ [] =
        list_ext (contents r) [] (λ i. get_elem?-contents r i v ∙ ground arith) in
      rw empty (
        list_ext [] (take n (contents r))
            (λ i. ground (arith, get_elem?-take n (contents r) i, ap (λ l. get_elem? l i) nothing)),
        list_ext (contents r) (drop n (contents r)) (λ i. ground (
          arith,
          get_elem?-drop n (contents r) i,
          ap (λ l. get_elem? l i) nothing,
          ap (λ l. get_elem? l (n + i)) nothing,
        )),
        v,
      )
  | inr some_elements ↦
      let c : ℕ = (plain_amounts n r).0 in
      let w : ℕ = (plain_amounts n r).1 in
      let (amount, inside, last, low) = amounts_lem n r v some_elements in
      let d : ℕ = if leb r.room (r.deq + c) then w else r.deq + c in
      let moved =
        moved_front n d (sub32 r.count (word32 (c + w))) r v (ground (arith, v.enq_inside))
          (ground (arith, v.deq_inside, v.enq_inside))
          (λ i h. ground (arith, v.deq_inside, v.enq_inside)) in
      rw some_elements (copied_out n c w r v amount inside last, moved.0, moved.1)
]

-- `Dequeue` of `n` elements of `width` bytes, at least one, on a valid ring: it returns the first `n`, or all
-- where there are fewer, and the others stay, in their order. It holds where neither the end of the block nor
-- the pointer `n` elements past the front wraps around at 2 ^ 64.
pub dequeue-front :
    (width n : ℕ) (r : Ring)
    → IsValid r
    → Fits width n r
    → let (out, s) = dequeue width n r in
      (out ≡ take n (contents r)) × (contents s ≡ drop n (contents r)) × IsValid s
dequeue-front width n r v f = elim (Bool-cases (r.deq == r.enq)) [
  | inl empty ↦
      let same : dequeue width n r ≡ plain_dequeue n r = dequeue_empty width n r empty in
      subst (Front n r) (sym same) (plain_dequeue-Front n r v)
  | inr some_elements ↦
      let (amount, inside, last, low) = amounts_lem n r v some_elements in
      subst (Front n r) (sym (dequeue-plain_dequeue width n r v f inside))
        (plain_dequeue-Front n r v)
]

plain_drain_count-front :
    (n : ℕ) (r : Ring)
    → IsValid r
    → r.deq ≤ r.enq
    → (contents (plain_drain_count n r) ≡ drop n (contents r)) × IsValid (plain_drain_count n r)
unfolding plain_drain_count
plain_drain_count-front n r v linear = elim (Bool-cases (ltb r.enq (r.deq + n))) [
  | inl all ↦
      let straight : leb r.deq r.enq ≡ true = ground arith in
      rw (straight, all)
        (moved_front n r.enq 0 r v v.enq_inside (ground (arith, all))
          (λ i h. absurd (ground arith)))
  | inr some_stay ↦
      let straight : leb r.deq r.enq ≡ true = ground arith in
      let inside : ltb r.room (r.deq + n) ≡ false = ground (arith, v.enq_inside) in
      rw (straight, some_stay, inside)
        (moved_front n (r.deq + n) (sub32 r.count (word32 n)) r v (ground (arith, v.enq_inside))
          (ground (arith, v.enq_inside)) (λ i h. ground (arith, v.enq_inside)))
]

-- `Drain` of `n` elements of a ring that does not wrap around, where its pointers do not wrap around at
-- 2 ^ 64: the first `n` go, and no other.
pub drain_count-front :
    (width n : ℕ) (r : Ring)
    → IsValid r
    → Fits width n r
    → r.deq ≤ r.enq
    → (contents (drain_count width n r) ≡ drop n (contents r)) × IsValid (drain_count width n r)
drain_count-front width n r v f linear =
    subst (λ s. (contents s ≡ drop n (contents r)) × IsValid s)
      (sym (drain_count-plain_drain_count width n r v f)) (plain_drain_count-front n r v linear)

-- In a ring that does wrap around, its pointers below 2 ^ 64, a `Drain` of `n` elements past the end of the block, with at least
-- `n` before the end of the queue, drops more: also as many as lie before the end of the block.
pub drain_count_skips :
    (width n : ℕ) (r : Ring)
    → IsValid r
    → Fits width n r
    → r.enq < r.deq
    → r.room < r.deq + n
    → n ≤ r.enq
    → length (contents (drain_count width n r)) + n + (r.room - r.deq) ≡ length (contents r)
unfolding plain_drain_count
drain_count_skips width n r v f wraps past enough =
    let s : Ring = record r { deq = n; count = sub32 r.count (word32 n) } in
    let plain : plain_drain_count n r ≡ s = ground arith in
    let e : drain_count width n r ≡ s = drain_count-plain_drain_count width n r v f ∙ plain in
    let w : IsValid s = record {
      sized = v.sized;
      enq_inside = v.enq_inside;
      deq_inside = omega (arith, v.enq_inside);
      small = v.small;
    } in
    ground (
      arith,
      ap (λ x. length (contents x)) e,
      length-contents s w,
      length-contents r v,
      v.deq_inside,
    )
