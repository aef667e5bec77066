-- ===== src/RingBuffer/Enqueue.antt =====
-- Elements enter a ring at the back.
use lori_os.Prelude.{
  ℕ, ◌+◌, ◌-◌, ◌*◌, ◌%◌, ◌^◌, ◌≤◌, ◌<◌, ◌≡◌, refl, subst, sym, ap, ◌∙◌, List, [], ◌∷◌, ◌++◌, true,
  false, ltb, ◌&&◌, ◌==◌, if◌then◌else◌, length, take, drop, get_elem?, get_elem?_one,
  get_elem?-set, get_elem?-take, get_elem?-drop, get_elem?-append, get_elem?-copy_to,
  get_elem?_past, length-take, length-drop, length-set, length-copy_to, list_ext, arith, Bool-cases,
  inl, inr, add64, mul64, copy_to, ==_iff,
}
use native.Mathlib.Nat.{mul-lt-mul_of_pos_right}
use lori_os.Kmalloc.{Kmalloc}
use lori_os.RingBuffer.{Ring, resize, stored, enqueue_one, enqueue}
use lori_os.RingBuffer.Plans.{filled, wrap_lem, enqueue_straight, enqueue_around}
use lori_os.RingBuffer.Contents.{
  contents, IsValid, held, place, get_elem?-contents, length-contents,
}

module _ (k : Kmalloc) (width : ℕ) where
  -- A block whose pointers have met, since it is full, moves to a block behind it with all that it
  -- holds.
  resize_full :
      (addr n : ℕ) (s : Ring)
      → 0 < width
      → IsValid s
      → s.deq ≡ s.enq
      → s.room < n
      → n < 2 ^ 62
      → s.base + s.room * width ≤ addr
      → let t = resize k width addr n s in
        IsValid t
        × (held t ≡ s.room)
        × ((i : ℕ) → i < s.room → get_elem? t.cells (place t i) ≡ get_elem? s.cells (place s i))
  unfolding resize
  resize_full addr n s wide v met larger small behind =
      let d : ℕ = n - (s.room - s.deq) in
      let moved : List ℕ = copy_to d (drop s.deq s.cells) (k.block n) in
      let cells : List ℕ = copy_to 0 (take s.enq s.cells) moved in
      let above : ltb (s.base + s.enq * width) (addr + d * width) ≡ true =
        ground
          (arith, mul-lt-mul_of_pos_right {m = s.enq} {n = s.room} {k = width} v.enq_inside wide) in
      rw above (
        record {
          sized =
              length-copy_to 0 (take s.enq s.cells) moved
              ∙ length-copy_to d (drop s.deq s.cells) (k.block n)
              ∙ k.length-block n;
          enq_inside = omega (arith, v.enq_inside);
          deq_inside = omega (arith, v.deq_inside);
          small = small;
        },
        ground (arith, v.enq_inside),
        λ i h. ground (
          arith,
          v.enq_inside,
          v.sized,
          k.length-block n,
          get_elem?-copy_to 0 (take s.enq s.cells) moved
              (if ltb (d + i) n then d + i else d + i - n),
          get_elem?-copy_to d (drop s.deq s.cells) (k.block n)
              (if ltb (d + i) n then d + i else d + i - n),
          length-copy_to d (drop s.deq s.cells) (k.block n),
          length-take s.enq s.cells,
          length-drop s.deq s.cells,
          get_elem?-take s.enq s.cells (d + i - n),
          get_elem?-drop s.deq s.cells i,
          ap (get_elem? (take s.enq s.cells)) {x = (if ltb (d + i) n then d + i else d + i - n) - 0}
              {y = d + i - n},
          ap (get_elem? (drop s.deq s.cells)) {x = (if ltb (d + i) n then d + i else d + i - n) - d}
              {y = i},
          ap (get_elem? s.cells) {x = d + i - n} {y = place s i},
          ap (get_elem? s.cells) {x = s.deq + i} {y = place s i},
        ),
      )

  -- The new element comes after the others, while the pointers do not meet.
  stored_lem :
      (x : ℕ) (r : Ring)
      → IsValid r
      → IsValid (stored k width x r)
        × ((i : ℕ)
            → i ≤ held r
            → get_elem? (stored k width x r).cells (place r i)
              ≡ get_elem? (contents r ++ (x ∷ [])) i)
  stored_lem x r v = (
    record {
      sized = length-set r.cells r.enq x ∙ v.sized;
      enq_inside = ground (arith, v.enq_inside);
      deq_inside = v.deq_inside;
      small = v.small;
    },
    λ i h.
        get_elem?-set r.cells r.enq x (place r i)
        ∙ ground (
          arith,
          v.enq_inside,
          v.deq_inside,
          v.sized,
          get_elem?-append (contents r) (x ∷ []) i,
          length-contents r v,
          get_elem?-contents r i v,
          get_elem?_one x (i - length (contents r)),
        ),
  )

  -- `Enqueue` of an element in a valid ring. It comes last, behind all that were held; where the
  -- block is full by it, this takes a new block that lies behind the old one in memory.
  pub enqueue_one-append :
      (addr x : ℕ) (r : Ring)
      → 0 < width
      → IsValid r
      → (r.room + 2) * 2 < 2 ^ 62
      → r.base + r.room * width ≤ addr
      → (contents (enqueue_one k width addr x r) ≡ contents r ++ (x ∷ []))
        × IsValid (enqueue_one k width addr x r)
  unfolding enqueue_one
  enqueue_one-append addr x r wide v small behind =
      let s : Ring = stored k width x r in
      let (sv, items) = stored_lem x r v in
      let last = λ (i : ℕ). get_elem?-append (contents r) (x ∷ []) i in
      elim (Bool-cases (s.enq == s.deq)) [
        | inr apart ↦ rw apart (
          list_ext (contents s) (contents r ++ (x ∷ [])) (λ i.
              get_elem?-contents s i sv
              ∙ ground (
                arith,
                v.enq_inside,
                v.deq_inside,
                items i,
                last i,
                length-contents r v,
                get_elem?_one x (i - length (contents r)),
                get_elem?_past (x ∷ []) (i - length (contents r)),
              )),
          sv,
        )
        | inl met ↦
            let n : ℕ = mul64 (add64 s.room 2) 2 in
            let t : Ring = resize k width addr n s in
            let (tv, all, same) =
              resize_full addr n s wide sv (sym ((==_iff s.enq s.deq).0 met)) (omega arith)
                (omega arith) behind in
            rw met (
              list_ext (contents t) (contents r ++ (x ∷ [])) (λ i.
                  get_elem?-contents t i tv
                  ∙ ground (
                    arith,
                    v.enq_inside,
                    v.deq_inside,
                    all,
                    same i,
                    items i,
                    last i,
                    length-contents r v,
                    get_elem?_one x (i - length (contents r)),
                    get_elem?_past (x ∷ []) (i - length (contents r)),
                  )),
              tv,
            )
      ]

  -- The place behind those held, and what is written from there on.
  filled-append :
      (xs : List ℕ) (r t : Ring)
      → IsValid r
      → held r + length xs < r.room
      → t.room ≡ r.room
      → t.deq ≡ r.deq
      → t.enq ≡ (r.enq + length xs) % r.room
      → length t.cells ≡ r.room
      → ((i : ℕ)
          → i < held r + length xs
          → get_elem? t.cells (place r i) ≡ get_elem? (contents r ++ xs) i)
      → (contents t ≡ contents r ++ xs) × IsValid t
  filled-append xs r t v fits room deq enq size items =
      let at = wrap_lem (r.enq + length xs) r.room (omega (arith, v.enq_inside)) in
      let tv : IsValid t = record {
        sized = size ∙ sym room;
        enq_inside = ground (arith, v.enq_inside);
        deq_inside = omega (arith, v.deq_inside);
        small = omega (arith, v.small);
      } in
      (
        list_ext (contents t) (contents r ++ xs) (λ i.
            get_elem?-contents t i tv
            ∙ ground (
              arith,
              v.enq_inside,
              v.deq_inside,
              items i,
              length-contents r v,
              get_elem?-append (contents r) xs i,
              get_elem?_past xs (i - length (contents r)),
              ap (get_elem? t.cells) {x = place t i} {y = place r i},
            )),
        tv,
      )

  -- `Enqueue` of several elements, where at least one place stays free: they come last, in order, and
  -- nothing is moved.
  pub enqueue-append :
      (addr : ℕ) (xs : List ℕ) (r : Ring)
      → IsValid r
      → held r + length xs < r.room
      → (contents (enqueue k width addr xs r) ≡ contents r ++ xs)
        × IsValid (enqueue k width addr xs r)
  enqueue-append addr xs r v fits =
      let n : ℕ = length xs in
      let straight : ℕ = r.room - r.enq in
      let no_resize : (ltb r.enq r.deq && ltb r.deq (r.enq + n)) ≡ false =
        ground (arith, v.enq_inside) in
      elim (Bool-cases (ltb r.room (r.enq + n))) [
        | inr inside ↦
            let t : Ring = filled xs (record { ring = r; contiguous = n }) in
            let e : enqueue k width addr xs r ≡ t =
              enqueue_straight k width addr xs r no_resize inside in
            subst (λ q. (contents q ≡ contents r ++ xs) × IsValid q) (sym e)
              (filled-append xs r t v fits refl refl refl
                (length-copy_to r.enq (take n xs) r.cells ∙ v.sized)
                (λ i h.
                  get_elem?-copy_to r.enq (take n xs) r.cells (place r i)
                  ∙ ground (
                    arith,
                    v.enq_inside,
                    v.deq_inside,
                    v.sized,
                    length-take n xs,
                    get_elem?-take n xs (place r i - r.enq),
                    get_elem?-append (contents r) xs i,
                    length-contents r v,
                    get_elem?-contents r i v,
                    ap (get_elem? xs) {x = place r i - r.enq} {y = i - length (contents r)},
                  )))
        | inl past ↦
            let low : List ℕ = copy_to 0 (drop straight xs) r.cells in
            let t : Ring =
              filled xs (record { ring = record r { cells = low }; contiguous = straight }) in
            let e : enqueue k width addr xs r ≡ t =
              enqueue_around k width addr xs r no_resize past (ground (arith, v.enq_inside)) in
            subst (λ q. (contents q ≡ contents r ++ xs) × IsValid q) (sym e)
              (filled-append xs r t v fits refl refl refl
                (length-copy_to r.enq (take straight xs) low
                  ∙ length-copy_to 0 (drop straight xs) r.cells
                  ∙ v.sized)
                (λ i h.
                  get_elem?-copy_to r.enq (take straight xs) low (place r i)
                  ∙ ground (
                    arith,
                    v.enq_inside,
                    v.deq_inside,
                    v.sized,
                    length-take straight xs,
                    length-drop straight xs,
                    length-copy_to 0 (drop straight xs) r.cells,
                    get_elem?-copy_to 0 (drop straight xs) r.cells (place r i),
                    get_elem?-take straight xs (place r i - r.enq),
                    get_elem?-drop straight xs (place r i - 0),
                    get_elem?-append (contents r) xs i,
                    length-contents r v,
                    get_elem?-contents r i v,
                    ap (get_elem? xs) {x = place r i - r.enq} {y = i - length (contents r)},
                    ap (get_elem? xs) {x = straight + (place r i - 0)}
                        {y = i - length (contents r)},
                  )))
      ]
