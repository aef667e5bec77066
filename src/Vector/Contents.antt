-- ===== src/Vector/Contents.antt =====
-- A vector is a list of its elements.
use lori_os.Prelude.{
  ℕ, zero, suc, ◌+◌, ◌-◌, ◌*◌, ◌^◌, ◌≤◌, ◌<◌, ◌≡◌, refl, ap, ◌∙◌, List, [], ◌∷◌, ◌++◌, true, false,
  Option, none, some, leb, ◌==◌, if◌then◌else◌, length, get_elem?, get_elem?_one, get_elem?-set,
  get_elem?-take, get_elem?-drop, get_elem?-append, get_elem?-copy_to, length-take, length-drop,
  length-copy_to, set, take, drop, slice, copy_to, replicate, word32, add64, arith, list_ext,
  Bool-cases, inl, inr, some_eq, none-ne-some,
}
use lori_os.Kmalloc.{Kmalloc}
use lori_os.Vector.{
  Vector, cells, moved, left_locked, ensure_capacity, add_back, erase_unlocked, erase, index_of,
  remove, resize, clear, guard,
}

abbrev pub contents : Vector → List ℕ
contents v = take v.count (cells v)

-- No call is under way, the block has the size of the vector, and the elements are in it.
pub record IsValid (v : Vector) : Type 0 where
  pub unlocked : v.locked ≡ false
  pub sized : length (cells v) ≡ v.capacity
  pub inside : v.count ≤ v.capacity
  pub small : v.capacity < 2 ^ 30

-- After `EnsureCapacity` there is room for more, and the elements are the same.
moved_lem :
    (k : Kmalloc) (larger size capacity : ℕ) (b : Option (List ℕ))
    → capacity < larger
    → length (elim b [ none ↦ [] | some c ↦ c ]) ≡ capacity
    → (length (moved k larger size capacity b) ≡ larger)
      × ((i : ℕ)
          → i < capacity
          → get_elem? (moved k larger size capacity b) i
            ≡ get_elem? (elim b [ none ↦ [] | some c ↦ c ]) i)
unfolding moved
moved_lem k larger size capacity none more e = (k.length-block larger, λ i h. absurd (omega arith))
moved_lem k larger size capacity (some b) more e =
    let zeros : List ℕ = replicate (size - capacity) 0 in
    let low : List ℕ = copy_to 0 (take capacity b) (k.block larger) in
    (
      length-copy_to capacity zeros low
          ∙ length-copy_to 0 (take capacity b) (k.block larger)
          ∙ k.length-block larger,
      λ i h.
          get_elem?-copy_to capacity zeros low i
          ∙ ground (
            arith,
            k.length-block larger,
            length-copy_to 0 (take capacity b) (k.block larger),
            get_elem?-copy_to 0 (take capacity b) (k.block larger) i,
            get_elem?-take capacity b (i - 0),
            length-take capacity b,
            ap (get_elem? b) {x = i - 0} {y = i},
          ),
    )

ensured :
    (k : Kmalloc) (v : Vector)
    → IsValid v
    → let w : Vector = ensure_capacity k (v.count + 1) v in
      (length (cells w) ≡ w.capacity)
      × (v.count < w.capacity)
      × (w.locked ≡ false)
      × ((i : ℕ) → i < v.count → get_elem? (cells w) i ≡ get_elem? (cells v) i)
unfolding ensure_capacity
ensured k v valid = elim (Bool-cases (leb v.capacity (word32 (v.count + 1)))) [
  | inr room ↦
      rw room
        (valid.sized, ground (arith, room, valid.inside, valid.small), valid.unlocked, λ i h. refl)
  | inl full ↦
      let size : ℕ = word32 (v.count + 1) in
      let larger : ℕ = add64 v.capacity (word32 (size * 2) + 1) in
      let (len, same) =
        moved_lem k larger size v.capacity v.data_block (omega (arith, valid.small, valid.inside))
          valid.sized in
      rw full (
        len,
        omega (arith, valid.small, valid.inside),
        valid.unlocked,
        λ i h. same i (omega (arith, valid.inside)),
      )
]

-- `add_back` on a valid vector of fewer than 2 ^ 30 - 1 elements: it returns, and the new element
-- comes last.
pub add_back-append :
    (k : Kmalloc) (x : ℕ) (v : Vector)
    → IsValid v
    → (w : Vector) × (add_back k x v ≡ some w)
      × (w.locked ≡ false)
      × (contents w ≡ contents v ++ (x ∷ []))
unfolding add_back
add_back-append k x v valid =
    let e : Vector = ensure_capacity k (v.count + 1) v in
    let (len, room, free, same) = ensured k v valid in
    let w : Vector = record e {
      data_block = some (set (cells e) v.count x);
      count = v.count + 1;
    } in
    (
      w,
      rw valid.unlocked refl,
      free,
      list_ext (contents w) (contents v ++ (x ∷ [])) (λ i.
          get_elem?-take (v.count + 1) (set (cells e) v.count x) i
          ∙ ground (
            arith,
            len,
            room,
            same i,
            valid.inside,
            valid.sized,
            get_elem?-set (cells e) v.count x i,
            get_elem?-append (contents v) (x ∷ []) i,
            length-take v.count (cells v),
            get_elem?-take v.count (cells v) i,
            get_elem?_one x (i - length (contents v)),
          )),
    )

-- What is left without the element at `pos`.
abbrev pub without : ℕ → List ℕ → List ℕ
without pos xs = take pos xs ++ drop (suc pos) xs

erased :
    (pos : ℕ) (v : Vector)
    → IsValid v
    → pos < v.count
    → (w : Vector) × (erase_unlocked pos v ≡ some w)
      × (contents w ≡ without pos (contents v))
      × (w.locked ≡ v.locked)
unfolding erase_unlocked
erased pos v valid h =
    let b : List ℕ = copy_to pos (slice (suc pos) (v.count - pos - 1) (cells v)) (cells v) in
    let w : Vector = record v { data_block = some b; count = v.count - 1 } in
    let n : ℕ = v.count - pos - 1 in
    (
      w,
      ground arith,
      list_ext (contents w) (without pos (contents v)) (λ i.
          get_elem?-take (v.count - 1) b i
          ∙ ground (
            arith,
            valid.inside,
            valid.sized,
            get_elem?-copy_to pos (slice (suc pos) n (cells v)) (cells v) i,
            length-take n (drop (suc pos) (cells v)),
            length-drop (suc pos) (cells v),
            get_elem?-take n (drop (suc pos) (cells v)) (i - pos),
            get_elem?-drop (suc pos) (cells v) (i - pos),
            get_elem?-append (take pos (contents v)) (drop (suc pos) (contents v)) i,
            length-take pos (contents v),
            length-take v.count (cells v),
            get_elem?-take pos (contents v) i,
            get_elem?-take v.count (cells v) i,
            get_elem?-drop (suc pos) (contents v) (i - length (take pos (contents v))),
            get_elem?-take v.count (cells v) (suc pos + (i - length (take pos (contents v)))),
            ap (get_elem? (cells v)) {x = suc pos + (i - pos)}
                {y = suc pos + (i - length (take pos (contents v)))},
          )),
      refl,
    )

guard_free : (v : Vector) (r : Option Vector) → v.locked ≡ false → guard v r ≡ r
guard_free v r free = ap (λ b. if b then none else r) free

-- `erase` of a place below the count of a valid vector: the element goes, and the others close up.
pub erase-without :
    (pos : ℕ) (v : Vector)
    → IsValid v
    → pos < v.count
    → (w : Vector) × (erase pos v ≡ some w)
      × (contents w ≡ without pos (contents v))
      × (w.locked ≡ false)
unfolding erase
erase-without pos v valid h =
    let (w, e, c, l) = erased pos v valid h in
    (w, guard_free v (erase_unlocked pos v) valid.unlocked ∙ e, c, l ∙ valid.unlocked)

-- An element that occurs is found.
index_of-some :
    (x i j : ℕ) (xs : List ℕ)
    → get_elem? xs j ≡ some x
    → (m : ℕ) × (index_of x i xs ≡ some (i + m)) × (m < length xs) × (get_elem? xs m ≡ some x)
unfolding index_of
index_of-some x i j [] e = none-ne-some e
index_of-some x i zero (y ∷ ys) e =
    let same : (y == x) ≡ true = ground (arith, some_eq e) in
    (0, rw same (ap some {x = i} {y = i + 0} (omega arith)), omega arith, e)
index_of-some x i (suc j) (y ∷ ys) e = elim (Bool-cases (y == x)) [
  | inl same ↦ (
    0,
    rw same (ap some {x = i} {y = i + 0} (omega arith)),
    omega arith,
    ap some {x = y} {y = x} (ground arith),
  )
  | inr other ↦
      let (m, found, inside, there) = index_of-some x (suc i) j ys e in
      (
        suc m,
        rw other (found ∙ ap some {x = suc i + m} {y = i + suc m} (omega arith)),
        omega arith,
        there,
      )
]

-- `remove` of an element that a valid vector holds: an occurrence of it goes, and the method returns
-- with the lock held, so that no later `add_back`, `resize`, `erase`, `remove` or `clear` returns.
pub remove_locks :
    (k : Kmalloc) (x y j : ℕ) (v : Vector)
    → IsValid v
    → get_elem? (contents v) j ≡ some x
    → (i : ℕ) × (w : Vector) × (get_elem? (contents v) i ≡ some x)
      × (remove x v ≡ some w)
      × (contents w ≡ without i (contents v))
      × (w.locked ≡ true)
      × (add_back k y w ≡ none)
      × (resize k y w ≡ none)
      × (erase y w ≡ none)
      × (remove y w ≡ none)
      × (clear w ≡ none)
unfolding remove add_back resize erase clear
remove_locks k x y j v valid e =
    let (i, found, inside, there) = index_of-some x 0 j (contents v) e in
    let at_i : index_of x 0 (contents v) ≡ some i =
      found ∙ ap some {x = 0 + i} {y = i} (omega arith) in
    let (w, gone, rest, l) = erased i v valid (omega (arith, length-take v.count (cells v))) in
    (
      i,
      left_locked w,
      there,
      rw (valid.unlocked, at_i, gone) refl,
      rest,
      refl,
      refl,
      refl,
      refl,
      refl,
      refl,
    )
