-- ===== src/AddressSpace/Space/Count.antt =====
-- Reference counts: an object counts the regions that hold it.
use lori_os.Prelude.{
  ℕ, ◌+◌, ◌≤◌, ◌<◌, ◌^◌, ◌≡◌, refl, List, [], ◌∷◌, ◌++◌, Option, none, some, Bool, true, false,
  arith, leb, ltb, ◌==◌, if◌then◌else◌, add64, Bool-cases, ◌&&◌, ◌≢◌, inl, inr, ◌⊎◌, ap, some_eq,
  map-eq-some, bind-eq-some, guarded, refused, none-ne-some, subst,
}
use lori_os.LinkedList.{Place, insert_before, add_back, to_list, behind}
use lori_os.AddressSpace.{
  Region, finish, fresh, page_size, find_from, find_available, allocate_from, allocate_at, skip,
}
use lori_os.AddressSpace.Space.{
  VmObject, Space, update, retain, choose_from, choose, attach, map_into, map_vmo, anonymous_object,
  allocate_into, allocate_anonymous, is_aligned,
}

-- Does the region hold object `o`?
abbrev pub holds : ℕ → Region → ℕ
holds o r = elim r.object [ none ↦ 0 | some p ↦ if p == o then 1 else 0 ]

abbrev pub refs : ℕ → List Region → ℕ
refs o [] = 0
refs o (r ∷ rs) = holds o r + refs o rs

pub refs-append : (o : ℕ) (xs ys : List Region) → refs o (xs ++ ys) ≡ refs o xs + refs o ys
refs-append o [] ys = omega arith
refs-append o (x ∷ xs) ys = omega (arith, refs-append o xs ys)

-- The counts move with the regions: what an operation adds to or takes from the count of an object
-- is what it adds to or takes from the regions that hold it.
abbrev pub Balance : Space → Space → Type 0
Balance s t =
    (o : ℕ)
    → (t.objects o).ref_count + refs o s.regions ≡ (s.objects o).ref_count + refs o t.regions

-- Each region has its reference counted, and no count is near the end of its range.
abbrev pub Counted : Space → Type 0
Counted s =
    (o : ℕ) → (refs o s.regions ≤ (s.objects o).ref_count) × ((s.objects o).ref_count < 2 ^ 63)

-- A place found for a new region is among the regions there were.
abbrev Fresh : List Region → Place Region → Type 0
Fresh rs p = (p.item.object ≡ none) × (p.before ++ p.after ≡ rs)

insert_before-Fresh :
    (base size : ℕ) (r : Region) (rs : List Region)
    → Fresh (r ∷ rs) (insert_before (fresh base size) r rs)
unfolding insert_before
insert_before-Fresh base size r [] = (refl, refl)
insert_before-Fresh base size r (s ∷ rs) = (refl, refl)

find_from-Fresh :
    (limit size : ℕ) (c : ℕ × ℕ) (rs : List Region) (p : Place Region)
    → find_from limit size c rs ≡ some p
    → Fresh rs p
unfolding find_from add_back
find_from-Fresh limit size c [] p h = elim (Bool-cases (ltb c.1 limit)) [
  | inl room ↦ subst (Fresh []) (some_eq (rw room at h)) (refl, refl)
  | inr full ↦ let h' : none ≡ some p = rw full at h in cc
]
find_from-Fresh limit size c (r ∷ rs) p h = elim (Bool-cases (leb c.1 r.base)) [
  | inl gap ↦ subst (Fresh (r ∷ rs)) (some_eq (rw gap at h)) (insert_before-Fresh c.0 size r rs)
  | inr taken ↦
      let (q, found, same) =
        map-eq-some (behind r) (find_from limit size (skip r size c) rs) (rw taken at h) in
      let (a, b) = find_from-Fresh limit size (skip r size c) rs q found in
      subst (Fresh (r ∷ rs)) same (a, ap (◌∷◌ r) b)
]

allocate_from-Fresh :
    (base size : ℕ) (last : Option Region) (rs : List Region) (p : Place Region)
    → allocate_from base size last rs ≡ some p
    → Fresh rs p
unfolding allocate_from add_back
allocate_from-Fresh base size none [] p h = subst (Fresh []) (some_eq h) (refl, refl)
allocate_from-Fresh base size (some l) [] p h = elim (Bool-cases (leb (finish l) base)) [
  | inl room ↦ subst (Fresh []) (some_eq (rw room at h)) (refl, refl)
  | inr full ↦ let h' : none ≡ some p = rw full at h in cc
]
allocate_from-Fresh base size last (r ∷ rs) p h = elim (Bool-cases (leb (finish r) base)) [
  | inl before ↦
      let (q, found, same) =
        map-eq-some (behind r) (allocate_from base size (some r) rs) (rw before at h) in
      let (a, b) = allocate_from-Fresh base size (some r) rs q found in
      subst (Fresh (r ∷ rs)) same (a, ap (◌∷◌ r) b)
  | inr over ↦ elim (Bool-cases (leb (add64 base size) r.base)) [
    | inl gap ↦
        subst (Fresh (r ∷ rs)) (some_eq (rw (over, gap) at h)) (insert_before-Fresh base size r rs)
    | inr taken ↦ let h' : none ≡ some p = rw (over, taken) at h in cc
  ]
]

choose_from-cases :
    (w : Option (Place Region)) (fixed : Bool) (f : Option (Place Region)) {p : Place Region}
    → choose_from w fixed f ≡ some (some p)
    → (w ≡ some p) ⊎ (f ≡ some p)
unfolding choose_from
choose_from-cases (some q) fixed f h = inl (some_eq h)
choose_from-cases none true f {p} h = let h' : none ≡ some p = some_eq h in cc
choose_from-cases none false (some q) h = inr (some_eq h)
choose_from-cases none false none {p} h = let h' : none ≡ some (some p) = h in cc

choose-Fresh :
    (base size : ℕ) (fixed : Bool) (s : Space) (p : Place Region)
    → choose base size fixed s ≡ some (some p)
    → Fresh s.regions p
unfolding choose find_available allocate_at
choose-Fresh base size fixed s p h =
    elim (choose_from-cases wanted fixed (find_available s.limit size s.regions) h) [
      | inl e ↦ elim (Bool-cases (base == 0)) [
        | inl zero_base ↦ let e' : none ≡ some p = rw zero_base at e in cc
        | inr given ↦ allocate_from-Fresh base size none s.regions p (rw given at e)
      ]
      | inr e ↦ find_from-Fresh s.limit size (page_size, add64 page_size size) s.regions p e
    ]
  where
    wanted : Option (Place Region)
    wanted = if base == 0 then none else allocate_at base size s.regions

-- A place for a region, once attached to object `o`, holds that object once more.
refs-attach :
    (o q : ℕ) (p : Place Region) (rs : List Region)
    → Fresh rs p
    → refs q (to_list (attach o p)) ≡ refs q rs + (if o == q then 1 else 0)
refs-attach o q p rs f = omega (
  arith,
  refs-append q p.before ((attach o p).item ∷ p.after),
  refs-append q p.before p.after,
  ap (refs q) f.1,
)

-- The new region holds `o`; the regions that hold it are one more, and those of other objects as
-- many as before.
record Added (o : ℕ) (s : Space) (r : Region) (t : Space) : Type 0 where
  item : r.object ≡ some o
  held : (q : ℕ) → refs q t.regions ≡ refs q s.regions + (if o == q then 1 else 0)

-- The same of a result, with what the objects have become.
abbrev AddsTo : ℕ → Space → (ℕ → VmObject) → Option Region × Space → Type 0
AddsTo o s f (none, t) = ⊥
AddsTo o s f (some r, t) = Added o s r t × (t.objects ≡ f)

map_into-AddsTo :
    (o : ℕ) (p : Place Region) (s : Space) (x : Option Region × Space)
    → Fresh s.regions p
    → map_into o (some p) s ≡ some x
    → AddsTo o s (update s.objects o (retain (s.objects o))) x
unfolding map_into
map_into-AddsTo o p s x f h =
    subst (AddsTo o s (update s.objects o (retain (s.objects o))))
      (some_eq (refused (p.item.base == 0) h).1)
      (record { item = refl; held = λ q. refs-attach o q p s.regions f }, refl)

allocate_into-AddsTo :
    (size : ℕ) (p : Place Region) (s : Space) (x : Option Region × Space)
    → Fresh s.regions p
    → allocate_into size (some p) s ≡ some x
    → AddsTo s.next_object s (update s.objects s.next_object (anonymous_object size)) x
unfolding allocate_into
allocate_into-AddsTo size p s x f h =
    subst (AddsTo s.next_object s (update s.objects s.next_object (anonymous_object size)))
      (some_eq (refused (p.item.base == 0) h).1)
      (record { item = refl; held = λ q. refs-attach s.next_object q p s.regions f }, refl)

map_place-AddsTo :
    (o base size : ℕ) (fixed : Bool) (s t : Space) (r : Region) (x : Option (Place Region))
    → choose base size fixed s ≡ some x
    → map_into o x s ≡ some (some r, t)
    → AddsTo o s (update s.objects o (retain (s.objects o))) (some r, t)
unfolding map_into
map_place-AddsTo o base size fixed s t r (some p) c d =
    map_into-AddsTo o p s (some r, t) (choose-Fresh base size fixed s p c) d
map_place-AddsTo o base size fixed s t r none c d =
    none-ne-some (ap (λ (x : Option Region × Space). x.0) (some_eq d))

allocate_place-AddsTo :
    (base size : ℕ) (fixed : Bool) (s t : Space) (r : Region) (x : Option (Place Region))
    → choose base size fixed s ≡ some x
    → allocate_into size x s ≡ some (some r, t)
    → AddsTo s.next_object s (update s.objects s.next_object (anonymous_object size)) (some r, t)
unfolding allocate_into
allocate_place-AddsTo base size fixed s t r (some p) c d =
    allocate_into-AddsTo size p s (some r, t) (choose-Fresh base size fixed s p c) d
allocate_place-AddsTo base size fixed s t r none c d =
    none-ne-some (ap (λ (x : Option Region × Space). x.0) (some_eq d))

-- `MapVMO` that returns a region has counted it: the region holds the object, and of every object
-- the count grew by just what the regions that hold it did.
pub map_vmo-Balance :
    (o base : ℕ) (fixed : Bool) (s t : Space) (r : Region)
    → Counted s
    → map_vmo o base fixed s ≡ some (some r, t)
    → Balance s t × (r.object ≡ some o) × (refs o t.regions ≡ refs o s.regions + 1)
unfolding map_vmo
map_vmo-Balance o base fixed s t r c h =
    let size : ℕ = (s.objects o).size in
    let passed = guarded (is_aligned size && is_aligned base) h in
    let (x, chosen, done) =
      bind-eq-some (choose base size fixed s) (λ x. map_into o x s) passed.1 in
    let (added, objects) = map_place-AddsTo o base size fixed s t r x chosen done in
    (λ q. rw objects (ground (arith, added.held q, c q)), added.item, ground (arith, added.held o))

-- `AllocateAnonymousVMObject` that returns a region made an object for it: one that no region held
-- is held once and counts one, and no other object or count changed.
pub allocate_anonymous-Balance :
    (size base : ℕ) (fixed : Bool) (s t : Space) (r : Region)
    → refs s.next_object s.regions ≡ 0
    → allocate_anonymous size base fixed s ≡ some (some r, t)
    → (r.object ≡ some s.next_object)
      × (t.objects s.next_object ≡ anonymous_object size)
      × (refs s.next_object t.regions ≡ 1)
      × ((q : ℕ)
          → q ≢ s.next_object
          → (t.objects q ≡ s.objects q) × (refs q t.regions ≡ refs q s.regions))
unfolding allocate_anonymous
allocate_anonymous-Balance size base fixed s t r unheld h =
    let passed = guarded (is_aligned size && is_aligned base) h in
    let (x, chosen, done) =
      bind-eq-some (choose base size fixed s) (λ x. allocate_into size x s) passed.1 in
    let (added, objects) = allocate_place-AddsTo base size fixed s t r x chosen done in
    (
      added.item,
      rw objects (ground arith),
      ground (arith, added.held s.next_object),
      λ q ne. (rw objects (ground arith), ground (arith, added.held q)),
    )
