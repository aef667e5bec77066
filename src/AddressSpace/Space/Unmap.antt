-- ===== src/AddressSpace/Space/Unmap.antt =====
-- `UnmapRegion` and `UnmapMemory`.
use lori_os.Prelude.{
  ℕ, zero, suc, ◌+◌, ◌≤◌, ◌<◌, ◌^◌, ◌≡◌, refl, List, [], ◌∷◌, ◌++◌, Option, none, some, arith, ◌==◌,
  if◌then◌else◌, Bool, true, false, not, ◌&&◌, ◌||◌, ltb, add64, Bool-cases, inl, inr, ◌⊎◌, ap, ◌∙◌,
  sym, some_eq, map-eq-some, none-ne-some, subst, length, length-append, ◌≢◌, map-eq-none,
}
use lori_os.AddressSpace.{Region, finish}
use lori_os.AddressSpace.Space.{
  VmObject, Space, release_of, take_at, unmap_call, unmap_region, unmap_pages, page_count,
  is_unmapped, unmap_pass, unmap_loop, unmap_memory,
}
use lori_os.AddressSpace.Space.Count.{holds, refs, refs-append, Balance, Counted}

-- The region stood between some others, which are left in their order.
abbrev pub TakenFrom : List Region → Region × List Region → Type 0
TakenFrom rs (r, others) =
    (xs : List Region) × (ys : List Region) × (rs ≡ xs ++ (r ∷ ys)) × (others ≡ xs ++ ys)

behind-TakenFrom :
    (r : Region) (rs : List Region) (x : Region × List Region)
    → TakenFrom rs x
    → TakenFrom (r ∷ rs) (x.0, r ∷ x.1)
behind-TakenFrom r rs x (xs, ys, e, k) = (r ∷ xs, ys, ap (◌∷◌ r) e, ap (◌∷◌ r) k)

TakenFrom-refs :
    (rs : List Region) (x : Region × List Region) (o : ℕ)
    → TakenFrom rs x
    → refs o rs ≡ holds o x.0 + refs o x.1
TakenFrom-refs rs x o (xs, ys, e, k) =
    omega (arith, ap (refs o) e, ap (refs o) k, refs-append o xs (x.0 ∷ ys), refs-append o xs ys)

TakenFrom-length :
    (rs : List Region) (x : Region × List Region) → TakenFrom rs x → length rs ≡ suc (length x.1)
TakenFrom-length rs x (xs, ys, e, k) =
    omega (arith, ap length e, ap length k, length-append xs (x.0 ∷ ys), length-append xs ys)

abbrev pub is_object : Option ℕ → Bool
is_object none = false
is_object (some o) = true

abbrev NoneAt : ℕ → List Region → Type 0
NoneAt base [] = Unit {0}
NoneAt base (r ∷ rs) = (r.base ≢ base) × NoneAt base rs

take_at-TakenFrom :
    (base : ℕ) (rs : List Region) (x : Region × List Region)
    → take_at base rs ≡ some x
    → TakenFrom rs x × (x.0.base ≡ base)
unfolding take_at
take_at-TakenFrom base [] x h = none-ne-some h
take_at-TakenFrom base (r ∷ rs) x h = elim (Bool-cases (r.base == base)) [
  | inl hit ↦
      subst (λ (x : Region × List Region). TakenFrom (r ∷ rs) x × (x.0.base ≡ base))
        (some_eq (rw hit at h)) (([], rs, refl, refl), ground arith)
  | inr miss ↦
      let (q, found, same) =
        map-eq-some (λ (x : Region × List Region). (x.0, r ∷ x.1)) (take_at base rs)
          (rw miss at h) in
      let (taken, at) = take_at-TakenFrom base rs q found in
      subst (λ (x : Region × List Region). TakenFrom (r ∷ rs) x × (x.0.base ≡ base)) same
        (behind-TakenFrom r rs q taken, at)
]

take_at-NoneAt : (base : ℕ) (rs : List Region) → take_at base rs ≡ none → NoneAt base rs
unfolding take_at
take_at-NoneAt base [] h = tt
take_at-NoneAt base (r ∷ rs) h = elim (Bool-cases (r.base == base)) [
  | inl hit ↦ none-ne-some (sym (rw hit at h))
  | inr miss ↦ (
    ground arith,
    take_at-NoneAt base rs (
        map-eq-none {B = Region × List Region} (λ x. (x.0, r ∷ x.1)) (take_at base rs)
          (rw miss at h)),
  )
]

-- Dropping the reference of a region that was counted takes one off the count of its object.
release_of_lem :
    (r : Region) (f : ℕ → VmObject) (o : ℕ)
    → holds o r ≤ (f o).ref_count
    → (f o).ref_count < 2 ^ 63
    → (release_of r f o).ref_count + holds o r ≡ (f o).ref_count
unfolding release_of
release_of_lem r f o h k = ground arith

dropped-Balance :
    (s t : Space) (r : Region)
    → Counted s
    → TakenFrom s.regions (r, t.regions)
    → t.objects ≡ release_of r s.objects
    → Balance s t × Counted t
dropped-Balance s t r c taken e = (
  λ o. rw e (omega (arith, held o, c o, released o)),
  λ o. rw e (omega (arith, held o, c o, released o), omega (arith, c o, released o)),
)
  where
    held : (o : ℕ) → refs o s.regions ≡ holds o r + refs o t.regions
    held o = TakenFrom-refs s.regions (r, t.regions) o taken

    released : (o : ℕ) → (release_of r s.objects o).ref_count + holds o r ≡ (s.objects o).ref_count
    released o = release_of_lem r s.objects o (omega (arith, held o, c o)) (c o).1

-- What `UnmapRegion` has done when it returns `ret`.
abbrev pub Unmapped : ℕ → Space → ℕ × Space → Type 0
Unmapped base s (ret, t) =
    ((ret ≡ 1) × (t ≡ s) × NoneAt base s.regions)
    ⊎ ((ret ≡ 0)
        × ((r : Region) × (r.base ≡ base) × TakenFrom s.regions (r, t.regions))
        × Balance s t
        × Counted t)

-- `UnmapRegion` returns 1 and changes nothing where no region has the base; else it returns 0,
-- removes one region of that base, and takes its reference off the count of its object alone.
pub unmap_region-Unmapped :
    (base : ℕ) (s : Space) → Counted s → Unmapped base s (unmap_region base s)
unfolding unmap_region
unmap_region-Unmapped base s c = go (take_at base s.regions) refl
  where
    go :
        (o : Option (Region × List Region))
        → take_at base s.regions ≡ o
        → Unmapped base s (unmap_region base s)
    go none e = rw (e, unmap_region) (inl (refl, refl, take_at-NoneAt base s.regions e))
    go (some (r, others)) e =
        let (taken, at) = take_at-TakenFrom base s.regions (r, others) e in
        let t : Space = record s {
          regions = others;
          objects = release_of r s.objects;
          calls = s.calls ++ (unmap_call s r ∷ []);
        } in
        let (b, c') = dropped-Balance s t r c taken refl in
        rw (e, unmap_region) (inr (refl, (r, at, taken), b, c'))

-- A region that `UnmapMemory` is to keep: it has an object, and it starts below the range or behind its
-- end, or ends behind it.
abbrev pub stays : ℕ → ℕ → Region → Bool
stays base end r = is_object r.object && (ltb r.base base || ltb end r.base || ltb end (finish r))

is_unmapped-stays : (base end : ℕ) (r : Region) → is_unmapped base end r ≡ not (stays base end r)
unfolding is_unmapped
is_unmapped-stays base end r = ground arith

pub survivors : ℕ → ℕ → List Region → List Region
survivors base end [] = []
survivors base end (r ∷ rs) =
    if stays base end r then r ∷ survivors base end rs else survivors base end rs

survivors-drop :
    (base end : ℕ) (r : Region) (rs : List Region)
    → is_unmapped base end r ≡ true
    → survivors base end (r ∷ rs) ≡ survivors base end rs
unfolding survivors
survivors-drop base end r rs h =
    let e : stays base end r ≡ false = ground (arith, is_unmapped-stays base end r) in rw e refl

survivors-keep :
    (base end : ℕ) (r : Region) (rs : List Region)
    → is_unmapped base end r ≡ false
    → survivors base end (r ∷ rs) ≡ r ∷ survivors base end rs
unfolding survivors
survivors-keep base end r rs h =
    let e : stays base end r ≡ true = ground (arith, is_unmapped-stays base end r) in rw e refl

unmap_pass-none :
    (base end : ℕ) (rs : List Region) → unmap_pass base end rs ≡ none → survivors base end rs ≡ rs
unfolding unmap_pass survivors
unmap_pass-none base end [] h = refl
unmap_pass-none base end (r ∷ rs) h = elim (Bool-cases (is_unmapped base end r)) [
  | inl hit ↦ none-ne-some (sym (rw hit at h))
  | inr miss ↦
      survivors-keep base end r rs miss
      ∙ ap (◌∷◌ r) (
          unmap_pass-none base end rs (
            map-eq-none {B = Region × List Region} (λ x. (x.0, r ∷ x.1)) (unmap_pass base end rs)
              (rw miss at h)))
]

-- What is taken out is no survivor, and the survivors are those of the others.
abbrev Drops : ℕ → ℕ → List Region → Region × List Region → Type 0
Drops base end rs x = TakenFrom rs x × (survivors base end rs ≡ survivors base end x.1)

unmap_pass-some :
    (base end : ℕ) (rs : List Region) (x : Region × List Region)
    → unmap_pass base end rs ≡ some x
    → Drops base end rs x
unfolding unmap_pass survivors
unmap_pass-some base end [] x h = none-ne-some h
unmap_pass-some base end (r ∷ rs) x h = elim (Bool-cases (is_unmapped base end r)) [
  | inl hit ↦
      subst (Drops base end (r ∷ rs)) (some_eq (rw hit at h))
        (([], rs, refl, refl), survivors-drop base end r rs hit)
  | inr miss ↦
      let (q, found, same) =
        map-eq-some (λ (x : Region × List Region). (x.0, r ∷ x.1)) (unmap_pass base end rs)
          (rw miss at h) in
      let (taken, kept) = unmap_pass-some base end rs q found in
      subst (Drops base end (r ∷ rs)) same (
        behind-TakenFrom r rs q taken,
        survivors-keep base end r rs miss
            ∙ ap (◌∷◌ r) kept
            ∙ sym (survivors-keep base end r q.1 miss),
      )
]

-- What `UnmapMemory` has done.
pub record Cleared (base end : ℕ) (s t : Space) : Type 0 where
  pub kept : t.regions ≡ survivors base end s.regions
  pub balance : Balance s t
  pub counted : Counted t

-- One round of the loop, from the rounds that follow.
unmap_round :
    (fuel base size : ℕ) (s : Space)
    → length s.regions < suc fuel
    → Counted s
    → (o : Option (Region × List Region)) → unmap_pass base (add64 base size) s.regions ≡ o
    → ((u : Space)
        → length u.regions < fuel
        → Counted u
        → (t : Space) × (unmap_loop fuel base size u ≡ some t) × Cleared base (add64 base size) u t)
    → (t : Space) × (unmap_loop (suc fuel) base size s ≡ some t)
      × Cleared base (add64 base size) s t
unfolding unmap_loop
unmap_round fuel base size s h c none e rest = (
  s,
  rw (e, unmap_loop),
  record {
    kept = sym (unmap_pass-none base (add64 base size) s.regions e);
    balance = λ o. refl;
    counted = c;
  },
)
unmap_round fuel base size s h c (some (r, others)) e rest =
    let (taken, same) = unmap_pass-some base (add64 base size) s.regions (r, others) e in
    let u : Space = record s {
      regions = others;
      objects = release_of r s.objects;
      calls = s.calls ++ (unmap_pages base (page_count size) ∷ []);
    } in
    let (b, counted) = dropped-Balance s u r c taken refl in
    let (t, done, cleared) =
      rest u (omega (arith, TakenFrom-length s.regions (r, others) taken)) counted in
    (
      t,
      rw (e, unmap_loop) done,
      record {
        kept = cleared.kept ∙ sym same;
        balance = λ o. omega (arith, b o, cleared.balance o);
        counted = cleared.counted;
      },
    )

unmap_loop-Cleared :
    (fuel base size : ℕ) (s : Space)
    → length s.regions < fuel
    → Counted s
    → (t : Space) × (unmap_loop fuel base size s ≡ some t) × Cleared base (add64 base size) s t
unfolding unmap_loop
unmap_loop-Cleared zero base size s h c = absurd (omega arith)
unmap_loop-Cleared (suc fuel) base size s h c =
    unmap_round fuel base size s h c (unmap_pass base (add64 base size) s.regions) refl
      (unmap_loop-Cleared fuel base size)

-- `UnmapMemory` always ends, for all its restarts: it keeps, in order, just the regions that have an
-- object and start below `base` or behind the end of the range, or end behind that, and takes the
-- references of the others off the counts.
pub unmap_memory-Cleared :
    (base size : ℕ) (s : Space)
    → Counted s
    → (t : Space) × (unmap_memory base size s ≡ some t) × Cleared base (add64 base size) s t
unfolding unmap_memory
unmap_memory-Cleared base size s c =
    unmap_loop-Cleared (length s.regions + 1) base size s (omega arith) c
