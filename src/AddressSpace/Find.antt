-- ===== src/AddressSpace/Find.antt =====
-- `FindAvailableRegion` returns free addresses.
use lori_os.Prelude.{
  ℕ, ◌+◌, ◌≤◌, ◌<◌, ◌^◌, ◌≡◌, refl, List, [], ◌∷◌, ◌++◌, none, some, arith, leb, ltb, add64,
  Bool-cases, inl, inr, ap, subst, some_eq, ◌⊎◌, false, map-eq-some, leb→le,
}
use lori_os.LinkedList.{Place, insert_before, add_back, to_list, behind}
use lori_os.AddressSpace.{
  Region, finish, fresh, page_size, skip, find_from, find_available, range_in_region, range_from,
}
use lori_os.AddressSpace.Order.{IsProper, Ordered, ApartFrom, ApartFrom-below}

-- `size` bytes fit behind every region.
abbrev pub Fits : ℕ → List Region → Type 0
Fits size [] = Unit {0}
Fits size (r ∷ rs) = (finish r + size < 2 ^ 64) × Fits size rs

-- The candidate keeps its size, and lies behind the region that it was moved past.
skip_lem :
    (r : Region) (size base end : ℕ)
    → IsProper r
    → finish r + size < 2 ^ 64
    → 0 < size
    → end ≡ base + size
    → let (b, e) = skip r size (base, end) in
      (e ≡ b + size) × (base ≤ b) × (r.base < end → finish r ≤ b)
unfolding skip
skip_lem r size base end p f pos e = ground arith

-- What the loop returns: a new region of the size asked for, at or behind the candidate, in the list
-- of the others, and apart from each of them.
pub record IsFree (size base : ℕ) (rs : List Region) (p : Place Region) : Type 0 where
  pub fresh_item : p.item ≡ fresh p.item.base size
  pub behind_base : base ≤ p.item.base
  pub no_wrap : p.item.base + size < 2 ^ 64
  pub others : p.before ++ p.after ≡ rs
  pub apart : ApartFrom p.item rs

pub insert_before-IsFree :
    (low size base : ℕ) (r : Region) (rs : List Region)
    → Ordered low (r ∷ rs)
    → base + size ≤ r.base
    → IsFree size base (r ∷ rs) (insert_before (fresh base size) r rs)
unfolding insert_before
insert_before-IsFree low size base r [] o h = record {
  fresh_item = refl;
  behind_base = omega arith;
  no_wrap = omega arith;
  others = refl;
  apart = (inl (omega arith), tt);
}
insert_before-IsFree low size base r (s ∷ rs) o h = record {
  fresh_item = refl;
  behind_base = omega arith;
  no_wrap = omega arith;
  others = refl;
  apart =
      (inl (omega arith), ApartFrom-below (fresh base size) (finish r) (s ∷ rs) (omega arith) o.2);
}

pub behind-IsFree :
    (size base b : ℕ) (r : Region) (rs : List Region) (p : Place Region)
    → base ≤ b
    → finish r ≤ b
    → IsFree size b rs p
    → IsFree size base (r ∷ rs) (behind r p)
behind-IsFree size base b r rs p h k f = record {
  fresh_item = f.fresh_item;
  behind_base = omega (arith, f.behind_base);
  no_wrap = f.no_wrap;
  others = ap (◌∷◌ r) f.others;
  apart = (inr (omega (arith, f.behind_base)), f.apart);
}

find_from-IsFree :
    (limit size base end low : ℕ) (rs : List Region) (p : Place Region)
    → limit ≤ 2 ^ 64
    → 0 < size
    → Fits size rs
    → Ordered low rs
    → end ≡ base + size
    → find_from limit size (base, end) rs ≡ some p
    → IsFree size base rs p
unfolding find_from add_back
find_from-IsFree limit size base end low [] p l pos f o e h = elim (Bool-cases (ltb end limit)) [
  | inl room ↦ subst (IsFree size base []) (some_eq (rw room at h)) (record {
    fresh_item = refl;
    behind_base = omega arith;
    no_wrap = ground arith;
    others = refl;
    apart = tt;
  })
  | inr full ↦ let h' : none ≡ some p = rw full at h in cc
]
find_from-IsFree limit size base end low (r ∷ rs) p l pos f o e h =
    elim (Bool-cases (leb end r.base)) [
      | inl gap ↦
          subst (IsFree size base (r ∷ rs)) (some_eq (rw gap at h))
            (insert_before-IsFree low size base r rs o (omega (arith, leb→le end r.base gap, e)))
      | inr taken ↦
          let c : ℕ × ℕ = skip r size (base, end) in
          let (e', further, past) = skip_lem r size base end o.0 f.0 pos e in
          let (q, found, same) =
            map-eq-some (behind r) (find_from limit size c rs) (rw taken at h) in
          subst (IsFree size base (r ∷ rs)) same (
            behind-IsFree size base c.0 r rs q further (past (ground arith))
              (find_from-IsFree limit size c.0 c.1 (finish r) rs q l pos f.1 o.2 e' found))
    ]

-- `FindAvailableRegion` returns a region of the size asked for, above page 0, that overlaps no
-- region of the list, and leaves the others as they are: for regions in order, behind each of which
-- the size fits below 2 ^ 64.
pub find_available-IsFree :
    (limit size : ℕ) (rs : List Region) (p : Place Region)
    → limit ≤ 2 ^ 64
    → 0 < size
    → page_size + size < 2 ^ 64
    → Fits size rs
    → Ordered 0 rs
    → find_available limit size rs ≡ some p
    → IsFree size page_size rs p
unfolding find_available
find_available-IsFree limit size rs p l pos room f o h =
    find_from-IsFree limit size page_size (add64 page_size size) 0 rs p l pos f o (omega arith) h

-- Where the new region goes: in order, or behind the last region though it lies below it.
abbrev pub Placed : ℕ → ℕ → Place Region → Type 0
Placed low size p =
    Ordered low (to_list p)
    ⊎ ((xs : List Region) × (last : Region) × (to_list p ≡ xs ++ (last ∷ p.item ∷ []))
        × (p.item.base + size ≤ last.base))

pub insert_before-Placed :
    (low size base : ℕ) (r : Region) (rs : List Region)
    → Ordered low (r ∷ rs)
    → 0 < size
    → low ≤ base
    → base + size ≤ r.base
    → Placed low size (insert_before (fresh base size) r rs)
unfolding insert_before
insert_before-Placed low size base r [] o pos b h = inr ([], r, refl, h)
insert_before-Placed low size base r (s ∷ rs) o pos b h =
    inl ((pos, omega arith), b, (o.0, omega arith, o.2))

pub behind-Placed :
    (low size : ℕ) (r : Region) (p : Place Region)
    → IsProper r
    → low ≤ r.base
    → Placed (finish r) size p
    → Placed low size (behind r p)
behind-Placed low size r p proper h (inl o) = inl (proper, h, o)
behind-Placed low size r p proper h (inr (xs, last, e, k)) = inr (r ∷ xs, last, ap (◌∷◌ r) e, k)

find_from-Placed :
    (limit size base end low : ℕ) (rs : List Region) (p : Place Region)
    → limit ≤ 2 ^ 64
    → 0 < size
    → low ≤ base
    → Fits size rs
    → Ordered low rs
    → end ≡ base + size
    → find_from limit size (base, end) rs ≡ some p
    → Placed low size p
unfolding find_from add_back
find_from-Placed limit size base end low [] p l pos b f o e h = elim (Bool-cases (ltb end limit)) [
  | inl room ↦ subst (Placed low size) (some_eq (rw room at h)) (inl ((pos, ground arith), b, tt))
  | inr full ↦ let h' : none ≡ some p = rw full at h in cc
]
find_from-Placed limit size base end low (r ∷ rs) p l pos b f o e h =
    elim (Bool-cases (leb end r.base)) [
      | inl gap ↦ subst (Placed low size) (some_eq (rw gap at h)) (
          insert_before-Placed low size base r rs o pos b (omega (arith, leb→le end r.base gap, e)))
      | inr taken ↦
          let c : ℕ × ℕ = skip r size (base, end) in
          let (e', further, past) = skip_lem r size base end o.0 f.0 pos e in
          let (q, found, same) =
            map-eq-some (behind r) (find_from limit size c rs) (rw taken at h) in
          subst (Placed low size) same (
            behind-Placed low size r q o.0 o.1 (
              find_from-Placed limit size c.0 c.1 (finish r) rs q l pos (past (ground arith)) f.1
                o.2 e' found))
    ]

-- After `FindAvailableRegion` the regions are in order again, or the new one stands behind the last
-- region of the list though it ends where that one starts or before.
pub find_available-Placed :
    (limit size : ℕ) (rs : List Region) (p : Place Region)
    → limit ≤ 2 ^ 64
    → 0 < size
    → page_size + size < 2 ^ 64
    → Fits size rs
    → Ordered 0 rs
    → find_available limit size rs ≡ some p
    → Placed 0 size p
unfolding find_available
find_available-Placed limit size rs p l pos room f o h =
    find_from-Placed limit size page_size (add64 page_size size) 0 rs p l pos (omega arith) f o
      (omega arith) h

-- The second case does occur: where the gap before the only region is large enough, the new region
-- is put behind that one, and then `RangeInRegion` denies the new region's own range.
pub find_available_misplaced :
    (limit size : ℕ) (r : Region)
    → 0 < size
    → r.base < 2 ^ 64
    → page_size + size ≤ r.base
    → (p : Place Region) × (find_available limit size (r ∷ []) ≡ some p)
      × (to_list p ≡ r ∷ fresh page_size size ∷ [])
      × (range_in_region page_size size (to_list p) ≡ false)
unfolding find_available find_from insert_before range_in_region range_from
find_available_misplaced limit size r pos b h = (
  record { before = r ∷ []; item = fresh page_size size; after = [] },
  ground arith,
  refl,
  ground arith,
)
