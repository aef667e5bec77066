-- ===== src/AddressSpace/Fixed.antt =====
-- `AllocateRegionAt` places a region at a given address, or refuses.
use lori_os.Prelude.{
  ℕ, ◌+◌, ◌≤◌, ◌<◌, ◌^◌, ◌≡◌, refl, List, [], ◌∷◌, ◌++◌, Option, none, some, arith, leb, add64,
  Bool-cases, inl, inr, ap, leb→le, true,
}
use mathlib.Core.Option
use lori_os.LinkedList.{Place, insert_before, add_back, behind}
use lori_os.AddressSpace.{Region, finish, fresh, allocate_from, allocate_at}
use lori_os.AddressSpace.Order.{IsProper, Ordered, ApartFrom}
use lori_os.AddressSpace.Find.{Placed, insert_before-IsFree, insert_before-Placed, behind-Placed}

-- What the answer means: a null pointer where the addresses are taken, else the new region.
abbrev pub Outcome : ℕ → ℕ → ℕ → List Region → Option (Place Region) → Type 0
Outcome low base size rs none = ¬ ApartFrom (fresh base size) rs
Outcome low base size rs (some p) =
    (p.item ≡ fresh base size)
    × (p.before ++ p.after ≡ rs)
    × ApartFrom p.item rs
    × Placed low size p

abbrev Passed : Option Region → ℕ → Type 0
Passed none base = Unit {0}
Passed (some r) base = finish r ≤ base

behind-Outcome :
    (low base size : ℕ) (r : Region) (rs : List Region) (o : Option (Place Region))
    → IsProper r
    → low ≤ r.base
    → finish r ≤ base
    → base + size < 2 ^ 64
    → Outcome (finish r) base size rs o
    → Outcome low base size (r ∷ rs) (Option.map (behind r) o)
behind-Outcome low base size r rs none proper h k w out = λ t. out t.1
behind-Outcome low base size r rs (some p) proper h k w (same, others, apart, placed) = (
  same,
  ap (◌∷◌ r) others,
  (inr (omega (arith, ap (λ (s : Region). s.base) same)), apart),
  behind-Placed low size r p proper h placed,
)

insert_before-Outcome :
    (low base size : ℕ) (r : Region) (rs : List Region)
    → Ordered low (r ∷ rs)
    → 0 < size
    → low ≤ base
    → base + size ≤ r.base
    → Outcome low base size (r ∷ rs) (some (insert_before (fresh base size) r rs))
unfolding insert_before
insert_before-Outcome low base size r rs o pos h k =
    let f = insert_before-IsFree low size base r rs o k in
    (item r rs, f.others, f.apart, insert_before-Placed low size base r rs o pos h k)
  where
    item :
        (r : Region) (rs : List Region)
        → (insert_before (fresh base size) r rs).item ≡ fresh base size
    item r [] = refl
    item r (s ∷ rs) = refl

allocate_from-Outcome :
    (low base size : ℕ) (last : Option Region) (rs : List Region)
    → low ≤ base
    → Passed last base
    → 0 < size
    → base + size < 2 ^ 64
    → Ordered low rs
    → Outcome low base size rs (allocate_from base size last rs)
unfolding allocate_from add_back
allocate_from-Outcome low base size none [] l p pos w o = (refl, refl, tt, inl ((pos, w), l, tt))
allocate_from-Outcome low base size (some r) [] l p pos w o =
    let at_end : leb (finish r) base ≡ true = ground arith in
    rw at_end (refl, refl, tt, inl ((pos, w), l, tt))
allocate_from-Outcome low base size last (r ∷ rs) l p pos w o =
    elim (Bool-cases (leb (finish r) base)) [
      | inl before ↦
          let k : finish r ≤ base = leb→le (finish r) base before in
          rw before (
            behind-Outcome low base size r rs (allocate_from base size (some r) rs) o.0 o.1 k w
              (allocate_from-Outcome (finish r) base size (some r) rs k k pos w o.2))
      | inr over ↦ elim (Bool-cases (leb (add64 base size) r.base)) [
        | inl gap ↦
            let k : base + size ≤ r.base = omega (arith, leb→le (add64 base size) r.base gap) in
            rw (over, gap) (insert_before-Outcome low base size r rs o pos l k)
        | inr taken ↦
            rw (over, taken) (λ t. elim t.0 [ inl h ↦ ground arith | inr h ↦ ground arith ])
      ]
    ]

-- `AllocateRegionAt` places a region at just the address asked for, apart from all others, which it
-- leaves as they are; and it refuses only where some region overlaps the range asked for.
pub allocate_at-Outcome :
    (base size : ℕ) (rs : List Region)
    → 0 < size
    → base + size < 2 ^ 64
    → Ordered 0 rs
    → Outcome 0 base size rs (allocate_at base size rs)
unfolding allocate_at
allocate_at-Outcome base size rs pos w o =
    allocate_from-Outcome 0 base size none rs (omega arith) tt pos w o
