-- ===== src/AddressSpace/Order.antt =====
-- Regions in order.
use lori_os.Prelude.{ℕ, ◌+◌, ◌≤◌, ◌<◌, ◌^◌, ◌⊎◌, inl, List, [], ◌∷◌, arith}
use lori_os.AddressSpace.{Region, finish}

-- The address lies in the region.
abbrev pub Holds : Region → ℕ → Type 0
Holds r a = (r.base ≤ a) × (a < finish r)

abbrev pub HeldBy : List Region → ℕ → Type 0
HeldBy [] a = ⊥
HeldBy (r ∷ rs) a = Holds r a ⊎ HeldBy rs a

-- A region is not empty and does not run past the end of the address space.
abbrev pub IsProper : Region → Type 0
IsProper r = (0 < r.size) × (r.base + r.size < 2 ^ 64)

-- Every region starts at or behind `low`, and ends before the next one starts.
abbrev pub Ordered : ℕ → List Region → Type 0
Ordered low [] = Unit {0}
Ordered low (r ∷ rs) = IsProper r × (low ≤ r.base) × Ordered (finish r) rs

-- Of two regions one ends before the other starts.
abbrev pub Apart : Region → Region → Type 0
Apart r s = (finish r ≤ s.base) ⊎ (finish s ≤ r.base)

abbrev pub ApartFrom : Region → List Region → Type 0
ApartFrom r [] = Unit {0}
ApartFrom r (s ∷ rs) = Apart r s × ApartFrom r rs

pub Ordered-mono : {low low' : ℕ} (rs : List Region) → low' ≤ low → Ordered low rs → Ordered low' rs
Ordered-mono [] h o = tt
Ordered-mono (r ∷ rs) h o = (o.0, omega arith, o.2)

-- What ends where ordered regions start is apart from them.
pub ApartFrom-below :
    (r : Region) (low : ℕ) (rs : List Region) → finish r ≤ low → Ordered low rs → ApartFrom r rs
ApartFrom-below r low [] h o = tt
ApartFrom-below r low (s ∷ rs) h o =
    (inl (omega arith), ApartFrom-below r (finish s) rs (omega arith) o.2)
