-- ===== src/AddressSpace/Tests.antt =====
-- Tests of the models of Kernel/src/Memory/AddressSpace.cpp.
use lori_os.Prelude.{ℕ, ◌≡◌, refl, List, [], ◌∷◌, true, false, none, some, arith}
use lori_os.LinkedList.{Place, to_list, insert_before, add_back}
use lori_os.AddressSpace.{
  Region, fresh, page_size, skip, find_from, find_available, advance, allocate_from, allocate_at,
  range_from, range_in_region, address_to_region,
}
use lori_os.AddressSpace.Find.{
  IsFree, Placed, find_available-IsFree, find_available-Placed, find_available_misplaced,
}
use lori_os.AddressSpace.Fixed.{Outcome, allocate_at-Outcome}
use lori_os.AddressSpace.Range.{Located, address_to_region-Located}

abbrev at : ℕ → ℕ → ℕ → Region
at base size o = record { base = base; size = size; object = some o }

abbrev two_regions : List Region
two_regions = at 0x1000 0x1000 0 ∷ at 0x5000 0x1000 1 ∷ []

abbrev limit : ℕ
limit = 0xffff_ffff_8000_0000

-- The gap before the second region is taken, but the new region is put behind that one.
abbrev found : Place Region
found = record { before = two_regions; item = fresh 0x2000 0x1000; after = [] }

find_available_test : find_available limit 0x1000 two_regions ≡ some found
unfolding find_available find_from skip insert_before
find_available_test = refl

-- `RangeInRegion` stops at the first gap.
range_in_region_test :
    (range_in_region 0x1800 0x800 two_regions ≡ true)
    × (range_in_region 0x1800 0x801 two_regions ≡ false)
    × (range_in_region 0x2000 0x1000 (to_list found) ≡ false)
unfolding range_in_region range_from advance
range_in_region_test = (refl, refl, refl)

allocate_at_test :
    (allocate_at 0x6000 0x1000 two_regions
      ≡ some (record { before = two_regions; item = fresh 0x6000 0x1000; after = [] }))
    × (allocate_at 0x5800 0x1000 two_regions ≡ none)
unfolding allocate_at allocate_from add_back
allocate_at_test = (refl, refl)

find_available-IsFree_example : IsFree 0x1000 page_size two_regions found
unfolding find_available find_from skip insert_before
find_available-IsFree_example =
    find_available-IsFree limit 0x1000 two_regions found (omega arith) (omega arith) (omega arith)
      (omega arith) (omega arith) refl

find_available-Placed_test : Placed 0 0x1000 found
unfolding find_available find_from skip insert_before
find_available-Placed_test =
    find_available-Placed limit 0x1000 two_regions found (omega arith) (omega arith) (omega arith)
      (omega arith) (omega arith) refl

find_available_misplaced_test :
    (p : Place Region) × (find_available limit 0x1000 (at 0x5000 0x1000 1 ∷ []) ≡ some p)
    × (to_list p ≡ at 0x5000 0x1000 1 ∷ fresh page_size 0x1000 ∷ [])
    × (range_in_region page_size 0x1000 (to_list p) ≡ false)
find_available_misplaced_test =
    find_available_misplaced limit 0x1000 (at 0x5000 0x1000 1) (omega arith) (omega arith)
      (omega arith)

allocate_at-Outcome_test :
    Outcome 0 0x2000 0x1000 two_regions (allocate_at 0x2000 0x1000 two_regions)
allocate_at-Outcome_test =
    allocate_at-Outcome 0x2000 0x1000 two_regions (omega arith) (omega arith) (omega arith)

address_to_region_test :
    (address_to_region 0x5fff two_regions ≡ some (at 0x5000 0x1000 1))
    × (address_to_region 0x2000 (to_list found) ≡ none)
unfolding address_to_region
address_to_region_test = (refl, refl)

address_to_region-Located_test : Located 0x5fff two_regions (address_to_region 0x5fff two_regions)
address_to_region-Located_test = address_to_region-Located 0x5fff two_regions
