-- ===== src/AddressSpace.antt =====
-- Kernel/src/Memory/AddressSpace.cpp: the regions of an address space, in the order of the list.
pub mod Order
pub mod Find
pub mod Fixed
pub mod Range
pub mod Space
mod Tests
use mathlib.Core.Option
use lori_os.Prelude.{
  ℕ, ◌^◌, ◌-◌, List, [], ◌∷◌, ◌++◌, Bool, true, false, Option, none, some, ◌&&◌, leb, ltb, ◌==◌,
  if◌then◌else◌, add64,
}
use lori_os.LinkedList.{Place, insert_before, add_back, behind}

-- `MappedRegion`; a VM object is named by its number in the store of `Objects`.
pub record Region : Type 0 where
  pub base : ℕ
  pub size : ℕ
  pub object : Option ℕ

abbrev pub finish : Region → ℕ
finish r = add64 r.base r.size

abbrev pub page_size : ℕ
page_size = 4096

abbrev pub fresh : ℕ → ℕ → Region
fresh base size = record { base = base; size = size; object = none }

-- The three tests of `FindAvailableRegion` by which the candidate `[base, end)` moves behind `r`.
-- Each reads what the one before it left.
pub skip_start : Region → ℕ → ℕ × ℕ → ℕ × ℕ
skip_start r size (base, end) =
    if leb r.base base && ltb base (finish r)
    then (finish r, add64 (finish r) size)
    else (base, end)

pub skip_end : Region → ℕ → ℕ × ℕ → ℕ × ℕ
skip_end r size (base, end) =
    if ltb r.base end && leb end (finish r) then (finish r, add64 (finish r) size) else (base, end)

pub skip_whole : Region → ℕ → ℕ × ℕ → ℕ × ℕ
skip_whole r size (base, end) =
    if ltb base r.base && ltb (finish r) end then (finish r, add64 (finish r) size) else (base, end)

pub skip : Region → ℕ → ℕ × ℕ → ℕ × ℕ
unfolding skip_start skip_end skip_whole
skip r size c = skip_whole r size (skip_end r size (skip_start r size c))

-- The loop of `FindAvailableRegion`, where `limit` is `m_endRegion`; `none` is its null pointer.
pub find_from : ℕ → ℕ → ℕ × ℕ → List Region → Option (Place Region)
find_from limit size (base, end) [] =
    if ltb end limit then some (add_back [] (fresh base size)) else none
find_from limit size (base, end) (r ∷ rs) =
    let further = Option.map (behind r) (find_from limit size (skip r size (base, end)) rs) in
    if leb end r.base then some (insert_before (fresh base size) r rs) else further

pub find_available : ℕ → ℕ → List Region → Option (Place Region)
find_available limit size rs = find_from limit size (page_size, add64 page_size size) rs

-- The loop of `AllocateRegionAt`, with the last region that it passed; `m_regions.get_back()` is that
-- one when the loop runs to its end.
pub allocate_from : ℕ → ℕ → Option Region → List Region → Option (Place Region)
allocate_from base size none [] = some (add_back [] (fresh base size))
allocate_from base size (some last) [] =
    if leb (finish last) base then some (add_back [] (fresh base size)) else none
allocate_from base size last (r ∷ rs) =
    let further = Option.map (behind r) (allocate_from base size (some r) rs) in
    if leb (finish r) base
    then further
    else if leb (add64 base size) r.base
    then some (insert_before (fresh base size) r rs)
    else none

pub allocate_at : ℕ → ℕ → List Region → Option (Place Region)
allocate_at base size rs = allocate_from base size none rs

-- The address that `RangeInRegion` goes on from behind `r`.
pub advance : Region → ℕ → ℕ
advance r base = if leb r.base base && ltb base (finish r) then finish r else base

-- The loop of `RangeInRegion`, over the first address not yet known to be mapped.
pub range_from : ℕ → ℕ → List Region → Bool
range_from base end [] = leb end base
range_from base end (r ∷ rs) =
    let further = range_from (advance r base) end rs in
    if ltb base r.base then false else if leb end (advance r base) then true else further

pub range_in_region : ℕ → ℕ → List Region → Bool
range_in_region base size rs = range_from base (add64 base size) rs

-- `AddressToRegionReadLock` and `AddressToRegionWriteLock` up to the lock that they take: the first
-- region that has an object and holds the address.
pub address_to_region : ℕ → List Region → Option Region
address_to_region a [] = none
address_to_region a (r ∷ rs) = elim r.object [
  | none ↦ address_to_region a rs
  | some o ↦
      let further = address_to_region a rs in
      if leb r.base a && ltb a (finish r) then some r else further
]
