-- ===== src/AddressSpace/Space.antt =====
-- The operations of `AddressSpace` in Kernel/src/Memory/AddressSpace.cpp that map and unmap VM
-- objects, over a store of the objects. Calls of the page map are kept in order as `calls`; the
-- locks, held for the whole of each operation, are left out. An assertion that fails is `none`.
pub mod Count
pub mod Unmap
pub mod Fork
mod Tests
use mathlib.Core.Option
use lori_os.Prelude.{
  ℕ, suc, zero, ◌+◌, ◌/◌, ◌%◌, List, [], ◌∷◌, ◌++◌, Bool, true, false, not, Option, none, some,
  ◌&&◌, ◌||◌, leb, ◌==◌, if◌then◌else◌, add64, sub64, length,
}
use lori_os.LinkedList.{Place, to_list}
use lori_os.AddressSpace.{Region, finish, find_available, allocate_at}

-- What `VMObject` holds of the object itself.
pub record VmObject : Type 0 where
  pub size : ℕ
  pub ref_count : ℕ
  pub anonymous : Bool
  pub shared : Bool
  pub copy_on_write : Bool

pub data PageCall : Type 0 where
  map_blocks : ℕ → ℕ → PageCall
  unmap_pages : ℕ → ℕ → PageCall
  kernel_unmap_pages : ℕ → ℕ → PageCall

pub record Space : Type 0 where
  pub regions : List Region
  pub limit : ℕ
  pub kernel : Bool
  pub objects : ℕ → VmObject
  pub next_object : ℕ
  pub calls : List PageCall

abbrev pub update : (ℕ → VmObject) → ℕ → VmObject → ℕ → VmObject
update f o v p = if p == o then v else f p

abbrev pub retain : VmObject → VmObject
retain v = record v { ref_count = add64 v.ref_count 1 }

abbrev pub release : VmObject → VmObject
release v = record v { ref_count = sub64 v.ref_count 1 }

-- `vmObject->refCount--` where there is an object.
pub release_of : Region → (ℕ → VmObject) → ℕ → VmObject
release_of r f = elim r.object [ none ↦ f | some o ↦ update f o (release (f o)) ]

-- `PAGE_COUNT_4K`
abbrev pub page_count : ℕ → ℕ
page_count size = add64 size 4095 / 4096

abbrev pub is_aligned : ℕ → Bool
is_aligned n = n % 4096 == 0

-- How `MapVMO` and `AllocateAnonymousVMObject` choose the region: `some none` is the null pointer of
-- a fixed mapping that is refused, `none` the failed assertion.
pub choose_from :
    Option (Place Region) → Bool → Option (Place Region) → Option (Option (Place Region))
choose_from (some p) fixed found = some (some p)
choose_from none true found = some none
choose_from none false found = Option.map some found

pub choose : ℕ → ℕ → Bool → Space → Option (Option (Place Region))
unfolding choose_from
choose base size fixed s =
    choose_from (if base == 0 then none else allocate_at base size s.regions) fixed
      (find_available s.limit size s.regions)

abbrev pub attach : ℕ → Place Region → Place Region
attach o p = record p { item = record (p.item) { object = some o } }

-- the end of `MapVMO`, with `assert(region && region->Base())`
pub map_into : ℕ → Option (Place Region) → Space → Option (Option Region × Space)
map_into o none s = some (none, s)
map_into o (some p) s =
    if p.item.base == 0
    then none
    else some (
      some (attach o p).item,
      record s {
        regions = to_list (attach o p);
        objects = update s.objects o (retain (s.objects o));
        calls = s.calls ++ (map_blocks o p.item.base ∷ []);
      },
    )

pub map_vmo : ℕ → ℕ → Bool → Space → Option (Option Region × Space)
unfolding choose map_into
map_vmo o base fixed s =
    if is_aligned (s.objects o).size && is_aligned base
    then Option.bind (choose base (s.objects o).size fixed s) (λ place. map_into o place s)
    else none

abbrev pub anonymous_object : ℕ → VmObject
anonymous_object size = record {
  size = size;
  ref_count = 1;
  anonymous = true;
  shared = false;
  copy_on_write = false;
}

-- the end of `AllocateAnonymousVMObject`: the object is new
pub allocate_into : ℕ → Option (Place Region) → Space → Option (Option Region × Space)
allocate_into size none s = some (none, s)
allocate_into size (some p) s =
    if p.item.base == 0
    then none
    else some (
      some (attach s.next_object p).item,
      record s {
        regions = to_list (attach s.next_object p);
        objects = update s.objects s.next_object (anonymous_object size);
        next_object = suc s.next_object;
        calls = s.calls ++ (map_blocks s.next_object p.item.base ∷ []);
      },
    )

pub allocate_anonymous : ℕ → ℕ → Bool → Space → Option (Option Region × Space)
unfolding choose allocate_into
allocate_anonymous size base fixed s =
    if is_aligned size && is_aligned base
    then Option.bind (choose base size fixed s) (λ place. allocate_into size place s)
    else none

-- The search of `UnmapRegion`: the first region at `base`, and the others.
pub take_at : ℕ → List Region → Option (Region × List Region)
take_at base [] = none
take_at base (r ∷ rs) =
    let further = Option.map (λ (q, others). (q, r ∷ others)) (take_at base rs) in
    if r.base == base then some (r, rs) else further

pub unmap_call : Space → Region → PageCall
unmap_call s r =
    if s.kernel
    then kernel_unmap_pages r.base (page_count r.size)
    else unmap_pages r.base (page_count r.size)

-- `UnmapRegion`, with its result 0 or 1.
pub unmap_region : ℕ → Space → ℕ × Space
unfolding take_at unmap_call release_of
unmap_region base s = elim (take_at base s.regions) [
  | none ↦ (1, s)
  | some (r, others) ↦ (
    0,
    record s {
      regions = others;
      objects = release_of r s.objects;
      calls = s.calls ++ (unmap_call s r ∷ []);
    },
  )
]

-- `UnmapMemory` removes a region with no object, and one that lies within the range.
pub is_unmapped : ℕ → ℕ → Region → Bool
is_unmapped base end r = elim r.object [
  | none ↦ true
  | some o ↦ leb base r.base && leb r.base end && leb (finish r) end
]

-- One pass of its loop: the first region to remove, and the others.
pub unmap_pass : ℕ → ℕ → List Region → Option (Region × List Region)
unmap_pass base end [] = none
unmap_pass base end (r ∷ rs) =
    let further = Option.map (λ (q, others). (q, r ∷ others)) (unmap_pass base end rs) in
    if is_unmapped base end r then some (r, rs) else further

-- `goto retry` after each removal: `none` when the fuel runs out.
pub unmap_loop : ℕ → ℕ → ℕ → Space → Option Space
unmap_loop zero base size s = none
unmap_loop (suc fuel) base size s = elim (unmap_pass base (add64 base size) s.regions) [
  | none ↦ some s
  | some (r, others) ↦ unmap_loop fuel base size (record s {
    regions = others;
    objects = release_of r s.objects;
    calls = s.calls ++ (unmap_pages base (page_count size) ∷ []);
  })
]

pub unmap_memory : ℕ → ℕ → Space → Option Space
unfolding unmap_loop unmap_pass is_unmapped release_of
unmap_memory base size s = unmap_loop (length s.regions + 1) base size s

-- What `Fork` does to the object of a region: one more reference, and copy on write unless it is
-- shared.
abbrev pub fork_object : VmObject → VmObject
fork_object v = if v.shared then retain v else record (retain v) { copy_on_write = true }

-- The loop of `Fork` over the regions; a region with no object is a null pointer that is followed.
pub fork_objects : List Region → (ℕ → VmObject) → Option (ℕ → VmObject)
fork_objects [] f = some f
fork_objects (r ∷ rs) f = elim r.object [
  | none ↦ none
  | some o ↦ fork_objects rs (update f o (fork_object (f o)))
]

-- the regions of the new address space, and the objects
pub fork : Space → Option (List Region × (ℕ → VmObject))
unfolding fork_objects
fork s = Option.map (λ f. (s.regions, f)) (fork_objects s.regions s.objects)
