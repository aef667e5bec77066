-- ===== src/AddressSpace/Space/Tests.antt =====
-- Tests of the operations of `AddressSpace` that map and unmap VM objects.
use lori_os.Prelude.{ℕ, ◌+◌, ◌≡◌, ◌≢◌, refl, List, [], ◌∷◌, true, false, some, arith}
use mathlib.Core.Option
use lori_os.LinkedList.{add_back}
use lori_os.AddressSpace.{Region, find_available, allocate_from, allocate_at}
use lori_os.AddressSpace.Space.{
  VmObject, Space, map_vmo, allocate_anonymous, unmap_region, unmap_memory, fork, anonymous_object,
  update, retain, map_blocks,
}
use lori_os.AddressSpace.Space.Count.{
  Balance, Counted, refs, map_vmo-Balance, allocate_anonymous-Balance,
}
use lori_os.AddressSpace.Space.Unmap.{
  Unmapped, Cleared, unmap_region-Unmapped, unmap_memory-Cleared,
}
use lori_os.AddressSpace.Space.Fork.{Forked, fork-Forked}

abbrev at : ℕ → ℕ → ℕ → Region
at base size o = record { base = base; size = size; object = some o }

abbrev two_regions : List Region
two_regions = at 0x1000 0x1000 0 ∷ at 0x5000 0x1000 1 ∷ []

abbrev limit : ℕ
limit = 0xffff_ffff_8000_0000

abbrev page_object : VmObject
page_object = record {
  size = 0x1000;
  ref_count = 1;
  anonymous = false;
  shared = false;
  copy_on_write = false;
}

-- Objects 0 and 1 are held once each.
abbrev two_mapped : Space
two_mapped = record {
  regions = two_regions;
  limit = limit;
  kernel = false;
  objects = λ o. page_object;
  next_object = 2;
  calls = [];
}

two_mapped-Counted : Counted two_mapped
two_mapped-Counted o = (ground arith, omega arith)

-- Object 0 mapped once more, at an address of the caller's choice.
abbrev new_region : Region
new_region = at 0x8000 0x1000 0

abbrev mapped_again : Space
mapped_again = record two_mapped {
  regions = at 0x1000 0x1000 0 ∷ at 0x5000 0x1000 1 ∷ new_region ∷ [];
  objects = update two_mapped.objects 0 (retain (two_mapped.objects 0));
  calls = map_blocks 0 0x8000 ∷ [];
}

map_vmo-Balance_test :
    Balance two_mapped mapped_again
    × (new_region.object ≡ some 0)
    × (refs 0 mapped_again.regions ≡ refs 0 two_mapped.regions + 1)
unfolding map_vmo allocate_at allocate_from find_available add_back Option.bind
map_vmo-Balance_test =
    map_vmo-Balance 0 0x8000 true two_mapped mapped_again new_region two_mapped-Counted refl

abbrev anonymous_region : Region
anonymous_region = at 0x8000 0x2000 2

abbrev with_anonymous : Space
with_anonymous = record two_mapped {
  regions = at 0x1000 0x1000 0 ∷ at 0x5000 0x1000 1 ∷ anonymous_region ∷ [];
  objects = update two_mapped.objects 2 (anonymous_object 0x2000);
  next_object = 3;
  calls = map_blocks 2 0x8000 ∷ [];
}

allocate_anonymous-Balance_test :
    (anonymous_region.object ≡ some 2)
    × (with_anonymous.objects 2 ≡ anonymous_object 0x2000)
    × (refs 2 with_anonymous.regions ≡ 1)
    × ((q : ℕ)
        → q ≢ 2
        → (with_anonymous.objects q ≡ two_mapped.objects q)
          × (refs q with_anonymous.regions ≡ refs q two_mapped.regions))
unfolding allocate_anonymous allocate_at allocate_from find_available add_back Option.bind
allocate_anonymous-Balance_test =
    allocate_anonymous-Balance 0x2000 0x8000 true two_mapped with_anonymous anonymous_region refl
      refl

unmap_region-Unmapped_test : Unmapped 0x5000 two_mapped (unmap_region 0x5000 two_mapped)
unmap_region-Unmapped_test = unmap_region-Unmapped 0x5000 two_mapped two_mapped-Counted

unmap_memory-Cleared_example :
    (t : Space) × (unmap_memory 0x4000 0x3000 two_mapped ≡ some t)
    × Cleared 0x4000 0x7000 two_mapped t
unmap_memory-Cleared_example = unmap_memory-Cleared 0x4000 0x3000 two_mapped two_mapped-Counted

fork-Forked_test :
    (g : ℕ → VmObject) × (fork two_mapped ≡ some (two_regions, g))
    × ((o : ℕ) → Forked two_regions two_mapped.objects g o)
fork-Forked_test = fork-Forked two_mapped (λ e. cc, (λ e. cc, tt)) (λ o. ground arith)
