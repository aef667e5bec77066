-- ===== src/PhysicalAllocator/Tests.antt =====
-- Tests of the physical allocator, on a bitmap of two words.
use lori_os.Prelude.{
  ℕ, ◌≡◌, refl, [], ◌∷◌, true, some, arith, not, ◌&&◌, ◌||◌, ones32, test_bit, set_bit, replicate,
  ◌/◌, ◌*◌,
}
use lori_os.PhysicalAllocator.{
  Allocator, init, is_used, allocate, free, mark_used, mark_free, free_large, first_free, scan,
  free_bit, set_block,
}
use lori_os.PhysicalAllocator.Blocks.{in_blocks, mark-Marked, free_large-Freed}
use lori_os.PhysicalAllocator.Allocate.{
  IsValid, Allocated, Freed, count, allocate-Allocated, free-Freed, free-allocate,
}

-- Block 33 is free.
abbrev one_free : Allocator
one_free = record {
  bitmap = ones32 ∷ 0xffff_fffd ∷ [];
  used_blocks = 63;
  max_blocks = 64;
  next_chunk = 0;
}

abbrev none_left : Allocator
none_left = record {
  bitmap = ones32 ∷ ones32 ∷ [];
  used_blocks = 64;
  max_blocks = 64;
  next_chunk = 1;
}

one_free-IsValid : IsValid one_free
unfolding count is_used test_bit
one_free-IsValid = record {
  words = refl;
  small = omega arith;
  hint_small = omega arith;
  counted = refl;
}

none_left-IsValid : IsValid none_left
unfolding count is_used test_bit
none_left-IsValid = record {
  words = refl;
  small = omega arith;
  hint_small = omega arith;
  counted = refl;
}

init_test : init 2 ≡ none_left
unfolding init
init_test = refl

one_free_taken : allocate one_free ≡ some (33 * 4096, none_left)
unfolding allocate first_free scan free_bit set_block test_bit set_bit
one_free_taken = refl

allocate-Allocated_example : Allocated none_left (allocate none_left)
allocate-Allocated_example = allocate-Allocated none_left none_left-IsValid

block_33 : is_used none_left.bitmap (135168 / 4096) ≡ true
unfolding is_used test_bit
block_33 = refl

free-Freed_test : (t : Allocator) × (free 135168 none_left ≡ some t) × Freed none_left 33 t
free-Freed_test = free-Freed 135168 none_left none_left-IsValid (omega arith) (omega arith) block_33

free-allocate_example :
    (u : Allocator) × (free 135168 none_left ≡ some u)
    × ((i : ℕ) → is_used u.bitmap i ≡ is_used one_free.bitmap i)
    × (u.used_blocks ≡ 63)
free-allocate_example = free-allocate one_free none_left 135168 one_free-IsValid one_free_taken

mark-Marked_test :
    (is_used (mark_used 135168 5000 one_free).bitmap 34
      ≡ in_blocks 2 33 34 || is_used one_free.bitmap 34)
    × (is_used (mark_free 135168 5000 one_free).bitmap 34
        ≡ not (in_blocks 2 33 34) && is_used one_free.bitmap 34)
mark-Marked_test = mark-Marked 135168 5000 34 one_free (omega arith, omega arith)

-- Sixteen words, all of them used.
abbrev big : Allocator
big = record { bitmap = replicate 17 ones32; used_blocks = 544; max_blocks = 544; next_chunk = 1 }

free_large-Freed_test :
    is_used (free_large 131072 big).bitmap 40 ≡ not (in_blocks 512 32 40) && is_used big.bitmap 40
free_large-Freed_test = free_large-Freed 131072 40 big (omega arith) (omega arith)
