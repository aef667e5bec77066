-- ===== src/PhysicalAllocator.antt =====
-- Kernel/src/Arch/x86_64/PhysicalAllocator.cpp: the bitmap of physical 4 KiB blocks, 32 to a word.
-- The lock is held for the whole of an allocation; running out of memory is a panic, `none`.
pub mod Blocks
pub mod Scan
pub mod Allocate
mod Tests
use mathlib.Core.Option
use lori_os.Prelude.{
  ℕ, zero, suc, ◌+◌, ◌-◌, ◌*◌, ◌/◌, ◌%◌, List, [], ◌∷◌, Bool, Option, none, some, ltb, ◌==◌,
  if◌then◌else◌, length, get_or, set, replicate, add64, sub64, add32, word32, ones32, test_bit,
  set_bit, clear_bit,
}

pub record Allocator : Type 0 where
  pub bitmap : List ℕ
  pub used_blocks : ℕ
  pub max_blocks : ℕ
  pub next_chunk : ℕ

abbrev pub bitmap_words : ℕ
bitmap_words = 524488

-- `InitializePhysicalAllocator`: all blocks are used until the memory map frees some.
pub init : ℕ → Allocator
init words = record {
  bitmap = replicate words ones32;
  used_blocks = words * 32;
  max_blocks = words * 32;
  next_chunk = 1;
}

-- `SetBit`, `ClearBit` and `TestBit`; a word past the bitmap reads as used.
abbrev pub word_at : List ℕ → ℕ → ℕ
word_at ws i = get_or ws i ones32

pub set_block : List ℕ → ℕ → List ℕ
set_block ws b = set ws (b / 32) (set_bit (word_at ws (b / 32)) (b % 32))

pub clear_block : List ℕ → ℕ → List ℕ
clear_block ws b = set ws (b / 32) (clear_bit (word_at ws (b / 32)) (b % 32))

pub is_used : List ℕ → ℕ → Bool
is_used ws b = test_bit (word_at ws (b / 32)) (b % 32)

-- The loop over the bits of a word, with `n` of them left from `j` on.
pub free_bit : ℕ → ℕ → ℕ → Option ℕ
free_bit w zero j = none
free_bit w (suc n) j =
    let further = free_bit w n (j + 1) in if test_bit w j then further else some j

-- The loop over the words: `n` are left from `i` on. A found block comes as its word and bit.
pub scan : List ℕ → ℕ → ℕ → Option (ℕ × ℕ)
unfolding free_bit
scan ws zero i = none
scan ws (suc n) i =
    let further = scan ws n (i + 1) in
    let hit = free_bit (word_at ws i) 32 0 in
    if word_at ws i == ones32 then further else elim hit [ some j ↦ some (i, j) | none ↦ further ]

abbrev pub first_chunk : Allocator → ℕ
first_chunk s = if s.next_chunk == 0 then 1 else s.next_chunk

-- The block and the new hint, from a word and a bit of it: `(i << 5) + j` in 32 bits.
abbrev pub found : ℕ × ℕ → ℕ × ℕ
found (i, j) = (word32 (word32 (i * 32) + j), i)

-- `GetFirstFreeMemoryBlock`: from the hint on, then from word 1 on; 0 where there is none. The
-- second component is the new hint.
pub first_free : Allocator → ℕ × ℕ
unfolding scan
first_free s =
    let words = s.max_blocks / 32 in
    elim (scan s.bitmap (words - first_chunk s) (first_chunk s)) [
      | some x ↦ found x
      | none ↦ elim (scan s.bitmap (words - 1) 1) [ some x ↦ found x | none ↦ (0, first_chunk s) ]
    ]

-- `AllocatePhysicalMemoryBlock`: the address of the block.
pub allocate : Allocator → Option (ℕ × Allocator)
unfolding first_free
allocate s =
    let (index, hint) = first_free s in
    if index == 0
    then none
    else some (
      index * 4096,
      record s {
        bitmap = set_block s.bitmap index;
        used_blocks = add64 s.used_blocks 1;
        next_chunk = hint;
      },
    )

-- `FreePhysicalMemoryBlock`, with the assertion that the block is not block 0.
pub free : ℕ → Allocator → Option Allocator
free addr s =
    let index = addr / 4096 in
    if index == 0
    then none
    else some (record s {
      bitmap = clear_block s.bitmap index;
      used_blocks = sub64 s.used_blocks 1;
      next_chunk = if ltb (index / 32) s.next_chunk then index / 32 else s.next_chunk;
    })

-- The loops of `MarkMemoryRegionUsed` and `MarkMemoryRegionFree`, with `n` blocks left from `b` on:
-- both counters are a `uint32_t`.
pub set_blocks : ℕ → ℕ → List ℕ → List ℕ
set_blocks zero b ws = ws
set_blocks (suc n) b ws = set_blocks n (add32 b 1) (set_block ws b)

pub clear_blocks : ℕ → ℕ → List ℕ → List ℕ
clear_blocks zero b ws = ws
clear_blocks (suc n) b ws = clear_blocks n (add32 b 1) (clear_block ws b)

abbrev pub blocks_in : ℕ → ℕ
blocks_in size = word32 (add64 size 4095 / 4096)

pub mark_used : ℕ → ℕ → Allocator → Allocator
unfolding set_blocks
mark_used base size s = record s {
  bitmap = set_blocks (blocks_in size) (word32 (base / 4096)) s.bitmap;
  used_blocks = add64 s.used_blocks (blocks_in size);
}

pub mark_free : ℕ → ℕ → Allocator → Allocator
unfolding clear_blocks
mark_free base size s = record s {
  bitmap = clear_blocks (blocks_in size) (word32 (base / 4096)) s.bitmap;
  used_blocks = sub64 s.used_blocks (blocks_in size);
}

-- The loop of `FreeLargePhysicalMemoryBlock`, whose counters are 64 bits wide: 512 blocks, 2 MiB.
pub clear_large : ℕ → ℕ → List ℕ → List ℕ
clear_large zero b ws = ws
clear_large (suc n) b ws = clear_large n (add64 b 1) (clear_block ws b)

pub free_large : ℕ → Allocator → Allocator
unfolding clear_large
free_large addr s = record s {
  bitmap = clear_large 512 (addr / 4096) s.bitmap;
  used_blocks = sub64 s.used_blocks 512;
}
