-- ===== src/PhysicalAllocator/Blocks.antt =====
-- The bitmap as a set of used blocks.
use lori_os.Prelude.{
  ◌∙◌, word32, add32, add64, ◌^◌, ℕ, zero, suc, ◌+◌, ◌*◌, ◌/◌, ◌%◌, ◌≤◌, ◌<◌, ◌≡◌, List, [], ◌∷◌,
  Bool, not, ◌&&◌, ◌||◌, arith, leb, ltb, ◌==◌, if◌then◌else◌, length, get_or, set, length-set,
  ones32, set_bit, clear_bit, test_bit-set_bit, test_bit-clear_bit,
}
use lori_os.PhysicalAllocator.{
  Allocator, word_at, set_block, clear_block, is_used, set_blocks, clear_blocks, mark_used,
  mark_free, free_large, blocks_in, clear_large,
}

get_or-set :
    (ws : List ℕ) (i j v d : ℕ)
    → i < length ws
    → get_or (set ws i v) j d ≡ (if j == i then v else get_or ws j d)
get_or-set [] i j v d h = absurd (omega arith)
get_or-set (w ∷ ws) zero zero v d h = ground arith
get_or-set (w ∷ ws) zero (suc j) v d h = ground arith
get_or-set (w ∷ ws) (suc i) zero v d h = ground arith
get_or-set (w ∷ ws) (suc i) (suc j) v d h = ground (arith, get_or-set ws i j v d)

-- One block becomes used, and no other changes.
pub is_used-set_block :
    (ws : List ℕ) (b i : ℕ)
    → b / 32 < length ws
    → is_used (set_block ws b) i ≡ (i == b) || is_used ws i
unfolding is_used set_block
is_used-set_block ws b i h = ground (
  arith,
  get_or-set ws (b / 32) (i / 32) (set_bit (word_at ws (b / 32)) (b % 32)) ones32,
  test_bit-set_bit (word_at ws (b / 32)) (i % 32) (b % 32),
)

pub is_used-clear_block :
    (ws : List ℕ) (b i : ℕ)
    → b / 32 < length ws
    → is_used (clear_block ws b) i ≡ not (i == b) && is_used ws i
unfolding is_used clear_block
is_used-clear_block ws b i h = ground (
  arith,
  get_or-set ws (b / 32) (i / 32) (clear_bit (word_at ws (b / 32)) (b % 32)) ones32,
  test_bit-clear_bit (word_at ws (b / 32)) (i % 32) (b % 32),
)

pub length-set_block : (ws : List ℕ) (b : ℕ) → length (set_block ws b) ≡ length ws
unfolding set_block
length-set_block ws b = length-set ws (b / 32) _

pub length-clear_block : (ws : List ℕ) (b : ℕ) → length (clear_block ws b) ≡ length ws
unfolding clear_block
length-clear_block ws b = length-set ws (b / 32) _

-- Block `i` is one of the `n` blocks from `b` on.
abbrev pub in_blocks : ℕ → ℕ → ℕ → Bool
in_blocks n b i = leb b i && ltb i (b + n)

is_used-set_blocks :
    (n b i : ℕ) (ws : List ℕ)
    → b + n ≤ 32 * length ws
    → 32 * length ws < 2 ^ 32
    → is_used (set_blocks n b ws) i ≡ in_blocks n b i || is_used ws i
unfolding set_blocks
is_used-set_blocks zero b i ws h k = ground arith
is_used-set_blocks (suc n) b i ws h k =
    is_used-set_blocks n (add32 b 1) i (set_block ws b) (omega (arith, length-set_block ws b))
      (omega (arith, length-set_block ws b))
    ∙ ground (arith, is_used-set_block ws b i (omega arith))

is_used-clear_blocks :
    (n b i : ℕ) (ws : List ℕ)
    → b + n ≤ 32 * length ws
    → 32 * length ws < 2 ^ 32
    → is_used (clear_blocks n b ws) i ≡ not (in_blocks n b i) && is_used ws i
unfolding clear_blocks
is_used-clear_blocks zero b i ws h k = ground arith
is_used-clear_blocks (suc n) b i ws h k =
    is_used-clear_blocks n (add32 b 1) i (clear_block ws b) (omega (arith, length-clear_block ws b))
      (omega (arith, length-clear_block ws b))
    ∙ ground (arith, is_used-clear_block ws b i (omega arith))

is_used-clear_large :
    (n b i : ℕ) (ws : List ℕ)
    → b + n ≤ 32 * length ws
    → 32 * length ws < 2 ^ 32
    → is_used (clear_large n b ws) i ≡ not (in_blocks n b i) && is_used ws i
unfolding clear_large
is_used-clear_large zero b i ws h k = ground arith
is_used-clear_large (suc n) b i ws h k =
    is_used-clear_large n (add64 b 1) i (clear_block ws b) (omega (arith, length-clear_block ws b))
      (omega (arith, length-clear_block ws b))
    ∙ ground (arith, is_used-clear_block ws b i (omega arith))

-- The range lies in the bitmap.
abbrev pub Covered : ℕ → ℕ → Allocator → Type 0
Covered base size s =
    (base / 4096 + (size + 4095) / 4096 ≤ 32 * length s.bitmap) × (32 * length s.bitmap < 2 ^ 32)

-- For a range that lies in the bitmap: `MarkMemoryRegionUsed` makes the blocks of the range used,
-- `MarkMemoryRegionFree` makes them free, and both leave every other block as it is.
pub mark-Marked :
    (base size i : ℕ) (s : Allocator)
    → Covered base size s
    → (is_used (mark_used base size s).bitmap i
        ≡ in_blocks ((size + 4095) / 4096) (base / 4096) i || is_used s.bitmap i)
      × (is_used (mark_free base size s).bitmap i
          ≡ not (in_blocks ((size + 4095) / 4096) (base / 4096) i) && is_used s.bitmap i)
unfolding mark_used mark_free
mark-Marked base size i s (h, k) =
    let n : blocks_in size ≡ (size + 4095) / 4096 = omega arith in
    let b : word32 (base / 4096) ≡ base / 4096 = omega arith in
    (
      rw (n, b) (is_used-set_blocks ((size + 4095) / 4096) (base / 4096) i s.bitmap h k),
      rw (n, b) (is_used-clear_blocks ((size + 4095) / 4096) (base / 4096) i s.bitmap h k),
    )

-- `FreeLargePhysicalMemoryBlock` frees the 512 blocks from the address on and no other, where they
-- lie in the bitmap.
pub free_large-Freed :
    (addr i : ℕ) (s : Allocator)
    → addr / 4096 + 512 ≤ 32 * length s.bitmap
    → 32 * length s.bitmap < 2 ^ 32
    → is_used (free_large addr s).bitmap i
      ≡ not (in_blocks 512 (addr / 4096) i) && is_used s.bitmap i
unfolding free_large
free_large-Freed addr i s h k = is_used-clear_large 512 (addr / 4096) i s.bitmap h k
