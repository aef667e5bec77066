-- ===== src/PhysicalAllocator/Allocate.antt =====
-- An allocation takes a free block, and fails only where none is left.
use lori_os.Prelude.{
  Option, ℕ, ◌+◌, ◌-◌, ◌*◌, ◌/◌, ◌%◌, ◌^◌, ◌≤◌, ◌<◌, ◌≡◌, ◌⊎◌, refl, sym, ap, ◌∙◌, length, Bool,
  true, false, none, some, arith, ltb, ◌==◌, ◌||◌, not, ◌&&◌, Bool-cases, Option-cases, inl, inr,
  if◌then◌else◌, add64, sub64, word32, subst, ==_iff, suc, zero,
}
use lori_os.PhysicalAllocator.{
  set_block, clear_block, Allocator, is_used, scan, first_chunk, found, first_free, allocate, free,
}
use lori_os.PhysicalAllocator.Scan.{IsHit, scan-IsHit, scan-none}
use lori_os.PhysicalAllocator.Blocks.{
  is_used-set_block, is_used-clear_block, length-set_block, length-clear_block,
}

-- The number of places below `n` where `p` holds.
unfoldable pub count : ℕ → (ℕ → Bool) → ℕ
count zero p = 0
count (suc n) p = (if p n then 1 else 0) + count n p

count-le : (n : ℕ) (p : ℕ → Bool) → count n p ≤ n
unfolding count
count-le zero p = omega arith
count-le (suc n) p = ground (arith, count-le n p)

count_same : (n : ℕ) (p q : ℕ → Bool) → ((i : ℕ) → i < n → q i ≡ p i) → count n q ≡ count n p
unfolding count
count_same zero p q h = refl
count_same (suc n) p q h =
    ground (arith, h n (omega arith), count_same n p q (λ i k. h i (omega arith)))

-- One more place.
count_added :
    (n b : ℕ) (p q : ℕ → Bool)
    → ((i : ℕ) → q i ≡ (i == b) || p i)
    → p b ≡ false
    → b < n
    → count n q ≡ suc (count n p)
unfolding count
count_added zero b p q h f k = absurd (omega arith)
count_added (suc n) b p q h f k = elim (Bool-cases (n == b)) [
  | inl e ↦
      let e' : n ≡ b = (==_iff n b).0 e in
      ground (arith, h n, count_same n p q (λ i l. h i ∙ ground arith), ap p e')
  | inr e ↦ ground (arith, h n, count_added n b p q h f (ground arith))
]

-- The bitmap has the declared size, with 32-bit block numbers; the hint lies in it; and
-- `used_blocks` counts the used blocks.
pub record IsValid (s : Allocator) : Type 0 where
  pub words : s.max_blocks ≡ 32 * length s.bitmap
  pub small : 32 * length s.bitmap < 2 ^ 32
  pub hint_small : s.next_chunk < length s.bitmap
  pub counted : s.used_blocks ≡ count s.max_blocks (is_used s.bitmap)

-- The block number that `first_free` gives for a hit.
found-IsHit :
    (s : Allocator) (n low : ℕ) (x : ℕ × ℕ)
    → 32 * length s.bitmap < 2 ^ 32
    → 0 < low
    → low + n ≤ length s.bitmap
    → IsHit s.bitmap n low x
    → let (b, w) = found x in
      (32 ≤ b) × (b < 32 * length s.bitmap) × (w ≡ b / 32) × (is_used s.bitmap b ≡ false)
unfolding is_used
found-IsHit s n low (i, j) small pos range hit =
    let b : word32 (word32 (i * 32) + j) ≡ i * 32 + j =
      omega (arith, hit.word_high, hit.bit_high) in
    let word : (i * 32 + j) / 32 ≡ i = omega (arith, hit.bit_high) in
    let bit : (i * 32 + j) % 32 ≡ j = omega (arith, hit.bit_high) in
    (
      omega (arith, b, hit.word_low),
      omega (arith, b, hit.word_high, hit.bit_high),
      omega (arith, b, word),
      rw (b, word, bit) hit.is_free,
    )

-- No block is free but in the reserved word 0, or the block and the new hint are those of a free
-- block.
Outcome : Allocator → ℕ × ℕ → Type 0
Outcome s (b, w) =
    ((b ≡ 0) × ((i : ℕ) → 32 ≤ i → i < s.max_blocks → is_used s.bitmap i ≡ true))
    ⊎ ((32 ≤ b) × (b < 32 * length s.bitmap) × (w ≡ b / 32) × (is_used s.bitmap b ≡ false))

first_free-Outcome : (s : Allocator) → IsValid s → Outcome s (first_free s)
unfolding first_free Outcome is_used
first_free-Outcome s v =
    elim (Option-cases (scan s.bitmap (s.max_blocks / 32 - first_chunk s) (first_chunk s))) [
      | inr (x, hit) ↦
          let e : first_free s ≡ found x = ground (arith, hit) in
          subst (Outcome s) (sym e) (
            inr (
              found-IsHit s _ _ x v.small (ground arith) (ground (arith, v.hint_small, v.words))
                (scan-IsHit s.bitmap _ _ x hit)))
      | inl miss ↦ elim (Option-cases (scan s.bitmap (s.max_blocks / 32 - 1) 1)) [
        | inr (x, hit) ↦
            let e : first_free s ≡ found x = ground (arith, miss, hit) in
            subst (Outcome s) (sym e) (
              inr (
                found-IsHit s _ _ x v.small (omega arith) (omega (arith, v.hint_small, v.words))
                  (scan-IsHit s.bitmap _ _ x hit)))
        | inl miss' ↦
            let e : first_free s ≡ (0, first_chunk s) = ground (arith, miss, miss') in
            subst (Outcome s) (sym e) (
              inl (
                refl,
                λ i a b.
                    scan-none s.bitmap (s.max_blocks / 32 - 1) 1 (i / 32) (i % 32) miss'
                      (omega arith) (omega arith) (omega arith),
              ))
      ]
    ]

-- What an allocation does: it fails where no block but those of word 0 is free, and else makes a
-- free block used and no other, and keeps the count.
pub Allocated : Allocator → Option (ℕ × Allocator) → Type 0
Allocated s none = (i : ℕ) → 32 ≤ i → i < s.max_blocks → is_used s.bitmap i ≡ true
Allocated s (some (addr, t)) =
    (b : ℕ) × (addr ≡ b * 4096)
    × (32 ≤ b)
    × (b < s.max_blocks)
    × (is_used s.bitmap b ≡ false)
    × ((i : ℕ) → is_used t.bitmap i ≡ (i == b) || is_used s.bitmap i)
    × (t.max_blocks ≡ s.max_blocks)
    × (t.used_blocks ≡ s.used_blocks + 1)
    × IsValid t

-- The state after an allocation is well-formed.
taken-IsValid :
    (s : Allocator) (b : ℕ)
    → IsValid s
    → b < 32 * length s.bitmap
    → is_used s.bitmap b ≡ false
    → IsValid (record s {
      bitmap = set_block s.bitmap b;
      used_blocks = add64 s.used_blocks 1;
      next_chunk = b / 32;
    })
taken-IsValid s b v h f =
    let more =
      count_added s.max_blocks b (is_used s.bitmap) (is_used (set_block s.bitmap b))
        (λ i. is_used-set_block s.bitmap b i (omega arith)) f (omega (arith, v.words)) in
    record {
      words = omega (arith, v.words, length-set_block s.bitmap b);
      small = omega (arith, v.small, length-set_block s.bitmap b);
      hint_small = omega (arith, length-set_block s.bitmap b);
      counted =
          omega
            (arith, v.counted, v.words, v.small, more, count-le s.max_blocks (is_used s.bitmap));
    }

-- `AllocatePhysicalMemoryBlock` on a well-formed allocator: it is out of memory only if every block
-- from block 32 on is used; else it returns the address of a block, 32 or above, that was free, makes
-- that block used and no other, counts it, and leaves the allocator well-formed.
pub allocate-Allocated : (s : Allocator) → IsValid s → Allocated s (allocate s)
unfolding allocate Allocated Outcome
allocate-Allocated s v = elim (first_free-Outcome s v) [
  | inl (e, full) ↦ subst (Allocated s) {x = none} (ground (arith, e)) full
  | inr (low, high, hint, f) ↦
      subst (Allocated s)
        {x = some (
          (first_free s).0 * 4096,
          record s {
            bitmap = set_block s.bitmap (first_free s).0;
            used_blocks = add64 s.used_blocks 1;
            next_chunk = (first_free s).1;
          },
        )}
        (ground arith)
        (
          (first_free s).0,
          refl,
          low,
          omega (arith, v.words),
          f,
          λ i. is_used-set_block s.bitmap (first_free s).0 i (omega arith),
          refl,
          omega (arith, v.counted, v.words, v.small, count-le s.max_blocks (is_used s.bitmap)),
          rw hint (taken-IsValid s (first_free s).0 v high f),
        )
]

-- What freeing the used block `b` gives.
pub Freed : Allocator → ℕ → Allocator → Type 0
Freed s b t =
    ((i : ℕ) → is_used t.bitmap i ≡ not (i == b) && is_used s.bitmap i)
    × (t.used_blocks + 1 ≡ s.used_blocks)
    × IsValid t

-- `FreePhysicalMemoryBlock` of a used block other than block 0, on a well-formed allocator: it
-- passes its assertion, makes that block free and no other, takes it from the count, and leaves the
-- allocator well-formed.
pub free-Freed :
    (addr : ℕ) (s : Allocator)
    → IsValid s
    → 4096 ≤ addr
    → addr / 4096 < s.max_blocks
    → is_used s.bitmap (addr / 4096) ≡ true
    → (t : Allocator) × (free addr s ≡ some t) × Freed s (addr / 4096) t
unfolding free Freed
free-Freed addr s v pos range used =
    let b : ℕ = addr / 4096 in
    let same : (i : ℕ) → is_used (clear_block s.bitmap b) i ≡ not (i == b) && is_used s.bitmap i =
      λ i. is_used-clear_block s.bitmap b i (omega (arith, v.words)) in
    let fewer : count s.max_blocks (is_used s.bitmap)
        ≡ suc (count s.max_blocks (is_used (clear_block s.bitmap b))) =
      count_added s.max_blocks b (is_used (clear_block s.bitmap b)) (is_used s.bitmap)
        (λ i. ground (arith, same i, ap (is_used s.bitmap) {x = i} {y = b})) (same b ∙ ground arith)
        range in
    let t : Allocator = record s {
      bitmap = clear_block s.bitmap b;
      used_blocks = sub64 s.used_blocks 1;
      next_chunk = if ltb (b / 32) s.next_chunk then b / 32 else s.next_chunk;
    } in
    (
      t,
      ground arith,
      (
        same,
        omega (arith, fewer, v.counted, v.small, v.words, count-le s.max_blocks (is_used s.bitmap)),
        record {
          words = omega (arith, v.words, length-clear_block s.bitmap b);
          small = omega (arith, v.small, length-clear_block s.bitmap b);
          hint_small = ground (arith, length-clear_block s.bitmap b, v.hint_small, v.words);
          counted =
              omega (
                arith,
                v.counted,
                v.words,
                v.small,
                fewer,
                count-le s.max_blocks (is_used s.bitmap),
              );
        },
      ),
    )

-- On a well-formed allocator, a block that `AllocatePhysicalMemoryBlock` returned can be freed, and
-- then the same blocks are used as before, and as many.
pub free-allocate :
    (s t : Allocator) (addr : ℕ)
    → IsValid s
    → allocate s ≡ some (addr, t)
    → (u : Allocator) × (free addr t ≡ some u)
      × ((i : ℕ) → is_used u.bitmap i ≡ is_used s.bitmap i)
      × (u.used_blocks ≡ s.used_blocks)
unfolding Allocated Freed
free-allocate s t addr v h =
    let (b, e, low, high, f, same, m, n, w) = subst (Allocated s) h (allocate-Allocated s v) in
    let block : addr / 4096 ≡ b = omega arith in
    let (u, freed, (back, fewer, x)) =
      free-Freed addr t w (omega arith) (omega arith)
        (ap (is_used t.bitmap) block ∙ same b ∙ ground arith) in
    (
      u,
      freed,
      (λ i. back i ∙ ground (arith, same i, block, f, ap (is_used s.bitmap) {x = i} {y = b})),
      omega arith,
    )
