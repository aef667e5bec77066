-- ===== src/Kmalloc.antt =====
-- Kernel/src/Memory/KMalloc.cpp hands out blocks of the slab allocator `frg`, which is not part of
-- the repository. A client takes it as this interface: a fresh block of `n` elements has `n`
-- elements, of unknown content, and does not fail (`kmalloc` panics when memory runs out).
use lori_os.Prelude.{ℕ, ◌≡◌, List, length, replicate, length-replicate}

pub record Kmalloc : Type 0 where
  pub block : ℕ → List ℕ
  pub length-block : (n : ℕ) → length (block n) ≡ n

-- An allocator that clears its blocks.
abbrev pub zeroed : Kmalloc
zeroed = record { block = λ n. replicate n 0; length-block = λ n. length-replicate n 0 }
