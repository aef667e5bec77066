-- ===== src/TmpFs/File.antt =====
-- The buffer of a file, and what `ReallocateNode` keeps of it.
use lori_os.Prelude.{
  ℕ, ◌+◌, ◌-◌, ◌^◌, ◌≤◌, ◌<◌, ◌≡◌, refl, sym, ◌∙◌, List, true, false, Option, none, some, ltb, ◌==◌,
  if◌then◌else◌, length, copy_to, slice, drop, word32, arith, min, get_elem?, length-copy_to,
  length-take, length-drop, elements, Bool-cases, inl, inr,
}
use mathlib.Core.Option
use lori_os.Kmalloc.{Kmalloc}
use lori_os.TmpFs.{
  Node, load, store, bytes_of, is_null, chunked, charged, copy_block, resized, reallocate,
}

-- The buffer has its recorded size, and the file fits in it.
unfoldable pub Fits : Option (List ℕ) → ℕ → ℕ → Type 0
Fits none size room = (size ≡ 0) × (room ≡ 0)
Fits (some b) size room = (length b ≡ room) × (size ≤ room) × (room < 2 ^ 32)

pub record IsFile (n : Node) : Type 0 where
  pub not_dir : n.is_dir ≡ false
  pub fits : Fits n.buffer n.size n.buffer_size

-- Byte `i` of the buffer.
abbrev pub byte_at : Node → ℕ → Option ℕ
byte_at n i = get_elem? (bytes_of n.buffer) i

pub Fits-bytes :
    (b : Option (List ℕ)) (size room : ℕ)
    → Fits b size room
    → (length (bytes_of b) ≡ room) × (size ≤ room) × (room < 2 ^ 32)
unfolding Fits
Fits-bytes none size room (e, f) = (sym f, omega arith, omega arith)
Fits-bytes (some b) size room f = f

pub Fits-room :
    (b : Option (List ℕ)) (size other room : ℕ)
    → Fits b size room
    → other ≤ room
    → Fits b other room
unfolding Fits
Fits-room none size other room (e, f) le = (omega arith, f)
Fits-room (some b) size other room (e, f, g) le = (e, le, g)

pub Fits-null :
    (b : Option (List ℕ)) (size room : ℕ)
    → Fits b size room
    → is_null b ≡ true
    → (size ≡ 0) × (room ≡ 0)
unfolding Fits
Fits-null none size room f e = f
Fits-null (some b) size room f e = cc

pub load-some : (b : List ℕ) (off n : ℕ) → off + n ≤ length b → load b off n ≡ some (slice off n b)
unfolding load
load-some b off n h = ground arith

pub store-some :
    (off : ℕ) (src b : List ℕ)
    → off + length src ≤ length b
    → store off src b ≡ some (copy_to off src b)
unfolding store
store-some off src b h = ground arith

pub length-slice : (off n : ℕ) (b : List ℕ) → off + n ≤ length b → length (slice off n b) ≡ n
length-slice off n b h = omega (arith, length-take n (drop off b), length-drop off b)

-- A null buffer counts as 0 bytes, which is its recorded size.
old_room :
    (b : Option (List ℕ)) (room : ℕ)
    → length (bytes_of b) ≡ room
    → (if is_null b then 0 else room) ≡ room
old_room none room e = e
old_room (some b) room e = refl

module _ (k : Kmalloc) where
  copy_block-some :
      (n kept : ℕ) (b : List ℕ)
      → kept ≤ n
      → kept ≤ length b
      → copy_block k n kept b ≡ some (copy_to 0 (slice 0 kept b) (k.block n))
  unfolding copy_block Option.bind
  copy_block-some n kept b h l = rw (load-some b 0 kept (omega arith)) (
      store-some 0 (slice 0 kept b) (k.block n)
        (omega (arith, k.length-block n, length-slice 0 kept b (omega arith))))

  -- A buffer of `n` bytes that keeps the first `kept`.
  record IsCopy (n kept : ℕ) (old : List ℕ) (b : List ℕ) : Type 0 where
    pub sized : length b ≡ n
    pub keeps : (i : ℕ) → i < kept → get_elem? b i ≡ get_elem? old i

  resized-IsCopy :
      (n kept : ℕ) (old : Option (List ℕ))
      → kept ≤ n
      → kept ≤ length (bytes_of old)
      → (b : List ℕ) × (resized k n kept old ≡ some b) × IsCopy n kept (bytes_of old) b
  unfolding resized
  resized-IsCopy n kept none h l =
      (k.block n, refl, record { sized = k.length-block n; keeps = λ i lt. absurd (omega arith) })
  resized-IsCopy n kept (some b) h l = (
    copy_to 0 (slice 0 kept b) (k.block n),
    copy_block-some n kept b h l,
    record {
      sized = length-copy_to 0 _ _ ∙ k.length-block n;
      keeps =
          λ i lt. grind (arith, elements, k.length-block n, length-slice 0 kept b (omega arith));
    },
  )

  -- What is done to the buffer leaves the rest of the node, gives the size `size`, keeps the first
  -- `kept` bytes, and charges the volume for the change of the buffer's size.
  pub record Kept (n : Node) (size kept usage : ℕ) (m : Node) (u : ℕ) : Type 0 where
    pub sized : m.size ≡ size
    pub same_kind : m.is_dir ≡ n.is_dir
    pub fits : Fits m.buffer size m.buffer_size
    pub keeps : (i : ℕ) → i < kept → byte_at m i ≡ byte_at n i
    pub counted : word32 (u + n.buffer_size) ≡ word32 (usage + m.buffer_size)

  replaced-Kept :
      (n : Node) (kept lim usage : ℕ) (b : List ℕ)
      → length (bytes_of n.buffer) ≡ n.buffer_size
      → n.buffer_size < 2 ^ 32
      → n.size < 2 ^ 32 - 1024
      → lim ≤ kept
      → IsCopy (chunked n.size) kept (bytes_of n.buffer) b
      → Kept n n.size lim usage
          (record n { buffer = some b; buffer_size = chunked n.size })
          (charged n (chunked n.size) usage)
  unfolding Fits
  replaced-Kept n kept lim usage b lb lt small le copy = record {
    sized = refl;
    same_kind = refl;
    fits = (copy.sized, omega arith, omega arith);
    keeps = λ i l. copy.keeps i (omega arith);
    counted = omega (arith, old_room n.buffer n.buffer_size lb);
  }

  pub reallocate-Kept :
      (n : Node) (old usage : ℕ)
      → Fits n.buffer old n.buffer_size
      → n.size < 2 ^ 32 - 1024
      → (m : Node) × (u : ℕ) × (reallocate k n old usage ≡ some (m, u))
        × Kept n n.size (min old n.size) usage m u
  unfolding reallocate Fits
  reallocate-Kept n old usage fits small =
      let (lb, le, lt) = Fits-bytes n.buffer old n.buffer_size fits in
      let c : ℕ = chunked n.size in
      elim (Bool-cases (c == 0)) [
        | inl zero_size ↦ (
          record n { buffer = none; buffer_size = 0 },
          word32 (usage + 2 ^ 64 - n.buffer_size),
          ground arith,
          record {
            sized = refl;
            same_kind = refl;
            fits = (ground arith, refl);
            keeps = λ i l. absurd (ground arith);
            counted = omega arith;
          },
        )
        | inr some_size ↦ elim (Bool-cases (ltb n.buffer_size c)) [
          | inl more ↦
              let (b, e, copy) = resized-IsCopy c old n.buffer (ground arith) (omega arith) in
              (
                record n { buffer = some b; buffer_size = c },
                charged n c usage,
                rw (some_size, more, e) refl,
                replaced-Kept n old (min old n.size) usage b lb lt small (omega arith) copy,
              )
          | inr not_more ↦ elim (Bool-cases (ltb c n.buffer_size)) [
            | inl less ↦
                let (b, e, copy) = resized-IsCopy c n.size n.buffer (omega arith) (ground arith) in
                (
                  record n { buffer = some b; buffer_size = c },
                  charged n c usage,
                  rw (some_size, not_more, less, e) refl,
                  replaced-Kept n n.size (min old n.size) usage b lb lt small (omega arith) copy,
                )
            | inr same ↦ (
              n,
              usage,
              rw (some_size, not_more, same) refl,
              record {
                sized = refl;
                same_kind = refl;
                fits = Fits-room n.buffer old n.size n.buffer_size fits (ground arith);
                keeps = λ i l. refl;
                counted = refl;
              },
            )
          ]
        ]
      ]
