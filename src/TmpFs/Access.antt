-- ===== src/TmpFs/Access.antt =====
-- Reads and truncations of a file, and what they show of each other and of writes.
use lori_os.Prelude.{
  ℕ, ◌+◌, ◌-◌, ◌^◌, ◌<◌, ◌≡◌, refl, ◌∙◌, List, none, some, ltb, if◌then◌else◌, length, slice, drop,
  add64, word32, pos, arith, min, get_elem?-take, get_elem?-drop, get_elem?_past, list_ext,
  Bool-cases, inl, inr,
}
use lori_os.Kmalloc.{Kmalloc}
use lori_os.TmpFs.{Node, ok, load, bytes_of, chunked, reallocate, write, truncate, read}
use lori_os.TmpFs.File.{Fits-bytes, IsFile, load-some, Kept, reallocate-Kept}
use lori_os.TmpFs.Writes.{write-Written}

-- How many bytes a read of `want` from `off` on finds.
abbrev pub present : Node → ℕ → ℕ → ℕ
present n off want = min want (n.size - off)

-- `Read` of a file, below the end of the address space: it stays inside the buffer, and returns the
-- bytes of the file from `off` on, as many as are asked for and present, and their number.
pub read-slice :
    (n : Node) (off want : ℕ)
    → IsFile n
    → off + want < 2 ^ 64
    → read n off want
      ≡ some (ok (present n off want), slice off (present n off want) (bytes_of n.buffer))
unfolding read
read-slice n off want v small =
    let (lb, le, lt) = Fits-bytes n.buffer n.size n.buffer_size v.fits in
    elim (Bool-cases (ltb n.size off)) [
      | inl past ↦
          let nothing : present n off want ≡ 0 = ground arith in rw (v.not_dir, past, nothing) refl
      | inr inside ↦
          let amount : (if ltb n.size (add64 off want) then n.size - off else want)
              ≡ present n off want =
            ground arith in
          rw
            (
              v.not_dir,
              inside,
              amount,
              load-some (bytes_of n.buffer) off (present n off want) (ground arith),
            )
            refl
    ]

module _ (k : Kmalloc) where
  -- What `Write` puts into a file, ending below 2 ^ 32 - 1024, `Read` at the same offset returns.
  pub read-write :
      (n : Node) (off : ℕ) (bytes : List ℕ) (usage : ℕ)
      → IsFile n
      → 0 < length bytes
      → off + length bytes < 2 ^ 32 - 1024
      → (m : Node) × (u : ℕ) × (write k n off bytes usage ≡ some (ok (length bytes), m, u))
        × (read m off (length bytes) ≡ some (ok (length bytes), bytes))
  read-write n off bytes usage v some_bytes small =
      let (m, u, e, w) = write-Written k n off bytes usage v some_bytes small in
      let all : present m off (length bytes) ≡ length bytes = omega (arith, w.sized) in
      let same : slice off (length bytes) (bytes_of m.buffer) ≡ bytes = list_ext _ bytes (λ i.
        ground (
          arith,
          get_elem?-take (length bytes) (drop off (bytes_of m.buffer)) i,
          get_elem?-drop off (bytes_of m.buffer) i,
          w.written i,
          get_elem?_past bytes i,
        )) in
      (m, u, e, read-slice m off (length bytes) w.is_file (omega arith) ∙ rw (all, same) refl)

  -- `Truncate` of a file to a length below 2 ^ 32 - 1024: the file has that length, the bytes that
  -- both lengths reach are kept, it fits in its buffer again, and the volume is charged for the change.
  pub truncate-Kept :
      (n : Node) (len usage : ℕ)
      → IsFile n
      → len < 2 ^ 32 - 1024
      → (m : Node) × (u : ℕ) × (truncate k n (pos len) usage ≡ some (ok 0, m, u))
        × Kept k n len (min n.size len) usage m u
  unfolding truncate
  truncate-Kept n len usage v small =
      let (m, u, e, kept) = reallocate-Kept k (record n { size = len }) n.size usage v.fits small in
      (
        m,
        u,
        ground (arith, v.not_dir, e),
        record {
          sized = kept.sized;
          same_kind = kept.same_kind;
          fits = kept.fits;
          keeps = kept.keeps;
          counted = kept.counted;
        },
      )

  -- The bound on the length is needed. `Truncate` to 2 ^ 32 bytes drops the buffer of a file, whose
  -- size in an `unsigned` is 0, and a read of its first byte then is one of the null pointer.
  pub truncate_wraps :
      (n : Node) (usage : ℕ)
      → IsFile n
      → (m : Node) × (u : ℕ) × (truncate k n (pos (2 ^ 32)) usage ≡ some (ok 0, m, u))
        × (m.size ≡ 2 ^ 32)
        × (m.buffer ≡ none)
        × (read m 0 1 ≡ none)
  unfolding truncate reallocate read load
  truncate_wraps n usage v = (
    record n { size = 2 ^ 32; buffer = none; buffer_size = 0 },
    word32 (usage + 2 ^ 64 - n.buffer_size),
    rw v.not_dir refl,
    refl,
    refl,
    rw v.not_dir refl,
  )

  -- Where two lengths have the same number of chunks, `Truncate` to the shorter and back to the
  -- longer restores the file with the bytes that were cut off, in place of zeros.
  pub truncate_reveals :
      (n : Node) (len usage : ℕ)
      → IsFile n
      → len < n.size
      → 0 < chunked len
      → chunked len ≡ n.buffer_size
      → chunked n.size ≡ n.buffer_size
      → (m : Node) × (truncate k n (pos len) usage ≡ some (ok 0, m, usage))
        × (m.size ≡ len)
        × (truncate k m (pos n.size) usage ≡ some (ok 0, n, usage))
  unfolding truncate reallocate
  truncate_reveals n len usage v shorter some_chunk c d =
      (record n { size = len }, ground (arith, v.not_dir, c), refl, ground (arith, v.not_dir, d))
