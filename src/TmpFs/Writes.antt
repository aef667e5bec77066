-- ===== src/TmpFs/Writes.antt =====
-- `Write` stays inside the buffer of the file, and keeps the other bytes.
use lori_os.Prelude.{
  ℕ, ◌+◌, ◌-◌, ◌^◌, ◌≤◌, ◌<◌, ◌≡◌, refl, sym, ap, ◌∙◌, List, some, leb, ltb, ◌||◌, length, copy_to,
  add64, word32, arith, max, get_elem?, get_elem?-copy_to, length-copy_to, Bool-cases, inl, inr,
}
use mathlib.Core.Option
use lori_os.Kmalloc.{Kmalloc}
use lori_os.TmpFs.{Node, ok, bytes_of, is_null, extend, write}
use lori_os.TmpFs.File.{
  Fits, Fits-bytes, Fits-room, Fits-null, IsFile, byte_at, store-some, Kept, reallocate-Kept,
}

module _ (k : Kmalloc) where
  extend-Kept :
      (n : Node) (end usage : ℕ)
      → Fits n.buffer n.size n.buffer_size
      → 0 < end
      → end < 2 ^ 32 - 1024
      → (m : Node) × (u : ℕ) × (extend k n end usage ≡ some (m, u))
        × Kept k n (max n.size end) n.size usage m u
  unfolding extend
  extend-Kept n end usage fits positive small =
      let (lb, le, lt) = Fits-bytes n.buffer n.size n.buffer_size fits in
      elim (Bool-cases (is_null n.buffer || ltb n.size end)) [
        | inl further ↦
            let larger : max n.size end ≡ end = elim (Bool-cases (is_null n.buffer)) [
              | inl null ↦ omega (arith, (Fits-null n.buffer n.size n.buffer_size fits null).0)
              | inr not_null ↦ ground arith
            ] in
            elim (Bool-cases (leb n.buffer_size end)) [
              | inl more ↦
                  let (m, u, e, kept) =
                    reallocate-Kept k (record n { size = end }) n.size usage fits small in
                  (
                    m,
                    u,
                    rw (further, more) e,
                    record {
                      sized = kept.sized ∙ sym larger;
                      same_kind = kept.same_kind;
                      fits = rw larger kept.fits;
                      keeps = λ i l. kept.keeps i (omega arith);
                      counted = kept.counted;
                    },
                  )
              | inr enough ↦ (
                record n { size = end },
                usage,
                rw (further, enough) refl,
                record {
                  sized = sym larger;
                  same_kind = refl;
                  fits =
                      Fits-room n.buffer n.size (max n.size end) n.buffer_size fits (ground arith);
                  keeps = λ i l. refl;
                  counted = refl;
                },
              )
            ]
        | inr inside ↦ (
          n,
          usage,
          rw inside refl,
          record {
            sized = ground arith;
            same_kind = refl;
            fits = Fits-room n.buffer n.size (max n.size end) n.buffer_size fits (ground arith);
            keeps = λ i l. refl;
            counted = refl;
          },
        )
      ]

  -- A file after `bytes` were written at `off`: they are read back there, the bytes before and behind
  -- them are kept, the file ends where it did or behind them, and the volume is charged for the
  -- change of the buffer's size.
  pub record Written (n : Node) (off : ℕ) (bytes : List ℕ) (usage : ℕ) (m : Node) (u : ℕ)
      : Type 0 where
    pub is_file : IsFile m
    pub sized : m.size ≡ max n.size (off + length bytes)
    pub written : (i : ℕ) → i < length bytes → byte_at m (off + i) ≡ get_elem? bytes i
    pub before : (i : ℕ) → i < n.size → i < off → byte_at m i ≡ byte_at n i
    pub behind : (i : ℕ) → i < n.size → off + length bytes ≤ i → byte_at m i ≡ byte_at n i
    pub counted : word32 (u + n.buffer_size) ≡ word32 (usage + m.buffer_size)

  -- `Write` of at least one byte to a file, ending below 2 ^ 32 - 1024: it stays inside the buffer
  -- and returns the number of bytes, which are then in the file, and the other bytes are kept.
  pub write-Written :
      (n : Node) (off : ℕ) (bytes : List ℕ) (usage : ℕ)
      → IsFile n
      → 0 < length bytes
      → off + length bytes < 2 ^ 32 - 1024
      → (m : Node) × (u : ℕ) × (write k n off bytes usage ≡ some (ok (length bytes), m, u))
        × Written n off bytes usage m u
  unfolding write Option.bind Fits
  write-Written n off bytes usage v some_bytes small =
      let (m, u, e, kept) = extend-Kept n (off + length bytes) usage v.fits (omega arith) small in
      let end : add64 off (length bytes) ≡ off + length bytes = omega arith in
      let (lb, le, lt) = Fits-bytes m.buffer _ m.buffer_size kept.fits in
      let stored = store-some off bytes (bytes_of m.buffer) (omega arith) in
      (
        record m { buffer = some (copy_to off bytes (bytes_of m.buffer)) },
        u,
        ground (arith, v.not_dir, e, end, stored),
        record {
          is_file = record {
            not_dir = kept.same_kind ∙ v.not_dir;
            fits =
                (length-copy_to off bytes (bytes_of m.buffer) ∙ lb, omega (arith, kept.sized), lt);
          };
          sized = kept.sized;
          written = λ i l. ground (
            arith,
            get_elem?-copy_to off bytes (bytes_of m.buffer) (off + i),
            ap (get_elem? bytes) {x = off + i - off} {y = i} (omega arith),
          );
          before = λ i l h.
              ground (arith, get_elem?-copy_to off bytes (bytes_of m.buffer) i, kept.keeps i l);
          behind = λ i l h.
              ground (arith, get_elem?-copy_to off bytes (bytes_of m.buffer) i, kept.keeps i l);
          counted = kept.counted;
        },
      )
