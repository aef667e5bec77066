-- ===== src/TmpFs/Tests.antt =====
-- Tests of tmpfs files.
use lori_os.Prelude.{
  ℕ, ◌^◌, ◌≡◌, refl, [], ◌∷◌, false, none, some, slice, pos, negsuc, arith, copy_to, replicate, min,
}
use mathlib.Core.Option
use lori_os.Kmalloc.{zeroed}
use lori_os.TmpFs.{
  Node, ok, einval, store, bytes_of, reallocate, extend, resized, write, truncate, read,
}
use lori_os.TmpFs.File.{Fits, IsFile, Kept}
use lori_os.TmpFs.Writes.{Written, write-Written}
use lori_os.TmpFs.Access.{
  present, read-slice, read-write, truncate-Kept, truncate_wraps, truncate_reveals,
}

abbrev new_file : Node
new_file = record {
  is_dir = false;
  size = 0;
  nlink = 1;
  handles = 0;
  buffer = none;
  buffer_size = 0;
  children = [];
}

-- Three bytes in a chunk.
abbrev three_bytes : Node
three_bytes = record new_file {
  size = 3;
  buffer = some (copy_to 0 (7 ∷ 8 ∷ 9 ∷ []) (replicate 1024 0));
  buffer_size = 1024;
}

new_file-IsFile : IsFile new_file
unfolding Fits
new_file-IsFile = record { not_dir = refl; fits = (refl, refl) }

three_bytes-IsFile : IsFile three_bytes
unfolding Fits
three_bytes-IsFile = record { not_dir = refl; fits = (refl, omega arith, omega arith) }

write_test : write zeroed new_file 0 (7 ∷ 8 ∷ 9 ∷ []) 5 ≡ some (ok 3, three_bytes, 1029)
unfolding write extend reallocate resized store Option.bind
write_test = refl

negative_test : truncate zeroed three_bytes (negsuc 0) 0 ≡ some (einval, three_bytes, 0)
unfolding truncate
negative_test = refl

shrink_test : truncate zeroed three_bytes (pos 0) 1024 ≡ some (ok 0, new_file, 0)
unfolding truncate reallocate
shrink_test = refl

write-Written_example :
    (m : Node) × (u : ℕ) × (write zeroed three_bytes 2000 (1 ∷ 2 ∷ []) 1024 ≡ some (ok 2, m, u))
    × Written zeroed three_bytes 2000 (1 ∷ 2 ∷ []) 1024 m u
write-Written_example =
    write-Written zeroed three_bytes 2000 (1 ∷ 2 ∷ []) 1024 three_bytes-IsFile (omega arith)
      (omega arith)

read-slice_test :
    read three_bytes 1 9
    ≡ some (
      ok (present three_bytes 1 9),
      slice 1 (present three_bytes 1 9) (bytes_of three_bytes.buffer),
    )
read-slice_test = read-slice three_bytes 1 9 three_bytes-IsFile (omega arith)

read-write_test :
    (m : Node) × (u : ℕ) × (write zeroed three_bytes 2 (1 ∷ 2 ∷ []) 1024 ≡ some (ok 2, m, u))
    × (read m 2 2 ≡ some (ok 2, 1 ∷ 2 ∷ []))
read-write_test =
    read-write zeroed three_bytes 2 (1 ∷ 2 ∷ []) 1024 three_bytes-IsFile (omega arith) (omega arith)

truncate-Kept_test :
    (m : Node) × (u : ℕ) × (truncate zeroed three_bytes (pos 2) 1024 ≡ some (ok 0, m, u))
    × Kept zeroed three_bytes 2 (min 3 2) 1024 m u
truncate-Kept_test = truncate-Kept zeroed three_bytes 2 1024 three_bytes-IsFile (omega arith)

truncate_wraps_test :
    (m : Node) × (u : ℕ) × (truncate zeroed three_bytes (pos (2 ^ 32)) 1024 ≡ some (ok 0, m, u))
    × (m.size ≡ 2 ^ 32)
    × (m.buffer ≡ none)
    × (read m 0 1 ≡ none)
truncate_wraps_test = truncate_wraps zeroed three_bytes 1024 three_bytes-IsFile

truncate_reveals_test :
    (m : Node) × (truncate zeroed three_bytes (pos 1) 1024 ≡ some (ok 0, m, 1024))
    × (m.size ≡ 1)
    × (truncate zeroed m (pos 3) 1024 ≡ some (ok 0, three_bytes, 1024))
truncate_reveals_test =
    truncate_reveals zeroed three_bytes 1 1024 three_bytes-IsFile (omega arith) (omega arith) refl
      refl
