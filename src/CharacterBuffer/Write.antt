-- ===== src/CharacterBuffer/Write.antt =====
-- `CharacterBuffer::Write` types its characters into the buffer, within its bounds.
use lori_os.Prelude.{
  false, ℕ, ◌+◌, ◌-◌, ◌≤◌, ◌<◌, ◌^◌, ◌≡◌, refl, List, [], ◌∷◌, ◌++◌, Bool, arith, ltb, ◌==◌,
  if◌then◌else◌, length, take, set, slice, add64, Bool-cases, inl, inr, ap, ap₂, ◌∙◌, length-set,
  length-take, length-copy_to, elements, min, get_elem?_one, get_elem?_past, list_ext,
}
use lori_os.Kmalloc.{Kmalloc}
use lori_os.CharacterBuffer.{
  backspace, CharacterBuffer, make_room, write_char, write_loop, write, clipped, erases,
}
use lori_os.CharacterBuffer.Cooked.{type_char, type_all, effects}

pub record IsValid (s : CharacterBuffer) : Type 0 where
  pub sized : length s.buffer ≡ s.size
  pub inside : s.pos ≤ s.size
  pub limited : s.pos ≤ s.max_size
  pub small : s.max_size < 2 ^ 62

abbrev pub contents : CharacterBuffer → List ℕ
contents s = take s.pos s.buffer

pub length-contents : (s : CharacterBuffer) → IsValid s → length (contents s) ≡ s.pos
length-contents s v = omega (arith, length-take s.pos s.buffer, v.sized, v.inside)

take-set :
    (n : ℕ) (xs : List ℕ) (c : ℕ)
    → n < length xs
    → take (n + 1) (set xs n c) ≡ take n xs ++ (c ∷ [])
take-set n xs c h =
    list_ext _ _ λ i. simp elements (ground (arith, length-take n xs, get_elem?_one c (i - n)))

take-take-pred :
    (n : ℕ) (xs : List ℕ)
    → n ≤ length xs
    → take (n - 1) xs ≡ take (length (take n xs) - 1) (take n xs)
take-take-pred n xs h = list_ext _ _ λ i. simp elements (ground (arith, length-take n xs))

-- What one step of the loop does with room for it.
record Typed (s : CharacterBuffer) (w c : ℕ) (w' : ℕ) (t : CharacterBuffer) : Type 0 where
  sized : length t.buffer ≡ t.size
  same_size : t.size ≡ s.size
  same_max : t.max_size ≡ s.max_size
  same_mode : t.ignore_backspace ≡ s.ignore_backspace
  pos_le : t.pos ≤ s.pos + 1
  typed : contents t ≡ type_char s.ignore_backspace (contents s) c
  counted :
      w'
      ≡ w + (if erases s.ignore_backspace c then (if length (contents s) == 0 then 0 else 1) else 1)

write_char-Typed :
    (s : CharacterBuffer) (w c : ℕ)
    → length s.buffer ≡ s.size
    → s.pos + 1 ≤ s.size
    → s.size < 2 ^ 63
    → let (w', t) = write_char s w c in Typed s w c w' t
unfolding write_char type_char
write_char-Typed s w c z h k =
    let held : length (contents s) ≡ s.pos = omega (arith, length-take s.pos s.buffer) in
    elim (Bool-cases (erases s.ignore_backspace c)) [
      | inl erase ↦ elim (Bool-cases (ltb 0 s.pos)) [
        | inl some_typed ↦
            rw (erase, some_typed)
              (record {
                sized = z;
                same_size = refl;
                same_max = refl;
                same_mode = refl;
                pos_le = omega arith;
                typed = rw erase (take-take-pred s.pos s.buffer (omega arith));
                counted = ground (arith, held);
              })
        | inr empty ↦
            rw (erase, empty)
              (record {
                sized = z;
                same_size = refl;
                same_max = refl;
                same_mode = refl;
                pos_le = omega arith;
                typed = rw erase (
                    ap (λ n. take n s.buffer) {x = s.pos} {y = s.pos - 1} (ground arith)
                    ∙ take-take-pred s.pos s.buffer (omega arith));
                counted = ground (arith, held);
              })
      ]
      | inr plain ↦ rw plain (record {
        sized = length-set s.buffer s.pos c ∙ z;
        same_size = refl;
        same_max = refl;
        same_mode = refl;
        pos_le = omega arith;
        typed = rw plain (
            let next : add64 s.pos 1 ≡ s.pos + 1 = omega arith in
            rw next (take-set s.pos s.buffer c (omega arith)));
        counted = ground arith;
      })
    ]

-- What the loop has done with `bytes`.
record TypedAll (s : CharacterBuffer) (w : ℕ) (bytes : List ℕ) (w' : ℕ) (t : CharacterBuffer)
    : Type 0 where
  sized : length t.buffer ≡ t.size
  same_size : t.size ≡ s.size
  same_max : t.max_size ≡ s.max_size
  same_mode : t.ignore_backspace ≡ s.ignore_backspace
  pos_le : t.pos ≤ s.pos + length bytes
  typed : contents t ≡ type_all s.ignore_backspace (contents s) bytes
  counted : w' ≡ w + effects s.ignore_backspace (contents s) bytes

write_loop-TypedAll :
    (s : CharacterBuffer) (w : ℕ) (bytes : List ℕ)
    → length s.buffer ≡ s.size
    → s.pos + length bytes ≤ s.size
    → s.size < 2 ^ 63
    → let (w', t) = write_loop s w bytes in TypedAll s w bytes w' t
unfolding write_loop type_all effects
write_loop-TypedAll s w [] z h k = record {
  sized = z;
  same_size = refl;
  same_max = refl;
  same_mode = refl;
  pos_le = omega arith;
  typed = refl;
  counted = omega arith;
}
write_loop-TypedAll s w (c ∷ bytes) z h k =
    let a = write_char-Typed s w c z (omega arith) k in
    let t : CharacterBuffer = (write_char s w c).1 in
    let b =
      write_loop-TypedAll t (write_char s w c).0 bytes a.sized
        (omega (arith, a.pos_le, a.same_size)) (omega (arith, a.same_size)) in
    record {
      sized = b.sized;
      same_size = b.same_size ∙ a.same_size;
      same_max = b.same_max ∙ a.same_max;
      same_mode = b.same_mode ∙ a.same_mode;
      pos_le = omega (arith, a.pos_le, b.pos_le);
      typed = b.typed ∙ ap₂ (λ m xs. type_all m xs bytes) a.same_mode a.typed;
      counted =
          omega (arith, a.counted, b.counted, ap₂ (λ m xs. effects m xs bytes) a.same_mode a.typed);
    }

-- A larger block holds the same characters.
make_room_lem :
    (k : Kmalloc) (s : CharacterBuffer) (len : ℕ)
    → IsValid s
    → s.pos + len ≤ s.max_size
    → s.size < 2 ^ 63
    → let t = make_room k s len in
      (length t.buffer ≡ t.size)
      × (s.pos + len ≤ t.size)
      × (t.size < 2 ^ 63)
      × (t.pos ≡ s.pos)
      × (contents t ≡ contents s)
      × (t.max_size ≡ s.max_size)
      × (t.ignore_backspace ≡ s.ignore_backspace)
unfolding make_room
make_room_lem k s len v h small = elim (Bool-cases (ltb s.size (add64 s.pos len))) [
  | inl full ↦ rw full (
    length-copy_to 0 (slice 0 s.size s.buffer) (k.block (add64 (add64 s.pos len) 128))
        ∙ k.length-block _,
    omega arith,
    omega arith,
    refl,
    list_ext _ _ λ i. simp elements (
        ground (
          arith,
          k.length-block (add64 (add64 s.pos len) 128),
          length-take s.size s.buffer,
          v.sized,
          v.inside,
        )),
    refl,
    refl,
  )
  | inr fits ↦ rw fits (v.sized, ground arith, small, refl, refl, refl, refl)
]

clipped_lem :
    (s : CharacterBuffer) (len : ℕ)
    → IsValid s
    → len < 2 ^ 62
    → (s.pos + clipped s len ≤ s.max_size) × (clipped s len ≡ min (s.max_size - s.pos) len)
clipped_lem s len v h = (ground (arith, v.small), ground (arith, v.small))

pub take-clipped :
    (s : CharacterBuffer) (bytes : List ℕ)
    → IsValid s
    → length bytes < 2 ^ 62
    → take (clipped s (length bytes)) bytes ≡ take (s.max_size - s.pos) bytes
take-clipped s bytes v h = list_ext _ _ λ i.
    simp elements (ground (arith, (clipped_lem s (length bytes) v h).1, get_elem?_past bytes i))

type_all_congr :
    {m m' : Bool} {xs xs' ys ys' : List ℕ}
    → m ≡ m'
    → xs ≡ xs'
    → ys ≡ ys'
    → type_all m xs ys ≡ type_all m' xs' ys'
type_all_congr p q r = cc

-- `Write` types the characters that the limit leaves room for, and returns how many of them had an
-- effect. The buffer keeps its bounds: every byte is written inside it.
pub write-type_all :
    (k : Kmalloc) (s : CharacterBuffer) (bytes : List ℕ)
    → IsValid s
    → s.size < 2 ^ 63
    → length bytes < 2 ^ 62
    → let (w, t) = write k s bytes in
      let typed = take (s.max_size - s.pos) bytes in
      (contents t ≡ type_all s.ignore_backspace (contents s) typed)
      × (w ≡ effects s.ignore_backspace (contents s) typed)
      × IsValid t
unfolding write type_all effects
write-type_all k s bytes v small h =
    let len : ℕ = clipped s (length bytes) in
    let typed : take len bytes ≡ take (s.max_size - s.pos) bytes = take-clipped s bytes v h in
    let (fits, some_room) = clipped_lem s (length bytes) v h in
    elim (Bool-cases (len == 0)) [
      | inl nothing ↦
          let none_typed : [] ≡ take (s.max_size - s.pos) bytes =
            ap (λ n. take n bytes) {x = 0} {y = len} (ground arith) ∙ typed in
          rw (nothing, ← none_typed) (refl, refl, v)
      | inr something ↦
          let u : CharacterBuffer = make_room k s len in
          let (z, room, below, same_pos, same, same_max, same_mode) =
            make_room_lem k s len v fits small in
          let count : length (take len bytes) ≤ len = omega (arith, length-take len bytes) in
          let b = write_loop-TypedAll u 0 (take len bytes) z (omega arith) below in
          rw something (
            b.typed ∙ type_all_congr same_mode same typed,
            omega (
              arith,
              b.counted,
              ap₂ (λ m xs. effects m xs (take len bytes)) same_mode same,
              ap (effects s.ignore_backspace (contents s)) typed,
            ),
            record {
              sized = b.sized;
              inside = omega (arith, b.pos_le, b.same_size);
              limited = omega (arith, b.pos_le, b.same_max);
              small = omega (arith, b.same_max, v.small);
            },
          )
    ]

-- A lone backspace in an empty buffer that heeds it has no effect.
pub write-backspace :
    (k : Kmalloc) (s : CharacterBuffer)
    → s.pos ≡ 0
    → 0 < s.size
    → 0 < s.max_size
    → s.ignore_backspace ≡ false
    → write k s (backspace ∷ []) ≡ (0, s)
unfolding write make_room write_loop write_char
write-backspace k s empty some_room limit heeds = ground (arith, empty, heeds)
