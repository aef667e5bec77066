-- ===== src/CharacterBuffer/Lines.antt =====
-- The line count of a terminal buffer, by which a canonical reader decides whether to wait.
use lori_os.Prelude.{
  ℕ, zero, suc, ◌+◌, ◌-◌, ◌≤◌, ◌<◌, ◌^◌, ◌≡◌, refl, List, [], ◌∷◌, ◌++◌, Bool, true, false, arith,
  ◌==◌, if◌then◌else◌, length, take, Bool-cases, inl, inr, ap, ap₂, ◌∙◌, length-take, length-append,
  list_ext, elements, get_elem?_past,
}
use lori_os.Kmalloc.{Kmalloc}
use lori_os.CharacterBuffer.{
  CharacterBuffer, make_room, write_char, write_loop, write, clipped, erases, is_line_end,
  backspace,
}
use lori_os.CharacterBuffer.Cooked.{type_char, type_all, line_ends}
use lori_os.CharacterBuffer.Read.{line_ends-split}
use lori_os.CharacterBuffer.Write.{IsValid, take-clipped, contents, write-type_all}

line_ends-append : (xs ys : List ℕ) → line_ends (xs ++ ys) ≡ line_ends xs + line_ends ys
line_ends-append [] ys = omega arith
line_ends-append (x ∷ xs) ys = omega (arith, line_ends-append xs ys)

write_char-lines :
    (s : CharacterBuffer) (w c : ℕ)
    → s.lines + 1 < 2 ^ 32
    → let t = (write_char s w c).1 in
      (t.lines
        ≡ s.lines + (if erases s.ignore_backspace c then 0 else if is_line_end c then 1 else 0))
      × (t.ignore_backspace ≡ s.ignore_backspace)
unfolding write_char
write_char-lines s w c h = (ground arith, ground arith)

-- The characters that the loop of `Write` counts as line ends.
abbrev pub typed_ends : Bool → List ℕ → ℕ
typed_ends ignore [] = 0
typed_ends ignore (c ∷ cs) =
    (if erases ignore c then 0 else if is_line_end c then 1 else 0) + typed_ends ignore cs

write_loop-lines :
    (s : CharacterBuffer) (w : ℕ) (bytes : List ℕ)
    → s.lines + length bytes < 2 ^ 32
    → (write_loop s w bytes).1.lines ≡ s.lines + typed_ends s.ignore_backspace bytes
unfolding write_loop
write_loop-lines s w [] h = omega arith
write_loop-lines s w (c ∷ bytes) h =
    let (counted, mode) = write_char-lines s w c (omega arith) in
    omega (
      arith,
      counted,
      write_loop-lines (write_char s w c).1 (write_char s w c).0 bytes (ground (arith, counted)),
      ap (λ m. typed_ends m bytes) mode,
    )

type_char-line_ends :
    (ignore : Bool) (xs : List ℕ) (c : ℕ)
    → (line_ends (type_char ignore xs c)
        ≤ line_ends xs + (if erases ignore c then 0 else if is_line_end c then 1 else 0))
      × (ignore ≡ true
          → line_ends (type_char ignore xs c) ≡ line_ends xs + (if is_line_end c then 1 else 0))
unfolding type_char
type_char-line_ends ignore xs c = (
  ground (arith, line_ends-append xs (c ∷ []), line_ends-split (length xs - 1) xs),
  λ raw. ground (arith, line_ends-append xs (c ∷ [])),
)

type_all-line_ends :
    (ignore : Bool) (xs bytes : List ℕ)
    → (line_ends (type_all ignore xs bytes) ≤ line_ends xs + typed_ends ignore bytes)
      × (ignore ≡ true
          → line_ends (type_all ignore xs bytes) ≡ line_ends xs + typed_ends ignore bytes)
unfolding type_all
type_all-line_ends ignore xs [] = (omega arith, λ raw. omega arith)
type_all-line_ends ignore xs (c ∷ bytes) =
    let (le, eq) = type_char-line_ends ignore xs c in
    let (le', eq') = type_all-line_ends ignore (type_char ignore xs c) bytes in
    (omega arith, λ raw. ground (arith, eq raw, eq' raw))

make_room-lines :
    (k : Kmalloc) (s : CharacterBuffer) (len : ℕ)
    → ((make_room k s len).lines ≡ s.lines)
      × ((make_room k s len).ignore_backspace ≡ s.ignore_backspace)
unfolding make_room
make_room-lines k s len = (ground arith, ground arith)

-- The lines that `Write` counts are the line ends among the characters that it takes.
write-typed_ends :
    (k : Kmalloc) (s : CharacterBuffer) (bytes : List ℕ)
    → IsValid s
    → length bytes < 2 ^ 31
    → s.lines < 2 ^ 31
    → (write k s bytes).1.lines
      ≡ s.lines + typed_ends s.ignore_backspace (take (s.max_size - s.pos) bytes)
unfolding write
write-typed_ends k s bytes v h l =
    let len : ℕ = clipped s (length bytes) in
    let typed = take-clipped s bytes v (omega arith) in
    let (lines, mode) = make_room-lines k s len in
    elim (Bool-cases (len == 0)) [
      | inl nothing ↦
          let none_typed : [] ≡ take (s.max_size - s.pos) bytes =
            ap (λ n. take n bytes) {x = 0} {y = len} (ground arith) ∙ typed in
          rw (nothing, ← none_typed) (omega arith)
      | inr something ↦ rw something (
          omega (
            arith,
            write_loop-lines (make_room k s len) 0 (take len bytes)
                (omega (arith, lines, length-take len bytes)),
            lines,
            ap₂ typed_ends mode typed,
          ))
    ]

-- `Write` never counts fewer lines than there are line ends in the buffer, and just as many where
-- the buffer takes a backspace as a character and counted right before.
pub write-lines :
    (k : Kmalloc) (s : CharacterBuffer) (bytes : List ℕ)
    → IsValid s
    → s.size < 2 ^ 63
    → length bytes < 2 ^ 31
    → s.lines < 2 ^ 31
    → line_ends (contents s) ≤ s.lines
    → let t = (write k s bytes).1 in
      (line_ends (contents t) ≤ t.lines)
      × (s.ignore_backspace ≡ true
          → line_ends (contents s) ≡ s.lines
          → line_ends (contents t) ≡ t.lines)
write-lines k s bytes v small h l ends =
    let typed : List ℕ = take (s.max_size - s.pos) bytes in
    let (same, written, valid) = write-type_all k s bytes v small (omega arith) in
    let count = write-typed_ends k s bytes v h l in
    let (le, eq) = type_all-line_ends s.ignore_backspace (contents s) typed in
    (
      omega (arith, ap line_ends same, count, le),
      λ raw exact. omega (arith, ap line_ends same, count, eq raw),
    )

take-one : (n x : ℕ) → 0 < n → take n (x ∷ []) ≡ x ∷ []
take-one zero x h = absurd (omega arith)
take-one (suc zero) x h = refl
take-one (suc (suc n)) x h = refl

take-init : (xs : List ℕ) (c : ℕ) → take (length (xs ++ c ∷ []) - 1) (xs ++ c ∷ []) ≡ xs
take-init xs c =
    list_ext _ _ λ i. simp elements (ground (arith, length-append xs (c ∷ []), get_elem?_past xs i))

-- Erasing a line end does not take it off the count: the buffer then counts a line that it does
-- not hold, and a canonical reader does not wait for one.
pub write-backspace-lines :
    (k : Kmalloc) (s : CharacterBuffer) (xs : List ℕ) (c : ℕ)
    → IsValid s
    → s.size < 2 ^ 63
    → s.lines < 2 ^ 31
    → s.ignore_backspace ≡ false
    → s.pos < s.max_size
    → contents s ≡ xs ++ (c ∷ [])
    → is_line_end c ≡ true
    → line_ends (contents s) ≡ s.lines
    → let t = (write k s (backspace ∷ [])).1 in
      (contents t ≡ xs) × (t.lines ≡ s.lines) × (t.lines ≡ line_ends (contents t) + 1)
unfolding type_all type_char
write-backspace-lines k s xs c v small l cooked room e ends exact =
    let one : take (s.max_size - s.pos) (backspace ∷ []) ≡ backspace ∷ [] =
      take-one (s.max_size - s.pos) backspace (omega arith) in
    let (same, written, valid) = write-type_all k s (backspace ∷ []) v small (omega arith) in
    let count = write-typed_ends k s (backspace ∷ []) v (omega arith) l in
    let left : contents (write k s (backspace ∷ [])).1 ≡ xs =
      same ∙ rw (one, cooked, e) (take-init xs c) in
    let kept : (write k s (backspace ∷ [])).1.lines ≡ s.lines =
      count ∙ rw (one, cooked) (omega arith) in
    (
      left,
      kept,
      ground (arith, kept, ap line_ends left, ap line_ends e, line_ends-append xs (c ∷ [])),
    )
