-- ===== src/CharacterBuffer/Tests.antt =====
-- Tests of the terminal buffer.
use lori_os.Prelude.{ℕ, ◌+◌, ◌≤◌, ◌≡◌, refl, List, [], ◌∷◌, true, false, arith, take}
use lori_os.Kmalloc.{zeroed}
use lori_os.CharacterBuffer.{
  CharacterBuffer, make_room, write_char, write_loop, write, read_loop, read,
}
use lori_os.CharacterBuffer.Cooked.{type_all, effects, line_ends, consume}
use lori_os.CharacterBuffer.Write.{IsValid, contents, write-type_all}
use lori_os.CharacterBuffer.Read.{read-consume}
use lori_os.CharacterBuffer.Lines.{write-lines, write-backspace-lines}

-- "a\n" typed, in canonical mode.
abbrev one_line : CharacterBuffer
one_line = record {
  size = 4;
  max_size = 8;
  pos = 2;
  lines = 1;
  buffer = b'a' ∷ 10 ∷ 0 ∷ 0 ∷ [];
  ignore_backspace = false;
}

abbrev raw_line : CharacterBuffer
raw_line = record one_line { ignore_backspace = true }

one_line-IsValid : IsValid one_line
one_line-IsValid = omega arith

-- Two backspaces erase the line; the third finds nothing and is not counted.
write_test :
    let (w, t) = write zeroed one_line (8 ∷ 8 ∷ 8 ∷ b'b' ∷ []) in
    (w ≡ 3) × (contents t ≡ b'b' ∷ []) × (t.lines ≡ 1)
unfolding write make_room write_char write_loop
write_test = (refl, refl, refl)

read_test :
    let (out, t) = read one_line 5 in (out ≡ b'a' ∷ 10 ∷ []) × (contents t ≡ []) × (t.lines ≡ 0)
unfolding read read_loop
read_test = (refl, refl, refl)

write-type_all_example :
    let (w, t) = write zeroed one_line (8 ∷ b'b' ∷ []) in
    let typed : List ℕ = take 6 (8 ∷ b'b' ∷ []) in
    (contents t ≡ type_all false (b'a' ∷ 10 ∷ []) typed)
    × (w ≡ effects false (b'a' ∷ 10 ∷ []) typed)
    × IsValid t
write-type_all_example =
    write-type_all zeroed one_line (8 ∷ b'b' ∷ []) one_line-IsValid (omega arith) (omega arith)

read-consume_test :
    let (out, t) = read one_line 1 in
    let split = consume 1 (b'a' ∷ 10 ∷ []) in
    (out ≡ split.out)
    × (contents t ≡ split.rest)
    × (t.lines + 1 ≡ 1 + line_ends (contents t))
    × IsValid t
read-consume_test =
    read-consume one_line 1 one_line-IsValid (omega arith) (omega arith) (omega arith)

write-lines_example :
    let t = (write zeroed raw_line (8 ∷ 10 ∷ [])).1 in
    (line_ends (contents t) ≤ t.lines)
    × (raw_line.ignore_backspace ≡ true
        → line_ends (contents raw_line) ≡ raw_line.lines
        → line_ends (contents t) ≡ t.lines)
write-lines_example =
    write-lines zeroed raw_line (8 ∷ 10 ∷ []) (omega arith) (omega arith) (omega arith)
      (omega arith) (omega arith)

write-backspace-lines_test :
    let t = (write zeroed one_line (8 ∷ [])).1 in
    (contents t ≡ b'a' ∷ []) × (t.lines ≡ 1) × (t.lines ≡ line_ends (contents t) + 1)
write-backspace-lines_test =
    write-backspace-lines zeroed one_line (b'a' ∷ []) 10 one_line-IsValid (omega arith)
      (omega arith) refl (omega arith) refl refl refl
