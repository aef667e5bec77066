-- ===== src/CharacterBuffer/Cooked.antt =====
-- What a terminal buffer is for: the characters of the lines typed so far.
use lori_os.Prelude.{ℕ, ◌+◌, ◌-◌, List, [], ◌∷◌, ◌++◌, Bool, ◌==◌, if◌then◌else◌, length, take}
use lori_os.CharacterBuffer.{is_line_end, erases}

-- A character is appended, but a backspace takes the last one away.
unfoldable pub type_char : Bool → List ℕ → ℕ → List ℕ
type_char ignore xs c = if erases ignore c then take (length xs - 1) xs else xs ++ (c ∷ [])

unfoldable pub type_all : Bool → List ℕ → List ℕ → List ℕ
type_all ignore xs [] = xs
type_all ignore xs (c ∷ cs) = type_all ignore (type_char ignore xs c) cs

-- how many of the characters have an effect
unfoldable pub effects : Bool → List ℕ → List ℕ → ℕ
effects ignore xs [] = 0
effects ignore xs (c ∷ cs) =
    (if erases ignore c then (if length xs == 0 then 0 else 1) else 1)
    + effects ignore (type_char ignore xs c) cs

-- line ends among the characters
abbrev pub line_ends : List ℕ → ℕ
line_ends [] = 0
line_ends (c ∷ cs) = (if is_line_end c then 1 else 0) + line_ends cs

-- What is taken from the front, and what is left.
pub record Split : Type 0 where
  pub out : List ℕ
  pub rest : List ℕ

abbrev pub also : ℕ → Split → Split
also c t = record t { out = c ∷ t.out }

-- Up to `room` characters are taken, and a '\0' among them is dropped.
unfoldable pub consume : ℕ → List ℕ → Split
consume room [] = record { out = []; rest = [] }
consume room (c ∷ cs) =
    let skipped = consume room cs in
    let taken = also c (consume (room - 1) cs) in
    if room == 0 then record { out = []; rest = c ∷ cs } else if c == 0 then skipped else taken
