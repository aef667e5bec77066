-- ===== src/Path.antt =====
-- Kernel/src/FileSystem/Fs.cpp: the operations on paths as texts, `CanonicalizePath` and `BaseName`,
-- with `Split`, which the walk along a path starts from (Kernel/include/String.h). A path is the list
-- of its bytes.
pub mod Split
pub mod Canonical
pub mod Nodes
mod Tests
use lori_os.Prelude.{
  ℕ, zero, suc, ◌+◌, ◌-◌, List, [], ◌∷◌, ◌++◌, Bool, true, false, not, ◌&&◌, Option, none, some,
  ltb, ◌==◌, if◌then◌else◌, length, take, get_elem?, get_or, slice,
}
use lori_os.CString.{strcmp_eq, strrchr}
use lori_os.CString.Tokens.{tokens}

abbrev pub slash : ℕ
slash = 47

abbrev pub dot : List ℕ
dot = 46 ∷ []

abbrev pub dotdot : List ℕ
dotdot = 46 ∷ 46 ∷ []

-- The loop of `Split` and the part that is left behind it: `i` is the place in the buffer, `s` what
-- stands from there on.
pub split_from : List ℕ → ℕ → ℕ → ℕ → List ℕ → List (List ℕ)
split_from buffer delim start i [] =
    if ltb 0 (i - start) then slice start (i - start) buffer ∷ [] else []
split_from buffer delim start i (c ∷ s) =
    let next = split_from buffer delim (if c == delim then i + 1 else start) (i + 1) s in
    if c == delim && ltb 0 (i - start) then slice start (i - start) buffer ∷ next else next

unfoldable pub split : List ℕ → ℕ → List (List ℕ)
unfolding split_from
split s delim = split_from s delim 0 0 s

-- `remove_at`
pub remove_at : ℕ → List (List ℕ) → List (List ℕ)
remove_at i [] = []
remove_at zero (t ∷ ts) = ts
remove_at (suc i) (t ∷ ts) = t ∷ remove_at i ts

-- A round of the loop of `CanonicalizePath` at token `t`, with the `i` that the next round has: `i--`
-- and the `i++` of the loop cancel.
pub canonical_round : List ℕ → ℕ → List (List ℕ) → ℕ × List (List ℕ)
unfolding remove_at
canonical_round t i ts =
    if length t == 0
    then (i, remove_at i ts)
    else if strcmp_eq t dot
    then (i, remove_at i ts)
    else if strcmp_eq t dotdot
    then (if i == 0 then (i + 1, remove_at i ts) else (i - 1, remove_at (i - 1) (remove_at i ts)))
    else (i + 1, ts)

pub canonical_loop : ℕ → ℕ → List (List ℕ) → List (List ℕ)
unfolding canonical_round
canonical_loop zero i ts = ts
canonical_loop (suc fuel) i ts = elim (get_elem? ts i) [
  | none ↦ ts
  | some t ↦ let (j, us) = canonical_round t i ts in canonical_loop fuel j us
]

-- Each round passes a token or removes one.
pub canonical_tokens : List (List ℕ) → List (List ℕ)
unfolding canonical_loop
canonical_tokens ts = canonical_loop (suc (length ts)) 0 ts

abbrev pub join : List (List ℕ) → List ℕ
join [] = []
join (t ∷ ts) = slash ∷ (t ++ join ts)

-- The text of the tokens, `/` if there is none.
abbrev pub out_path : List (List ℕ) → List ℕ
out_path [] = slash ∷ []
out_path (t ∷ ts) = join (t ∷ ts)

-- the path behind the working directory, if it has one and does not start with `/`
pub full_path : List ℕ → Option (List ℕ) → List ℕ
full_path path none = path
full_path path (some dir) = if get_or path 0 0 == slash then path else dir ++ (slash ∷ path)

pub canonicalize_path : List ℕ → Option (List ℕ) → List ℕ
unfolding canonical_tokens full_path
canonicalize_path path dir = out_path (canonical_tokens (tokens (full_path path dir) (slash ∷ [])))

-- A trailing slash is cut off; of an empty path no byte may be read.
pub without_slash : List ℕ → List ℕ
without_slash path =
    if get_or path (length path - 1) 0 == slash then take (length path - 1) path else path

pub base_name : List ℕ → List ℕ
unfolding without_slash
base_name path = elim (strrchr (without_slash path) slash) [
  | some temp ↦ temp
  | none ↦ without_slash path
]
