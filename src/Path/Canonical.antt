-- ===== src/Path/Canonical.antt =====
-- `CanonicalizePath` of Kernel/src/FileSystem/Fs.cpp, against a stack of directories.
pub mod Names
use lori_os.Prelude.{
  ℕ, zero, suc, ◌+◌, ◌<◌, ◌≡◌, refl, ap, sym, subst, ◌∙◌, List, [], ◌∷◌, ◌++◌, ◌||◌, Option, none,
  some, false, arith, if◌then◌else◌, ◌==◌, length, get_elem?, Bool-cases, inl, inr,
}
use lori_os.CString.{strcmp_eq}
use lori_os.CString.Tokens.{fields, keep, tokens-fields}
use lori_os.CString.Search.{Avoids}
use lori_os.Path.{
  split, slash, dot, dotdot, remove_at, canonical_round, canonical_loop, canonical_tokens, join,
  out_path, full_path, canonicalize_path,
}
use lori_os.Path.Split.{IsPart, Parts, split-fields, fields-Parts, fields-out_path, Avoids-append}

-- The directory that a token leads to: the names from the root, the last one first.
abbrev pub parent : List (List ℕ) → List (List ℕ)
parent [] = []
parent (t ∷ stack) = stack

unfoldable pub enter : List ℕ → List (List ℕ) → List (List ℕ)
enter t stack =
    if length t == 0 || strcmp_eq t dot
    then stack
    else if strcmp_eq t dotdot
    then parent stack
    else t ∷ stack

-- `stack` turned round, then `rest`
abbrev pub unwind : List (List ℕ) → List (List ℕ) → List (List ℕ)
unwind [] rest = rest
unwind (t ∷ stack) rest = unwind stack (t ∷ rest)

-- Where the tokens lead from the directory `stack`.
pub resolved : List (List ℕ) → List (List ℕ) → List (List ℕ)
unfolding enter
resolved stack [] = unwind stack []
resolved stack (t ∷ ts) = resolved (enter t stack) ts

-- No token leads from the root upwards.
abbrev pub Stays : List (List ℕ) → List (List ℕ) → Type 0
Stays stack [] = Unit
Stays stack (t ∷ ts) = (length stack ≡ 0 → strcmp_eq t dotdot ≡ false) × Stays (enter t stack) ts

get_elem?-unwind :
    (stack rest : List (List ℕ)) (k : ℕ)
    → get_elem? (unwind stack rest) (length stack + k) ≡ get_elem? rest k
get_elem?-unwind [] rest k = ap (get_elem? rest) (omega arith)
get_elem?-unwind (t ∷ stack) rest k =
    ap (get_elem? (unwind stack (t ∷ rest))) {x = suc (length stack) + k} {y = length stack + suc k}
      (omega arith)
    ∙ get_elem?-unwind stack (t ∷ rest) (suc k)

remove_at-unwind :
    (stack rest : List (List ℕ)) (k : ℕ)
    → remove_at (length stack + k) (unwind stack rest) ≡ unwind stack (remove_at k rest)
unfolding remove_at
remove_at-unwind [] rest k = ap (λ n. remove_at n rest) (omega arith)
remove_at-unwind (t ∷ stack) rest k =
    ap (λ n. remove_at n (unwind stack (t ∷ rest))) {x = suc (length stack) + k}
      {y = length stack + suc k} (omega arith)
    ∙ remove_at-unwind stack (t ∷ rest) (suc k)

at_top :
    (stack rest : List (List ℕ)) (t : List ℕ)
    → get_elem? (unwind stack (t ∷ rest)) (length stack) ≡ some t
at_top stack rest t =
    ap (get_elem? (unwind stack (t ∷ rest))) (omega arith) ∙ get_elem?-unwind stack (t ∷ rest) 0

at_end : (stack : List (List ℕ)) → get_elem? (unwind stack []) (length stack) ≡ none
at_end stack = ap (get_elem? (unwind stack [])) (omega arith) ∙ get_elem?-unwind stack [] 0

remove_top :
    (stack rest : List (List ℕ)) (t : List ℕ)
    → remove_at (length stack) (unwind stack (t ∷ rest)) ≡ unwind stack rest
unfolding remove_at
remove_top stack rest t =
    ap (λ n. remove_at n (unwind stack (t ∷ rest))) (omega arith)
    ∙ remove_at-unwind stack (t ∷ rest) 0

-- One round of the loop enters the directory of its token.
canonical_round-enter :
    (stack rest : List (List ℕ)) (t : List ℕ)
    → (length stack ≡ 0 → strcmp_eq t dotdot ≡ false)
    → canonical_round t (length stack) (unwind stack (t ∷ rest))
      ≡ (length (enter t stack), unwind (enter t stack) rest)
unfolding canonical_round enter
canonical_round-enter [] rest t up = ground (arith, up refl, remove_top [] rest t)
canonical_round-enter (s ∷ stack) rest t up =
    ground (arith, remove_top (s ∷ stack) rest t, remove_top stack rest s)

canonical_loop_step :
    (fuel i j : ℕ) (ts us : List (List ℕ)) (t : List ℕ)
    → get_elem? ts i ≡ some t
    → canonical_round t i ts ≡ (j, us)
    → canonical_loop (suc fuel) i ts ≡ canonical_loop fuel j us
unfolding canonical_loop
canonical_loop_step fuel i j ts us t e f =
    rw (e, canonical_loop) (ap (λ (r : ℕ × List (List ℕ)). canonical_loop fuel r.0 r.1) f)

canonical_loop_end :
    (fuel i : ℕ) (ts : List (List ℕ)) → get_elem? ts i ≡ none → canonical_loop fuel i ts ≡ ts
unfolding canonical_loop
canonical_loop_end zero i ts e = refl
canonical_loop_end (suc fuel) i ts e = rw (e, canonical_loop) refl

pub canonical_loop-resolved :
    (fuel : ℕ) (stack rest : List (List ℕ))
    → length rest < fuel
    → Stays stack rest
    → canonical_loop fuel (length stack) (unwind stack rest) ≡ resolved stack rest
unfolding resolved
canonical_loop-resolved fuel stack [] h s = canonical_loop_end fuel _ _ (at_end stack)
canonical_loop-resolved zero stack (t ∷ rest) h s = absurd (omega arith)
canonical_loop-resolved (suc fuel) stack (t ∷ rest) h (up, s) =
    canonical_loop_step fuel _ _ _ _ t (at_top stack rest t) (canonical_round-enter stack rest t up)
    ∙ canonical_loop-resolved fuel (enter t stack) rest (omega arith) s

pub canonical_tokens-resolved :
    (ts : List (List ℕ)) → Stays [] ts → canonical_tokens ts ≡ resolved [] ts
unfolding canonical_tokens
canonical_tokens-resolved ts s = canonical_loop-resolved (suc (length ts)) [] ts (omega arith) s

-- `CanonicalizePath` prints the directory that the parts of the path lead to: an empty part and `.` stay,
-- `..` goes back, another part goes on. It holds for every text, without a byte 0, that does not lead
-- from the root upwards.
pub canonicalize_path-resolved :
    (path : List ℕ) (dir : Option (List ℕ))
    → Avoids 0 (full_path path dir)
    → Stays [] (fields slash [] (full_path path dir))
    → canonicalize_path path dir ≡ out_path (resolved [] (fields slash [] (full_path path dir)))
unfolding canonicalize_path
canonicalize_path-resolved path dir a s =
    ap (λ ts. out_path (canonical_tokens ts)) (tokens-fields slash (full_path path dir) a)
    ∙ ap out_path (canonical_tokens-resolved (fields slash [] (full_path path dir)) s)
