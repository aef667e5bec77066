-- ===== src/Path/Canonical/Names.antt =====
-- What `CanonicalizePath` of Kernel/src/FileSystem/Fs.cpp prints, taken apart into names again.
use lori_os.Prelude.{
  ℕ, suc, ◌≡◌, refl, ap, sym, subst, ◌∙◌, List, [], ◌∷◌, ◌++◌, ◌||◌, Option, none, false, arith,
  ◌==◌, length, Bool-cases, inl, inr,
}
use lori_os.CString.{strcmp_eq}
use lori_os.CString.Tokens.{fields, keep}
use lori_os.CString.Search.{Avoids}
use lori_os.Path.{
  split, slash, dot, dotdot, remove_at, canonical_round, canonical_loop, canonical_tokens, join,
  out_path, full_path, canonicalize_path,
}
use lori_os.Path.Split.{IsPart, Parts, split-fields, fields-Parts, fields-out_path, Avoids-append}
use lori_os.Path.Canonical.{
  parent, enter, unwind, resolved, Stays, canonical_loop-resolved, canonicalize_path-resolved,
}

-- A name: bytes that are neither 0 nor `/`, and not `.` or `..`.
pub record IsName (t : List ℕ) : Type 0 where
  pub part : IsPart slash t
  pub text : Avoids 0 t
  pub not_dot : strcmp_eq t dot ≡ false
  pub not_dotdot : strcmp_eq t dotdot ≡ false

abbrev pub Names : List (List ℕ) → Type 0
Names [] = Unit
Names (t ∷ ts) = IsName t × Names ts

abbrev pub Texts : List (List ℕ) → Type 0
Texts [] = Unit
Texts (t ∷ ts) = Avoids 0 t × Texts ts

keep-Texts : (cur : List ℕ) (r : List (List ℕ)) → Avoids 0 cur → Texts r → Texts (keep cur r)
keep-Texts [] r a h = h
keep-Texts (c ∷ cur) r a h = (a, h)

fields-Texts : (d : ℕ) (cur s : List ℕ) → Avoids 0 cur → Avoids 0 s → Texts (fields d cur s)
unfolding fields
fields-Texts d cur [] a b = keep-Texts cur [] a tt
fields-Texts d cur (x ∷ s) a (ne, b) = elim (Bool-cases (x == d)) [
  | inl same ↦
      subst Texts {x = keep cur (fields d [] s)} (ground arith)
        (keep-Texts cur _ a (fields-Texts d [] s tt b))
  | inr other ↦
      subst Texts {x = fields d (cur ++ (x ∷ [])) s} (ground arith)
        (fields-Texts d (cur ++ (x ∷ [])) s (Avoids-append 0 cur (x ∷ []) a (ne, tt)) b)
]

unwind-Names : (stack rest : List (List ℕ)) → Names stack → Names rest → Names (unwind stack rest)
unwind-Names [] rest h k = k
unwind-Names (t ∷ stack) rest (n, h) k = unwind-Names stack (t ∷ rest) h (n, k)

parent-Names : (stack : List (List ℕ)) → Names stack → Names (parent stack)
parent-Names [] h = h
parent-Names (t ∷ stack) (n, h) = h

enter-Names :
    (t : List ℕ) (stack : List (List ℕ))
    → IsPart slash t
    → Avoids 0 t
    → Names stack
    → Names (enter t stack)
unfolding enter
enter-Names t stack p a h = elim (Bool-cases (length t == 0 || strcmp_eq t dot)) [
  | inl stays ↦ subst Names {x = stack} (ground arith) h
  | inr goes ↦ elim (Bool-cases (strcmp_eq t dotdot)) [
    | inl up ↦ subst Names {x = parent stack} (ground arith) (parent-Names stack h)
    | inr on ↦
        subst Names {x = t ∷ stack} (ground arith)
          (record { part = p; text = a; not_dot = ground arith; not_dotdot = on }, h)
  ]
]

resolved-Names :
    (stack ts : List (List ℕ)) → Parts slash ts → Texts ts → Names stack → Names (resolved stack ts)
unfolding resolved
resolved-Names stack [] p a h = unwind-Names stack [] h tt
resolved-Names stack (t ∷ ts) (p, ps) (a, as') h =
    resolved-Names (enter t stack) ts ps as' (enter-Names t stack p a h)

-- Names lead on from where they are, and nowhere upwards.
enter-name : (t : List ℕ) (stack : List (List ℕ)) → IsName t → enter t stack ≡ t ∷ stack
unfolding enter
enter-name t stack n =
    let some_byte = n.part.some_byte in
    let not_dot = n.not_dot in let not_dotdot = n.not_dotdot in ground arith

resolved-unwind : (stack ts : List (List ℕ)) → Names ts → resolved stack ts ≡ unwind stack ts
unfolding resolved
resolved-unwind stack [] h = refl
resolved-unwind stack (t ∷ ts) (n, h) =
    ap (λ s. resolved s ts) (enter-name t stack n) ∙ resolved-unwind (t ∷ stack) ts h

Stays-Names : (stack ts : List (List ℕ)) → Names ts → Stays stack ts
Stays-Names stack [] h = tt
Stays-Names stack (t ∷ ts) (n, h) = (λ e. n.not_dotdot, Stays-Names (enter t stack) ts h)

Names-Parts : (ts : List (List ℕ)) → Names ts → Parts slash ts
Names-Parts [] h = tt
Names-Parts (t ∷ ts) (n, h) = (n.part, Names-Parts ts h)

Avoids-join : (ts : List (List ℕ)) → Names ts → Avoids 0 (join ts)
Avoids-join [] h = tt
Avoids-join (t ∷ ts) (n, h) =
    ((λ e. omega arith), Avoids-append 0 t (join ts) n.text (Avoids-join ts h))

Avoids-out_path : (ts : List (List ℕ)) → Names ts → Avoids 0 (out_path ts)
Avoids-out_path [] h = ((λ e. omega arith), tt)
Avoids-out_path (t ∷ ts) h = Avoids-join (t ∷ ts) h

path-Names : (path : List ℕ) → Avoids 0 path → Names (resolved [] (fields slash [] path))
path-Names path a =
    resolved-Names [] (fields slash [] path) (fields-Parts slash [] path tt)
      (fields-Texts slash [] path tt a) tt

canonical-Names :
    (ts : List (List ℕ)) → Names ts → canonicalize_path (out_path ts) none ≡ out_path ts
unfolding full_path
canonical-Names ts h =
    let same = fields-out_path ts (Names-Parts ts h) in
    canonicalize_path-resolved (out_path ts) none (Avoids-out_path ts h)
      (subst (Stays []) (sym same) (Stays-Names [] ts h))
    ∙ ap (λ us. out_path (resolved [] us)) same
    ∙ ap out_path (resolved-unwind [] ts h)

-- `Split` takes the path that `CanonicalizePath` prints apart into names, none of them `.` or `..`, and to
-- make that path canonical again changes nothing, where the path does not lead from the root upwards.
pub canonicalize_path-Names :
    (path : List ℕ) (dir : Option (List ℕ))
    → Avoids 0 (full_path path dir)
    → Stays [] (fields slash [] (full_path path dir))
    → Names (split (canonicalize_path path dir) slash)
      × (canonicalize_path (canonicalize_path path dir) none ≡ canonicalize_path path dir)
canonicalize_path-Names path dir a s =
    let ts = resolved [] (fields slash [] (full_path path dir)) in
    let names = path-Names (full_path path dir) a in
    let is = canonicalize_path-resolved path dir a s in
    (
      subst Names
          (sym (
            ap (λ p. split p slash) is
            ∙ split-fields (out_path ts) slash
            ∙ fields-out_path ts (Names-Parts ts names)))
          names,
      ap (λ p. canonicalize_path p none) is ∙ canonical-Names ts names ∙ sym is,
    )

-- A `..` at the root is removed, and the token behind it is passed over: two `..` in front of names
-- leave the second one in the path.
pub canonical_tokens_above :
    (ts : List (List ℕ)) → Names ts → canonical_tokens (dotdot ∷ (dotdot ∷ ts)) ≡ dotdot ∷ ts
unfolding canonical_tokens canonical_loop canonical_round remove_at strcmp_eq
canonical_tokens_above ts h =
    canonical_loop-resolved (suc (suc (length ts))) (dotdot ∷ []) ts (omega arith)
      (Stays-Names (dotdot ∷ []) ts h)
    ∙ resolved-unwind (dotdot ∷ []) ts h
