-- ===== src/CString/Tokens.antt =====
-- `strtok_r` of Kernel/src/String.cpp, called until it returns the null pointer, against the parts of a
-- text between its delimiters.
use lori_os.Prelude.{
  ℕ, zero, suc, ◌≤◌, ◌<◌, ◌≡◌, ◌≢◌, refl, ap, sym, ◌∙◌, List, [], ◌∷◌, ◌++◌, Option, none, some,
  arith, if◌then◌else◌, ◌==◌, length, take, drop, length-drop, ℕ_discrete, append-nil, append_assoc,
}
use lori_os.CString.{strchr, strspn, strcspn, strtok_r, past, start_at, is_found}
use lori_os.CString.Search.{Avoids}

-- A part is kept unless it is empty.
abbrev pub keep : List ℕ → List (List ℕ) → List (List ℕ)
keep [] parts = parts
keep (x ∷ s) parts = (x ∷ s) ∷ parts

-- The parts of a text between the bytes `d` that are not empty; `cur` is the start of the first.
unfoldable pub fields : ℕ → List ℕ → List ℕ → List (List ℕ)
fields d cur [] = keep cur []
fields d cur (x ∷ s) =
    let within = fields d (cur ++ (x ∷ [])) s in
    let behind = keep cur (fields d [] s) in if x == d then behind else within

-- The calls of `strtok_r`: the first has made a result, the others go on at the kept pointer.
unfoldable pub tokens_from : ℕ → List ℕ → Option (List ℕ) × Option (List ℕ) → List (List ℕ)
unfolding strtok_r
tokens_from zero delim (file, saved) = []
tokens_from (suc fuel) delim (none, saved) = []
tokens_from (suc fuel) delim (some file, saved) =
    file ∷ tokens_from fuel delim (strtok_r none delim saved)

-- A text has no more tokens than bytes.
unfoldable pub tokens : List ℕ → List ℕ → List (List ℕ)
unfolding tokens_from
tokens s delim = tokens_from (suc (length s)) delim (strtok_r (some s) delim none)

module _ (d : ℕ) where
  found_delim : (x : ℕ) → x ≢ 0 → is_found (strchr (d ∷ []) x) ≡ (x == d)
  unfolding strchr
  found_delim x nz = ground arith

  -- What is left behind the first part.
  behind_part : List ℕ → List (List ℕ)
  behind_part [] = []
  behind_part (x ∷ s) = fields d [] s

  fields_part :
      (cur s : List ℕ)
      → Avoids 0 s
      → fields d cur s
        ≡ keep (cur ++ take (strcspn s (d ∷ [])) s) (behind_part (drop (strcspn s (d ∷ [])) s))
  unfolding fields strcspn behind_part
  fields_part cur [] h = ap (λ c. keep c []) (sym (append-nil cur))
  fields_part cur (x ∷ s) (nz, h) = elim (ℕ_discrete x d) [
    | yes same ↦ ground (arith, found_delim x nz, append-nil cur)
    | no ne ↦ ground (
      arith,
      found_delim x nz,
      fields_part (cur ++ (x ∷ [])) s h,
      append_assoc cur (x ∷ []) (take (strcspn s (d ∷ [])) s),
    )
  ]

  fields_skip : (s : List ℕ) → Avoids 0 s → fields d [] s ≡ fields d [] (drop (strspn s (d ∷ [])) s)
  unfolding fields strspn
  fields_skip [] h = refl
  fields_skip (x ∷ s) (nz, h) = ground (arith, found_delim x nz, fields_skip s h)

  no_part_left :
      (s : List ℕ)
      → Avoids 0 s
      → strcspn (drop (strspn s (d ∷ [])) s) (d ∷ []) ≡ 0
      → drop (strspn s (d ∷ [])) s ≡ []
  unfolding strspn strcspn
  no_part_left [] h e = refl
  no_part_left (x ∷ s) (nz, h) e = ground (arith, found_delim x nz, no_part_left s h)

  strcspn-le : (s : List ℕ) → strcspn s (d ∷ []) ≤ length s
  unfolding strcspn
  strcspn-le [] = omega arith
  strcspn-le (x ∷ s) = ground (arith, strcspn-le s)

  Avoids-drop : (n : ℕ) (s : List ℕ) → Avoids 0 s → Avoids 0 (drop n s)
  Avoids-drop zero s h = h
  Avoids-drop (suc n) [] h = h
  Avoids-drop (suc n) (x ∷ s) (ne, h) = Avoids-drop n s h

  keep-take :
      (n : ℕ) (s : List ℕ) (r : List (List ℕ))
      → n ≢ 0
      → n ≤ length s
      → keep (take n s) r ≡ take n s ∷ r
  keep-take zero s r nz h = absurd (nz refl)
  keep-take (suc n) [] r nz h = absurd (omega arith)
  keep-take (suc n) (x ∷ s) r nz h = refl

  -- The first token, where one is left.
  strtok_r_first :
      (str saved : Option (List ℕ)) (p : List ℕ)
      → start_at str saved ≡ some p
      → strcspn (drop (strspn p (d ∷ [])) p) (d ∷ []) ≢ 0
      → strtok_r str (d ∷ []) saved ≡ (
        some (take (strcspn (drop (strspn p (d ∷ [])) p) (d ∷ [])) (drop (strspn p (d ∷ [])) p)),
        past (drop (strcspn (drop (strspn p (d ∷ [])) p) (d ∷ [])) (drop (strspn p (d ∷ [])) p)),
      )
  unfolding strtok_r
  strtok_r_first str saved p e nz = ground arith

  strtok_r_last :
      (str saved : Option (List ℕ)) (p : List ℕ)
      → start_at str saved ≡ some p
      → strcspn (drop (strspn p (d ∷ [])) p) (d ∷ []) ≡ 0
      → strtok_r str (d ∷ []) saved ≡ (none, none)
  unfolding strtok_r
  strtok_r_last str saved p e z = ground arith

  tokens_behind :
      (fuel : ℕ) (u : List ℕ)
      → ((t : List ℕ)
          → length t < fuel
          → Avoids 0 t
          → tokens_from fuel (d ∷ []) (strtok_r none (d ∷ []) (some t)) ≡ fields d [] t)
      → length u ≤ fuel
      → Avoids 0 u
      → tokens_from fuel (d ∷ []) (strtok_r none (d ∷ []) (past u)) ≡ behind_part u
  unfolding tokens_from strtok_r behind_part
  tokens_behind zero [] ih h a = refl
  tokens_behind (suc fuel) [] ih h a = refl
  tokens_behind fuel (x ∷ t) ih h (ne, a) = ih t h a

  tokens_from-fields :
      (fuel : ℕ) (str saved : Option (List ℕ)) (p : List ℕ)
      → start_at str saved ≡ some p
      → length p < fuel
      → Avoids 0 p
      → tokens_from fuel (d ∷ []) (strtok_r str (d ∷ []) saved) ≡ fields d [] p
  unfolding tokens_from fields
  tokens_from-fields zero str saved p e h a = absurd (omega arith)
  tokens_from-fields (suc fuel) str saved p e h a =
      let s = drop (strspn p (d ∷ [])) p in
      let n = strcspn s (d ∷ []) in
      let left = Avoids-drop (strspn p (d ∷ [])) p a in
      elim (ℕ_discrete n 0) [
        | yes z ↦
            ap (tokens_from (suc fuel) (d ∷ [])) (strtok_r_last str saved p e z)
            ∙ ap (fields d []) (sym (no_part_left p a z))
            ∙ sym (fields_skip p a)
        | no nz ↦
            ap (tokens_from (suc fuel) (d ∷ [])) (strtok_r_first str saved p e nz)
            ∙ ap (take n s ∷◌) (
                tokens_behind fuel (drop n s)
                  (λ t l at. tokens_from-fields fuel none (some t) t refl l at)
                  (omega (arith, length-drop n s, length-drop (strspn p (d ∷ [])) p))
                  (Avoids-drop n s left))
            ∙ sym (keep-take n s (behind_part (drop n s)) nz (strcspn-le s))
            ∙ sym (fields_part [] s left)
            ∙ sym (fields_skip p a)
      ]

  -- Called until it returns the null pointer, `strtok_r` with one delimiter returns the parts of the
  -- text between the delimiters that are not empty, in their order.
  pub tokens-fields : (s : List ℕ) → Avoids 0 s → tokens s (d ∷ []) ≡ fields d [] s
  unfolding tokens
  tokens-fields s a = tokens_from-fields (suc (length s)) (some s) none s refl (omega arith) a
