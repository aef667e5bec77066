-- ===== src/CString/Search.antt =====
-- The searches for a byte in Kernel/src/String.cpp: `strchr`, `strnchr` and `strrchr`.
use lori_os.Prelude.{
  ℕ, zero, suc, ◌≤◌, ◌<◌, false, ◌≡◌, ◌≢◌, refl, ap, ◌∙◌, sym, subst, ◌⊎◌, inl, inr, List, [], ◌∷◌,
  ◌++◌, Option, none, some, arith, if◌then◌else◌, ◌==◌, length, take, drop, ℕ_discrete,
}
use lori_os.CString.{strchr, strnchr, sign_extended, strrchr, strrchr_from}

-- The text does not have the byte.
abbrev pub Avoids : ℕ → List ℕ → Type 0
Avoids c [] = Unit
Avoids c (x ∷ s) = (x ≢ c) × Avoids c s

-- `t` stands directly behind the last occurrence of the byte in `s`.
abbrev pub BehindLast : ℕ → List ℕ → List ℕ → Type 0
BehindLast c s t = (pre : List ℕ) × (s ≡ pre ++ (c ∷ t)) × Avoids c t

-- What `strrchr` promises about its result.
abbrev pub LastFound : ℕ → List ℕ → Option (List ℕ) → Type 0
LastFound c s none = Avoids c s
LastFound c s (some t) = BehindLast c s t

same_char : (x c : ℕ) → (sign_extended x == sign_extended c) ≡ (x == c)
same_char x c = ground arith

strrchr_from-Avoids :
    (occ : Option (List ℕ)) (s : List ℕ) (c : ℕ)
    → Avoids c s
    → strrchr_from occ s (sign_extended c) ≡ occ
unfolding strrchr_from
strrchr_from-Avoids occ [] c h = refl
strrchr_from-Avoids occ (x ∷ s) c (ne, h) =
    ap (λ o. strrchr_from o s (sign_extended c))
      {x = if sign_extended x == sign_extended c then some s else occ} {y = occ}
      (ground (arith, same_char x c))
    ∙ strrchr_from-Avoids occ s c h

strrchr_from-append :
    (occ : Option (List ℕ)) (pre t : List ℕ) (c : ℕ)
    → Avoids c t
    → strrchr_from occ (pre ++ (c ∷ t)) (sign_extended c) ≡ some t
unfolding strrchr_from
strrchr_from-append occ [] t c h =
    ap (λ o. strrchr_from o t (sign_extended c))
      {x = if sign_extended c == sign_extended c then some t else occ} {y = some t}
      (ground (arith, same_char c c))
    ∙ strrchr_from-Avoids (some t) t c h
strrchr_from-append occ (x ∷ pre) t c h =
    strrchr_from-append (if sign_extended x == sign_extended c then some (pre ++ (c ∷ t)) else occ)
      pre t c h

pub strrchr-append :
    (pre t : List ℕ) (c : ℕ) → Avoids c t → strrchr (pre ++ (c ∷ t)) (sign_extended c) ≡ some t
unfolding strrchr
strrchr-append pre t c h = strrchr_from-append none pre t c h

-- From a text without the byte on the loop returns what it holds, otherwise what it finds last.
abbrev From : ℕ → Option (List ℕ) → List ℕ → Option (List ℕ) → Type 0
From c occ s r = (Avoids c s × (r ≡ occ)) ⊎ ((t : List ℕ) × (r ≡ some t) × BehindLast c s t)

From-cons :
    (c x : ℕ) (occ : Option (List ℕ)) (s : List ℕ) (r : Option (List ℕ))
    → From c (if sign_extended x == sign_extended c then some s else occ) s r
    → From c occ (x ∷ s) r
From-cons c x occ s r (inr (t, e, (pre, split, free))) =
    inr (t, e, (x ∷ pre, ap (x ∷◌) split, free))
From-cons c x occ s r (inl (free, e)) = elim (ℕ_discrete x c) [
  | yes same ↦ inr (s, ground (arith, same_char x c), ([], ap (◌∷ s) same, free))
  | no ne ↦ inl ((ne, free), ground (arith, same_char x c))
]

From-strrchr_from :
    (c : ℕ) (occ : Option (List ℕ)) (s : List ℕ)
    → From c occ s (strrchr_from occ s (sign_extended c))
unfolding strrchr_from
From-strrchr_from c occ [] = inl (tt, refl)
From-strrchr_from c occ (x ∷ s) =
    From-cons c x occ s _
      (From-strrchr_from c (if sign_extended x == sign_extended c then some s else occ) s)

-- A byte from 128 on that is passed as it is, and not as the `char`, is never found.
strrchr_misses : (s : List ℕ) (c : ℕ) → 128 ≤ c → c < 256 → strrchr s c ≡ none
unfolding strrchr strrchr_from
strrchr_misses s c low high = passes none s
  where
    differs : (x : ℕ) → (sign_extended x == c) ≡ false
    differs x = ground arith

    passes : (occ : Option (List ℕ)) (s : List ℕ) → strrchr_from occ s c ≡ occ
    passes occ [] = refl
    passes occ (x ∷ s) =
        ap (λ b. strrchr_from (if b then some s else occ) s c) (differs x) ∙ passes occ s

-- `strrchr`, called with a `char`, which the call extends by its sign, returns the null pointer exactly where
-- the text does not have it; else it returns the pointer one past the last occurrence.
pub strrchr-LastFound : (s : List ℕ) (c : ℕ) → LastFound c s (strrchr s (sign_extended c))
unfolding strrchr
strrchr-LastFound s c = elim (From-strrchr_from c none s) [
  | inl (free, e) ↦ subst (LastFound c s) (sym e) free
  | inr (t, e, found) ↦ subst (LastFound c s) (sym e) found
]

-- What `strchr` promises for a byte other than 0: the text from the first occurrence on.
abbrev pub FirstFound : ℕ → List ℕ → Option (List ℕ) → Type 0
FirstFound c s none = Avoids c s
FirstFound c s (some t) =
    (pre : List ℕ) × (rest : List ℕ) × (s ≡ pre ++ t) × (t ≡ c ∷ rest) × Avoids c pre

FirstFound-cons :
    (c x : ℕ) (s : List ℕ) (r : Option (List ℕ)) → x ≢ c → FirstFound c s r → FirstFound c (x ∷ s) r
FirstFound-cons c x s none ne h = (ne, h)
FirstFound-cons c x s (some t) ne (pre, rest, split, head, free) =
    (x ∷ pre, rest, ap (x ∷◌) split, head, (ne, free))

-- `strchr` returns the null pointer exactly where the text does not have the byte, which is not 0; else
-- it returns the text from the first occurrence on.
pub strchr-FirstFound : (s : List ℕ) (c : ℕ) → c ≢ 0 → FirstFound c s (strchr s c)
unfolding strchr
strchr-FirstFound [] c nz = subst (FirstFound c []) {x = none} (ground arith) tt
strchr-FirstFound (x ∷ s) c nz = elim (ℕ_discrete x c) [
  | yes same ↦
      subst (FirstFound c (x ∷ s)) {x = some (x ∷ s)} (ground arith)
        ([], s, refl, ap (◌∷ s) same, tt)
  | no ne ↦
      subst (FirstFound c (x ∷ s)) {x = strchr s c} (ground arith)
        (FirstFound-cons c x s (strchr s c) ne (strchr-FirstFound s c nz))
]

-- `strnchr` does not return the null pointer where the first `n` bytes do not have the byte, although
-- there are as many: it returns the text behind them.
pub strnchr_past :
    (s : List ℕ) (c n : ℕ) → n ≤ length s → Avoids c (take n s) → strnchr s c n ≡ some (drop n s)
unfolding strnchr
strnchr_past s c zero h free = refl
strnchr_past [] c (suc n) h free = absurd (omega arith)
strnchr_past (x ∷ s) c (suc n) h (ne, free) =
    let rest = strnchr_past s c n (omega arith) free in ground arith
