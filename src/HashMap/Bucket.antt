-- ===== src/HashMap/Bucket.antt =====
-- One bucket of the `HashMap` of Kernel/include/Hash.h: its pairs as a list.
use lori_os.Prelude.{
  ◌≡◌, refl, ap, sym, subst, ◌∙◌, List, [], ◌∷◌, ◌++◌, Bool, Bool-cases, true, false, Option, none,
  some, arith, if◌then◌else◌, inl, inr,
}
use mathlib.Core.Option
use lori_os.HashMap.{replaced, looked_up, taken}

-- The `==` of the keys tells whether they are equal.
pub record IsEquality {K : Type 0} (same : K → K → Bool) : Type 0 where
  pub itself : (a : K) → same a a ≡ true
  pub equal : (a b : K) → same a b ≡ true → a ≡ b

module _ {K : Type 0} (same : K → K → Bool) (eq : IsEquality same) where
  differs : (a b : K) → same a b ≡ false → a ≡ b → ⊥
  differs a b ne e = let at_a = eq.itself a in let f = ap (same a) e in cc

  pub turned : (a b : K) → same a b ≡ false → same b a ≡ false
  turned a b ne = elim (Bool-cases (same b a)) [
    | inl f ↦ absurd (differs a b ne (sym (eq.equal b a f)))
    | inr f ↦ f
  ]

  -- `j` is not both keys, if they differ.
  apart : (k key j : K) → same k key ≡ false → same k j ≡ true → same key j ≡ false
  apart k key j ne e = elim (Bool-cases (same key j)) [
    | inl f ↦ absurd (differs k key ne (eq.equal k j e ∙ sym (eq.equal key j f)))
    | inr f ↦ f
  ]

module _ {K V : Type 0} (same : K → K → Bool) (eq : IsEquality same) where
  -- The answer for `j` behind a write of `value` at `key`.
  unfoldable pub Stores : K → V → K → List (K × V) → Option (List (K × V)) → Type 0
  Stores key value j ps (some qs) =
      looked_up same j qs ≡ (if same key j then some value else looked_up same j ps)
  Stores key value j ps none =
      looked_up same j (ps ++ ((key, value) ∷ []))
      ≡ (if same key j then some value else looked_up same j ps)

  Stores-cons :
      (key k j : K) (value v : V) (ps : List (K × V)) (o : Option (List (K × V)))
      → same k key ≡ false
      → Stores key value j ps o
      → Stores key value j ((k, v) ∷ ps) (Option.map ((k, v) ∷◌) o)
  unfolding Stores looked_up
  Stores-cons key k j value v ps none ne h =
      let no_both = apart same eq k key j ne in ground (arith)
  Stores-cons key k j value v ps (some qs) ne h =
      let no_both = apart same eq k key j ne in ground (arith)

  pub Stores-replaced :
      (key j : K) (value : V) (ps : List (K × V))
      → Stores key value j ps (replaced same key value ps)
  unfolding Stores replaced looked_up
  Stores-replaced key j value [] = refl
  Stores-replaced key j value ((k, v) ∷ ps) = elim (Bool-cases (same k key)) [
    | inl e ↦
        subst (Stores key value j ((k, v) ∷ ps)) {x = some ((k, value) ∷ ps)} (rw e refl)
          (let f = ap (λ a. same a j) (eq.equal k key e) in ground arith)
    | inr ne ↦
        subst (Stores key value j ((k, v) ∷ ps))
          {x = Option.map ((k, v) ∷◌) (replaced same key value ps)} (rw ne refl)
          (Stores-cons key k j value v ps _ ne (Stores-replaced key j value ps))
  ]

  -- No key stands in the bucket twice.
  abbrev pub Distinct : List (K × V) → Type 0
  Distinct [] = Unit
  Distinct ((k, v) ∷ ps) = (looked_up same k ps ≡ none) × Distinct ps

  -- The bucket that a write leaves has distinct keys too.
  unfoldable pub StoresDistinct : K → V → List (K × V) → Option (List (K × V)) → Type 0
  StoresDistinct key value ps (some qs) = Distinct qs
  StoresDistinct key value ps none = Distinct (ps ++ ((key, value) ∷ []))

  StoresDistinct-cons :
      (key k : K) (value v : V) (ps : List (K × V)) (o : Option (List (K × V)))
      → same k key ≡ false
      → looked_up same k ps ≡ none
      → Stores key value k ps o
      → StoresDistinct key value ps o
      → StoresDistinct key value ((k, v) ∷ ps) (Option.map ((k, v) ∷◌) o)
  unfolding Stores StoresDistinct
  StoresDistinct-cons key k value v ps none ne fresh h d =
      let other = turned same eq k key ne in (ground arith, d)
  StoresDistinct-cons key k value v ps (some qs) ne fresh h d =
      let other = turned same eq k key ne in (ground arith, d)

  pub StoresDistinct-replaced :
      (key : K) (value : V) (ps : List (K × V))
      → Distinct ps
      → StoresDistinct key value ps (replaced same key value ps)
  unfolding StoresDistinct replaced looked_up
  StoresDistinct-replaced key value [] d = (refl, tt)
  StoresDistinct-replaced key value ((k, v) ∷ ps) (fresh, d) = elim (Bool-cases (same k key)) [
    | inl e ↦
        subst (StoresDistinct key value ((k, v) ∷ ps)) {x = some ((k, value) ∷ ps)} (rw e refl)
          (fresh, d)
    | inr ne ↦
        subst (StoresDistinct key value ((k, v) ∷ ps))
          {x = Option.map ((k, v) ∷◌) (replaced same key value ps)} (rw ne refl)
          (StoresDistinct-cons key k value v ps _ ne fresh (Stores-replaced key k value ps)
            (StoresDistinct-replaced key value ps d))
  ]

  -- What the removal of `key` does for `j`.
  unfoldable pub Takes : K → K → List (K × V) → Option (V × List (K × V)) → Type 0
  Takes key j ps none = looked_up same key ps ≡ none
  Takes key j ps (some (v, qs)) =
      (looked_up same key ps ≡ some v)
      × (looked_up same j qs ≡ (if same key j then none else looked_up same j ps))

  Takes-cons :
      (key k j : K) (v : V) (ps : List (K × V)) (o : Option (V × List (K × V)))
      → same k key ≡ false
      → Takes key j ps o
      → Takes key j ((k, v) ∷ ps) (Option.map (λ (w, qs). (w, (k, v) ∷ qs)) o)
  unfolding Takes looked_up
  Takes-cons key k j v ps none ne h = ground arith
  Takes-cons key k j v ps (some (w, qs)) ne (here, h) =
      let no_both = apart same eq k key j ne in (ground arith, ground arith)

  found_there :
      (key k j : K) (ps : List (K × V))
      → same k key ≡ true
      → looked_up same k ps ≡ none
      → same key j ≡ true
      → looked_up same j ps ≡ none
  found_there key k j ps e fresh f =
      ap (λ a. looked_up same a ps) (sym (eq.equal k key e ∙ eq.equal key j f)) ∙ fresh

  pub Takes-taken :
      (key j : K) (ps : List (K × V)) → Distinct ps → Takes key j ps (taken same key ps)
  unfolding Takes taken looked_up
  Takes-taken key j [] d = refl
  Takes-taken key j ((k, v) ∷ ps) (fresh, d) = elim (Bool-cases (same k key)) [
    | inl e ↦ subst (Takes key j ((k, v) ∷ ps)) {x = some (v, ps)} (rw e refl) (
      ground arith,
      let f = ap (λ a. same a j) (eq.equal k key e) in
          let g = found_there key k j ps e fresh in ground arith,
    )
    | inr ne ↦
        subst (Takes key j ((k, v) ∷ ps))
          {x = Option.map (λ (w, qs). (w, (k, v) ∷ qs)) (taken same key ps)} (rw ne refl)
          (Takes-cons key k j v ps _ ne (Takes-taken key j ps d))
  ]

  unfoldable pub TakesDistinct : List (K × V) → Option (V × List (K × V)) → Type 0
  TakesDistinct ps none = Unit
  TakesDistinct ps (some (v, qs)) = Distinct qs

  TakesDistinct-cons :
      (key k : K) (v : V) (ps : List (K × V)) (o : Option (V × List (K × V)))
      → looked_up same k ps ≡ none
      → Takes key k ps o
      → TakesDistinct ps o
      → TakesDistinct ((k, v) ∷ ps) (Option.map (λ (w, qs). (w, (k, v) ∷ qs)) o)
  unfolding Takes TakesDistinct
  TakesDistinct-cons key k v ps none fresh h d = tt
  TakesDistinct-cons key k v ps (some (w, qs)) fresh (here, h) d = (ground arith, d)

  pub TakesDistinct-taken :
      (key : K) (ps : List (K × V)) → Distinct ps → TakesDistinct ps (taken same key ps)
  unfolding TakesDistinct taken
  TakesDistinct-taken key [] d = tt
  TakesDistinct-taken key ((k, v) ∷ ps) (fresh, d) = elim (Bool-cases (same k key)) [
    | inl e ↦ subst (TakesDistinct ((k, v) ∷ ps)) {x = some (v, ps)} (rw e refl) d
    | inr ne ↦
        subst (TakesDistinct ((k, v) ∷ ps))
          {x = Option.map (λ (w, qs). (w, (k, v) ∷ qs)) (taken same key ps)} (rw ne refl)
          (TakesDistinct-cons key k v ps _ fresh (Takes-taken key k ps d)
            (TakesDistinct-taken key ps d))
  ]
