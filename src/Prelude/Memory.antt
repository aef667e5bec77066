-- ===== src/Prelude/Memory.antt =====
-- `memcpy` and `memmove` between blocks of memory, as lists of elements, and the element laws by
-- which two lists are compared.
use lori_os.Prelude.Lists.{length, set, take, drop, get_elem?, length-take, length-drop}
use lori_os.Prelude.Tests.{ltb, ◌==◌, if◌then◌else◌}
use Prim.Native.Nat.{ℕ, zero, suc, ◌+◌, ◌-◌, ◌≤◌}
use mathlib.Core.Path.{◌≡◌, refl, ap, ap₂, ◌∙◌}
use mathlib.Core.Bool.{◌&&◌, not}
use mathlib.Core.List.{List, [], ◌∷◌, ◌++◌}
use mathlib.Core.Option.{none, some}
use native.Mathlib.Omega.{arith}

module _ {ℓ} {A : Type ℓ} where
  -- The elements `src` are written to the block `dst` from index `off` on. What would lie past
  -- the end of the block is dropped.
  abbrev pub copy_to : ℕ → List A → List A → List A
  copy_to off src [] = []
  copy_to zero [] (d ∷ dst) = d ∷ dst
  copy_to zero (s ∷ src) (d ∷ dst) = s ∷ copy_to zero src dst
  copy_to (suc off) src (d ∷ dst) = d ∷ copy_to off src dst

  -- The `n` elements of a block from index `off` on.
  abbrev pub slice : ℕ → ℕ → List A → List A
  slice off n xs = take n (drop off xs)

  pub length-copy_to : (off : ℕ) (src dst : List A) → length (copy_to off src dst) ≡ length dst
  length-copy_to off src [] = refl
  length-copy_to zero [] (d ∷ dst) = refl
  length-copy_to zero (s ∷ src) (d ∷ dst) = ap suc (length-copy_to zero src dst)
  length-copy_to (suc off) src (d ∷ dst) = ap suc (length-copy_to off src dst)

-- The laws are stated at the level of the elements that the program stores, `Type 0`: `ground`
-- splits on numbers there.
module _ {A : Type 0} where
  head_eq : {x y : A} → some x ≡ some y → x ≡ y
  head_eq e = cc

  -- Lists with the same elements at each index are equal.
  pub list_ext : (xs ys : List A) → ((i : ℕ) → get_elem? xs i ≡ get_elem? ys i) → xs ≡ ys
  list_ext [] [] h = refl
  list_ext [] (y ∷ ys) h = cc (h 0)
  list_ext (x ∷ xs) [] h = cc (h 0)
  list_ext (x ∷ xs) (y ∷ ys) h = ap₂ ◌∷◌ (head_eq (h 0)) (list_ext xs ys (λ i. h (suc i)))

  pub get_elem?-nil : (i : ℕ) → get_elem? {A = A} [] i ≡ none
  get_elem?-nil i = refl

  pub get_elem?-take :
      (n : ℕ) (xs : List A) (i : ℕ)
      → get_elem? (take n xs) i ≡ (if ltb i n then get_elem? xs i else none)
  get_elem?-take zero xs i = ground arith
  get_elem?-take (suc n) [] i = ground arith
  get_elem?-take (suc n) (x ∷ xs) zero = ground arith
  get_elem?-take (suc n) (x ∷ xs) (suc i) = ground (arith, get_elem?-take n xs i)

  pub get_elem?-drop :
      (n : ℕ) (xs : List A) (i : ℕ) → get_elem? (drop n xs) i ≡ get_elem? xs (n + i)
  get_elem?-drop zero xs i = ground arith
  get_elem?-drop (suc n) [] i = refl
  get_elem?-drop (suc n) (x ∷ xs) i =
      get_elem?-drop n xs i
      ∙ ap (get_elem? (x ∷ xs)) {x = suc (n + i)} {y = suc n + i} (omega arith)

  pub get_elem?-append :
      (xs ys : List A) (i : ℕ)
      → get_elem? (xs ++ ys) i
        ≡ (if ltb i (length xs) then get_elem? xs i else get_elem? ys (i - length xs))
  get_elem?-append [] ys i = ground arith
  get_elem?-append (x ∷ xs) ys zero = ground arith
  get_elem?-append (x ∷ xs) ys (suc i) = ground (arith, get_elem?-append xs ys i)

  pub get_elem?_past : (xs : List A) (i : ℕ) → length xs ≤ i → get_elem? xs i ≡ none
  get_elem?_past [] i h = refl
  get_elem?_past (x ∷ xs) zero h = absurd (omega arith)
  get_elem?_past (x ∷ xs) (suc i) h = get_elem?_past xs i (omega arith)

  pub get_elem?-copy_to :
      (off : ℕ) (src dst : List A) (i : ℕ)
      → get_elem? (copy_to off src dst) i ≡ (
          if ltb i (length dst)
          then if not (ltb i off) && ltb i (off + length src)
            then get_elem? src (i - off)
            else get_elem? dst i
          else none)
  get_elem?-copy_to off src [] i = ground arith
  get_elem?-copy_to zero [] (d ∷ dst) i = ground (arith, get_elem?_past (d ∷ dst) i)
  get_elem?-copy_to zero (s ∷ src) (d ∷ dst) zero = ground arith
  get_elem?-copy_to zero (s ∷ src) (d ∷ dst) (suc i) =
      ground (arith, get_elem?-copy_to zero src dst i)
  get_elem?-copy_to (suc off) src (d ∷ dst) zero = ground arith
  get_elem?-copy_to (suc off) src (d ∷ dst) (suc i) =
      ground (arith, get_elem?-copy_to off src dst i)

  pub get_elem?_one : (x : A) (i : ℕ) → get_elem? (x ∷ []) i ≡ (if i == 0 then some x else none)
  get_elem?_one x zero = ground arith
  get_elem?_one x (suc i) = ground arith

  pub get_elem?-set :
      (xs : List A) (j : ℕ) (v : A) (i : ℕ)
      → get_elem? (set xs j v) i
        ≡ (if (i == j) && ltb i (length xs) then some v else get_elem? xs i)
  get_elem?-set [] j v i = ground arith
  get_elem?-set (x ∷ xs) zero v zero = ground arith
  get_elem?-set (x ∷ xs) zero v (suc i) = ground arith
  get_elem?-set (x ∷ xs) (suc j) v zero = ground arith
  get_elem?-set (x ∷ xs) (suc j) v (suc i) = ground (arith, get_elem?-set xs j v i)

  pub ruleset elements =
      (get_elem?-set, get_elem?-take, get_elem?-drop, get_elem?-append, get_elem?-copy_to)

  -- What lies before the write is kept, then comes what is written.
  pub take-copy_to :
      (off : ℕ) (src dst : List A)
      → off + length src ≤ length dst
      → take (off + length src) (copy_to off src dst) ≡ take off dst ++ src
  take-copy_to off src dst h =
      list_ext _ _
        λ i. simp elements (ground (arith, length-take off dst, get_elem?_past src (i - off)))

  -- Moving what follows the first `n` elements of a block, up to `m`, to its front leaves in the
  -- first `pos - n` places what was there behind those.
  pub shift_down :
      (n pos m : ℕ) (xs : List A)
      → pos ≤ m
      → m ≤ length xs
      → take (pos - n) (copy_to 0 (slice n (m - n) xs) xs) ≡ drop n (take pos xs)
  shift_down n pos m xs h k =
      list_ext _ _
        λ i. simp elements (ground (arith, length-take (m - n) (drop n xs), length-drop n xs))
