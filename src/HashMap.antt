-- ===== src/HashMap.antt =====
-- `HashMap` of Kernel/include/Hash.h: buckets of pairs of a key and a value. The lock is held for the
-- whole of each operation that changes the map.
pub mod Bucket
pub mod Entries
pub mod Runs
mod Tests
use lori_os.Prelude.{
  ℕ, zero, suc, ◌+◌, ◌*◌, ◌/◌, ◌%◌, ◌^◌, List, [], ◌∷◌, ◌++◌, Bool, true, false, Option, none, some,
  if◌then◌else◌, get_or, set, replicate, length, add32, sub32,
}
use Prim.Native.Nat.{bit_xor}
use mathlib.Core.Option

-- `HashU`
pub mixed : ℕ → ℕ
mixed h = bit_xor (h / 2 ^ 5) h * 47499631 % 2 ^ 32

unfoldable pub hash_u : ℕ → ℕ
unfolding mixed
hash_u value = let hash = mixed (mixed (value % 2 ^ 32)) in bit_xor (hash / 2 ^ 5) hash

pub record HashMap (K V : Type 0) : Type 0 where
  pub buckets : List (List (K × V))
  pub item_count : ℕ

-- whether a look-up returned a value
abbrev pub is_value : {V : Type 0} → Option V → Bool
is_value none = false
is_value (some v) = true

module _ {K V : Type 0} where
  -- The constructor that is given a number of buckets.
  unfoldable pub empty_map : ℕ → HashMap K V
  empty_map bucket_count = record { buckets = replicate bucket_count []; item_count = 0 }

  module _ (same : K → K → Bool) (key : K) where
    -- the loop of `insert`: the first pair with the key is replaced
    unfoldable pub replaced : V → List (K × V) → Option (List (K × V))
    replaced value [] = none
    replaced value ((k, v) ∷ ps) =
        let rest = Option.map ((k, v) ∷◌) (replaced value ps) in
        if same k key then some ((k, value) ∷ ps) else rest

    -- the loops of `get` and `find`
    unfoldable pub looked_up : List (K × V) → Option V
    looked_up [] = none
    looked_up ((k, v) ∷ ps) = let rest = looked_up ps in if same k key then some v else rest

    -- the loop of `remove`: the value, and the bucket without the pair
    unfoldable pub taken : List (K × V) → Option (V × List (K × V))
    taken [] = none
    taken ((k, v) ∷ ps) =
        let rest = Option.map (λ (w, qs). (w, (k, v) ∷ qs)) (taken ps) in
        if same k key then some (v, ps) else rest

  module _ (same : K → K → Bool) (hash : K → ℕ) where
    unfoldable pub bucket_of : HashMap K V → K → ℕ
    bucket_of m key = hash key % length m.buckets

    unfoldable pub insert : K → V → HashMap K V → HashMap K V
    unfolding replaced bucket_of
    insert key value m =
        let b = bucket_of m key in
        let bucket = get_or m.buckets b [] in
        elim (replaced same key value bucket) [
          | some ps ↦ record m { buckets = set m.buckets b ps; item_count = add32 m.item_count 1 }
          | none ↦ record m { buckets = set m.buckets b (bucket ++ ((key, value) ∷ [])) }
        ]

    -- `get`, and `find`, which returns whether there is a value
    unfoldable pub get : HashMap K V → K → Option V
    unfolding looked_up bucket_of
    get m key = looked_up same key (get_or m.buckets (bucket_of m key) [])

    unfoldable pub find : HashMap K V → K → Bool
    unfolding get
    find m key = is_value (get m key)

    unfoldable pub remove : K → HashMap K V → Option V × HashMap K V
    unfolding taken bucket_of
    remove key m =
        let b = bucket_of m key in
        elim (taken same key (get_or m.buckets b [])) [
          | none ↦ (none, m)
          | some (v, ps) ↦
              (some v, record m { buckets = set m.buckets b ps; item_count = sub32 m.item_count 1 })
        ]

  -- the inner loop of `removeValue`
  unfoldable pub without_value : (V → V → Bool) → V → List (K × V) → Option (List (K × V))
  without_value same_value value [] = none
  without_value same_value value ((k, v) ∷ ps) =
      let rest = Option.map ((k, v) ∷◌) (without_value same_value value ps) in
      if same_value v value then some ps else rest

  -- the outer loop, which ends at the first bucket that has the value
  unfoldable pub buckets_without :
      (V → V → Bool) → V → List (List (K × V)) → Option (List (List (K × V)))
  unfolding without_value
  buckets_without same_value value [] = none
  buckets_without same_value value (ps ∷ bs) =
      let rest = Option.map (ps ∷◌) (buckets_without same_value value bs) in
      elim (without_value same_value value ps) [ some qs ↦ some (qs ∷ bs) | none ↦ rest ]

  unfoldable pub remove_value : (V → V → Bool) → V → HashMap K V → HashMap K V
  unfolding buckets_without
  remove_value same_value value m = elim (buckets_without same_value value m.buckets) [
    | none ↦ m
    | some bs ↦ record m { buckets = bs; item_count = sub32 m.item_count 1 }
  ]
