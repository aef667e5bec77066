-- ===== src/HashMap/Runs.antt =====
-- Sequences of calls of the `HashMap` of Kernel/include/Hash.h, and its counter.
use lori_os.Prelude.{
  ℕ, ◌<◌, ◌≡◌, refl, ap, ap₂, sym, ◌∙◌, List, [], ◌∷◌, Bool, Option, none, some, arith,
  if◌then◌else◌, Bool-cases, inl, inr, sub32,
}
use lori_os.HashMap.{HashMap, empty_map, insert, get, find, is_value, remove}
use lori_os.HashMap.Bucket.{IsEquality}
use lori_os.HashMap.Entries.{
  IsValid, empty_map-IsValid, get-empty_map, insert_count, remove_count, get-insert, insert-IsValid,
  remove-Removed,
}

pub data Op (K V : Type 0) : Type 0 where
  inserts : K → V → Op K V
  removes gets finds : K → Op K V

pub data Answer (V : Type 0) : Type 0 where
  nothing : Answer V
  value : Option V → Answer V
  is_there : Bool → Answer V

module _ {K V : Type 0} (same : K → K → Bool) where
  pub step : (K → ℕ) → HashMap K V → Op K V → Answer V × HashMap K V
  step hash m (inserts key v) = (nothing, insert same hash key v m)
  step hash m (removes key) = let (o, n) = remove same hash key m in (value o, n)
  step hash m (gets key) = (value (get same hash m key), m)
  step hash m (finds key) = (is_there (find same hash m key), m)

  pub run : (K → ℕ) → HashMap K V → List (Op K V) → List (Answer V)
  unfolding step
  run hash m [] = []
  run hash m (op ∷ ops) = let (a, n) = step hash m op in a ∷ run hash n ops

  -- The same calls of a function from keys to values.
  pub map_step : (K → Option V) → Op K V → Answer V × (K → Option V)
  map_step f (inserts key v) = (nothing, λ j. if same key j then some v else f j)
  map_step f (removes key) = (value (f key), λ j. if same key j then none else f j)
  map_step f (gets key) = (value (f key), f)
  map_step f (finds key) = (is_there (is_value (f key)), f)

  pub map_run : (K → Option V) → List (Op K V) → List (Answer V)
  unfolding map_step
  map_run f [] = []
  map_run f (op ∷ ops) = let (a, g) = map_step f op in a ∷ map_run g ops

  module _ (hash : K → ℕ) (eq : IsEquality same) where
    -- A map and a function that answer alike.
    record Agrees (m : HashMap K V) (f : K → Option V) : Type 0 where
      valid : IsValid same hash eq m
      answers : (j : K) → get same hash m j ≡ f j

    Agrees-insert :
        (m : HashMap K V) (f : K → Option V) (key : K) (v : V)
        → Agrees m f
        → Agrees (insert same hash key v m) (λ j. if same key j then some v else f j)
    Agrees-insert m f key v a = record {
      valid = insert-IsValid same hash eq m a.valid key v;
      answers = λ j.
          get-insert same hash eq m a.valid key v j
          ∙ ap (λ o. if same key j then some v else o) (a.answers j);
    }

    Agrees-remove :
        (m : HashMap K V) (f : K → Option V) (key : K)
        → Agrees m f
        → Agrees (remove same hash key m).1 (λ j. if same key j then none else f j)
    Agrees-remove m f key a =
        let r = remove-Removed same hash eq m a.valid key in
        record {
          valid = r.is_valid;
          answers = λ j. r.others j ∙ ap (λ o. if same key j then none else o) (a.answers j);
        }

    run-Agrees :
        (m : HashMap K V) (f : K → Option V) (ops : List (Op K V))
        → Agrees m f
        → run hash m ops ≡ map_run f ops
    unfolding run map_run step map_step find
    run-Agrees m f [] a = refl
    run-Agrees m f (inserts key v ∷ ops) a = ap (nothing ∷◌) (
        run-Agrees (insert same hash key v m) (λ j. if same key j then some v else f j) ops
          (Agrees-insert m f key v a))
    run-Agrees m f (removes key ∷ ops) a =
        let r = remove-Removed same hash eq m a.valid key in
        ap₂ ◌∷◌ (ap value (r.value ∙ a.answers key)) (
          run-Agrees (remove same hash key m).1 (λ j. if same key j then none else f j) ops
            (Agrees-remove m f key a))
    run-Agrees m f (gets key ∷ ops) a = ap₂ ◌∷◌ (ap value (a.answers key)) (run-Agrees m f ops a)
    run-Agrees m f (finds key ∷ ops) a =
        ap₂ ◌∷◌ (ap (λ o. is_there (is_value o)) (a.answers key)) (run-Agrees m f ops a)

    -- Every sequence of calls of `insert`, `remove`, `get` and `find` on a new map is answered as by a
    -- function from keys to values that starts without values: whatever the hash, and the number of
    -- buckets, if there is one.
    pub run-map_run :
        (bucket_count : ℕ) (ops : List (Op K V))
        → 0 < bucket_count
        → run hash (empty_map bucket_count) ops ≡ map_run (λ j. none) ops
    run-map_run bucket_count ops h =
        run-Agrees (empty_map bucket_count) (λ j. none) ops
          (record {
            valid = empty_map-IsValid same hash eq bucket_count h;
            answers = get-empty_map same hash eq bucket_count;
          })

    at_itself :
        (key : K) (v : V) (m : HashMap K V)
        → (if same key key then some v else get same hash m key) ≡ some v
    at_itself key v m = let e = eq.itself key in ground arith

    back_again :
        (key j : K) (v : V) (m : HashMap K V)
        → get same hash m key ≡ none
        → (if same key j then none else (if same key j then some v else get same hash m j))
          ≡ get same hash m j
    back_again key j v m new = elim (Bool-cases (same key j)) [
      | inl e ↦ rw e (sym (ap (get same hash m) (sym (eq.equal key j e)) ∙ new))
      | inr ne ↦ rw ne refl
    ]

    -- To insert a key that is not there and to remove it again leaves the answers of the map as they were,
    -- and its counter of items lower by one: an empty map then counts 2 ^ 32 - 1 items.
    pub insert-remove_count :
        (m : HashMap K V) (key : K) (v : V)
        → IsValid same hash eq m
        → get same hash m key ≡ none
        → let n = (remove same hash key (insert same hash key v m)).1 in
          (n.item_count ≡ sub32 m.item_count 1) × ((j : K) → get same hash n j ≡ get same hash m j)
    insert-remove_count m key v valid new =
        let valid' = insert-IsValid same hash eq m valid key v in
        let there = get-insert same hash eq m valid key v key ∙ at_itself key v m in
        let r = remove-Removed same hash eq (insert same hash key v m) valid' key in
        (
          remove_count same hash eq (insert same hash key v m) key v valid' there
              ∙ ap (λ c. sub32 c 1) (insert_count same hash eq m key v new),
          λ j.
              r.others j
              ∙ ap (λ o. if same key j then none else o) (get-insert same hash eq m valid key v j)
              ∙ back_again key j v m new,
        )
