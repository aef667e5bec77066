-- ===== src/HashMap/Tests.antt =====
-- A map from numbers to numbers, with `HashU` and two buckets.
use lori_os.Prelude.{ℕ, ◌≡◌, refl, ◌^◌, ◌-◌, List, [], ◌∷◌, Bool, none, arith, ◌==◌, sub32}
use lori_os.HashMap.{
  empty_map, mixed, hash_u, replaced, bucket_of, insert, get, remove, without_value,
  buckets_without, remove_value,
}
use lori_os.HashMap.Bucket.{IsEquality}
use lori_os.HashMap.Entries.{empty_map-IsValid, get-empty_map}
use lori_os.HashMap.Runs.{
  Op, inserts, removes, gets, finds, run, map_run, run-map_run, insert-remove_count,
}

abbrev same : ℕ → ℕ → Bool
same a b = a == b

pub same-IsEquality : IsEquality same
same-IsEquality = record { itself = λ a. ground arith; equal = λ a b e. ground arith }

hash_u_test : hash_u 1 ≡ 738885432
unfolding hash_u mixed
hash_u_test = refl

abbrev calls : List (Op ℕ ℕ)
calls =
    inserts 3 30
    ∷ (inserts 5 50 ∷ (inserts 3 31 ∷ (gets 3 ∷ (removes 3 ∷ (finds 3 ∷ (gets 5 ∷ []))))))

run-map_run_example : run same hash_u (empty_map 2) calls ≡ map_run same (λ j. none) calls
run-map_run_example = run-map_run same hash_u same-IsEquality 2 calls (omega arith)

insert-remove_count_example :
    let n = (remove {V = ℕ} same hash_u 3 (insert same hash_u 3 30 (empty_map 2))).1 in
    (n.item_count ≡ sub32 0 1)
    × ((j : ℕ) → get same hash_u n j ≡ get same hash_u (empty_map {V = ℕ} 2) j)
unfolding insert empty_map
insert-remove_count_example =
    insert-remove_count same hash_u same-IsEquality (empty_map 2) 3 30
      (empty_map-IsValid same hash_u same-IsEquality 2 (omega arith))
      (get-empty_map same hash_u same-IsEquality 2 3)

remove_value_test :
    remove_value same 30 (insert same hash_u 3 30 (empty_map 2))
    ≡ record { buckets = [] ∷ ([] ∷ []); item_count = 2 ^ 32 - 1 }
unfolding remove_value buckets_without without_value insert replaced bucket_of empty_map hash_u
    mixed
remove_value_test = refl
