-- ===== src/HashMap/Entries.antt =====
-- The operations of `HashMap` of Kernel/include/Hash.h, against a function from keys to values.
use lori_os.Prelude.{
  ℕ, ◌%◌, ◌<◌, ◌≡◌, ◌≢◌, refl, ap, sym, subst, ◌∙◌, List, [], ◌∷◌, ◌++◌, Bool, Bool-cases, true,
  false, Option, none, some, arith, if◌then◌else◌, none-ne-some, inl, inr, get_or, set, length,
  length-set, length-replicate, get_or-set_self, get_or-set_ne, get_or-replicate, ℕ_discrete, add32,
  sub32,
}
use native.Mathlib.Nat.{mod-lt}
use mathlib.Core.Option
use lori_os.HashMap.{HashMap, empty_map, replaced, looked_up, taken, bucket_of, insert, get, remove}
use lori_os.HashMap.Bucket.{
  IsEquality, Stores, Stores-replaced, Distinct, StoresDistinct, StoresDistinct-replaced, Takes,
  Takes-taken, TakesDistinct, TakesDistinct-taken,
}

module _ {K V : Type 0} (same : K → K → Bool) (hash : K → ℕ) (eq : IsEquality same) where
  -- There is a bucket, and no key stands in a bucket twice.
  pub record IsValid (m : HashMap K V) : Type 0 where
    pub some_bucket : 0 < length m.buckets
    pub distinct : (b : ℕ) → Distinct same eq (get_or m.buckets b [])

  pub empty_map-IsValid : (n : ℕ) → 0 < n → IsValid (empty_map n)
  unfolding empty_map
  empty_map-IsValid n h = record {
    some_bucket = subst (λ k. 0 < k) (sym (length-replicate n [])) h;
    distinct = λ b. subst (Distinct same eq) (sym (get_or-replicate n b [])) tt;
  }

  pub get-empty_map : (n : ℕ) (j : K) → get {V = V} same hash (empty_map n) j ≡ none
  unfolding get empty_map looked_up
  get-empty_map n j = ap (looked_up same j) (get_or-replicate n _ [])

  bucket_of-lt :
      (m : HashMap K V) (key : K) → IsValid m → bucket_of same hash m key < length m.buckets
  unfolding bucket_of
  bucket_of-lt m key v = mod-lt (hash key) v.some_bucket

  -- The map with another bucket of a key.
  abbrev with_bucket : HashMap K V → K → List (K × V) → ℕ → HashMap K V
  with_bucket m key ps count = record {
    buckets = set m.buckets (bucket_of same hash m key) ps;
    item_count = count;
  }

  bucket_of-with :
      (m : HashMap K V) (key j : K) (ps : List (K × V)) (count : ℕ)
      → bucket_of same hash (with_bucket m key ps count) j ≡ bucket_of same hash m j
  unfolding bucket_of
  bucket_of-with m key j ps count =
      ap (λ n. hash j % n) (length-set m.buckets (bucket_of same hash m key) ps)

  -- Only the answers in the bucket may change.
  get-with_bucket :
      (m : HashMap K V) (key j : K) (ps : List (K × V)) (count : ℕ) (answer : Option V)
      → IsValid m
      → looked_up same j ps ≡ (
          if same key j
          then answer
          else looked_up same j (get_or m.buckets (bucket_of same hash m key) []))
      → get same hash (with_bucket m key ps count) j
        ≡ (if same key j then answer else get same hash m j)
  unfolding get
  get-with_bucket m key j ps count answer v h =
      elim (ℕ_discrete (bucket_of same hash m key) (bucket_of same hash m j)) [
        | yes e ↦
            ap (λ b. looked_up same j (get_or (set m.buckets (bucket_of same hash m key) ps) b []))
              (bucket_of-with m key j ps count ∙ sym e)
            ∙ ap (looked_up same j)
                (get_or-set_self m.buckets (bucket_of same hash m key) ps [] (bucket_of-lt m key v))
            ∙ h
            ∙ ap (λ b. if same key j then answer else looked_up same j (get_or m.buckets b [])) e
        | no ne ↦
            ap (λ b. looked_up same j (get_or (set m.buckets (bucket_of same hash m key) ps) b []))
              (bucket_of-with m key j ps count)
            ∙ ap (looked_up same j) (
                get_or-set_ne m.buckets (bucket_of same hash m key) (bucket_of same hash m j) ps []
                  ne)
            ∙ elsewhere (same key j) refl ne
      ]
    where
      elsewhere :
          (b : Bool)
          → same key j ≡ b
          → bucket_of same hash m key ≢ bucket_of same hash m j
          → looked_up same j (get_or m.buckets (bucket_of same hash m j) []) ≡ (
              if b
              then answer
              else looked_up same j (get_or m.buckets (bucket_of same hash m j) []))
      elsewhere true e ne = absurd (ne (ap (bucket_of same hash m) (eq.equal key j e)))
      elsewhere false e ne = refl

  with_bucket-IsValid :
      (m : HashMap K V) (key : K) (ps : List (K × V)) (count : ℕ)
      → IsValid m
      → Distinct same eq ps
      → IsValid (with_bucket m key ps count)
  with_bucket-IsValid m key ps count v d = record {
    some_bucket = omega (arith, v.some_bucket, length-set m.buckets (bucket_of same hash m key) ps);
    distinct = λ b. elim (ℕ_discrete (bucket_of same hash m key) b) [
      | yes e ↦
          subst (λ c. Distinct same eq (get_or (set m.buckets (bucket_of same hash m key) ps) c []))
            e
            (subst (Distinct same eq)
              (sym (
                get_or-set_self m.buckets (bucket_of same hash m key) ps [] (bucket_of-lt m key v)))
              d)
      | no ne ↦
          subst (Distinct same eq)
            (sym (get_or-set_ne m.buckets (bucket_of same hash m key) b ps [] ne)) (v.distinct b)
    ];
  }

  -- `insert` and `remove` by what the loop finds.
  stored : HashMap K V → K → V → Option (List (K × V)) → HashMap K V
  stored m key value (some ps) = with_bucket m key ps (add32 m.item_count 1)
  stored m key value none =
      with_bucket m key (get_or m.buckets (bucket_of same hash m key) [] ++ ((key, value) ∷ []))
        m.item_count

  insert-stored :
      (m : HashMap K V) (key : K) (value : V) (o : Option (List (K × V)))
      → replaced same key value (get_or m.buckets (bucket_of same hash m key) []) ≡ o
      → insert same hash key value m ≡ stored m key value o
  unfolding insert stored
  insert-stored m key value none e = rw (e, insert) refl
  insert-stored m key value (some ps) e = rw (e, insert) refl

  removed : HashMap K V → K → Option (V × List (K × V)) → Option V × HashMap K V
  removed m key none = (none, m)
  removed m key (some (v, ps)) = (some v, with_bucket m key ps (sub32 m.item_count 1))

  remove-removed :
      (m : HashMap K V) (key : K) (o : Option (V × List (K × V)))
      → taken same key (get_or m.buckets (bucket_of same hash m key) []) ≡ o
      → remove same hash key m ≡ removed m key o
  unfolding remove removed
  remove-removed m key none e = rw (e, remove) refl
  remove-removed m key (some (v, ps)) e = rw (e, remove) refl

  module _ (m : HashMap K V) (valid : IsValid m) (key : K) where
    stored-get :
        (value : V) (j : K) (o : Option (List (K × V)))
        → Stores same eq key value j (get_or m.buckets (bucket_of same hash m key) []) o
        → get same hash (stored m key value o) j
          ≡ (if same key j then some value else get same hash m j)
    unfolding stored Stores
    stored-get value j (some ps) h = get-with_bucket m key j ps _ (some value) valid h
    stored-get value j none h = get-with_bucket m key j _ _ (some value) valid h

    stored-IsValid :
        (value : V) (o : Option (List (K × V)))
        → StoresDistinct same eq key value (get_or m.buckets (bucket_of same hash m key) []) o
        → IsValid (stored m key value o)
    unfolding stored StoresDistinct
    stored-IsValid value (some ps) d = with_bucket-IsValid m key ps _ valid d
    stored-IsValid value none d = with_bucket-IsValid m key _ _ valid d

    pub get-insert :
        (value : V) (j : K)
        → get same hash (insert same hash key value m) j
          ≡ (if same key j then some value else get same hash m j)
    get-insert value j =
        let bucket = get_or m.buckets (bucket_of same hash m key) [] in
        ap (λ n. get same hash n j) (insert-stored m key value _ refl)
        ∙ stored-get value j _ (Stores-replaced same eq key j value bucket)

    pub insert-IsValid : (value : V) → IsValid (insert same hash key value m)
    insert-IsValid value =
        let bucket = get_or m.buckets (bucket_of same hash m key) [] in
        subst IsValid (sym (insert-stored m key value _ refl)) (
          stored-IsValid value _ (
            StoresDistinct-replaced same eq key value bucket
              (valid.distinct (bucket_of same hash m key))))

    -- What `remove` promises: the value that was held, and the key is gone.
    pub record Removed (r : Option V × HashMap K V) : Type 0 where
      pub value : r.0 ≡ get same hash m key
      pub others : (j : K) → get same hash r.1 j ≡ (if same key j then none else get same hash m j)
      pub is_valid : IsValid r.1

    none_for :
        (j : K)
        → get same hash m key ≡ none
        → get same hash m j ≡ (if same key j then none else get same hash m j)
    none_for j h = elim (Bool-cases (same key j)) [
      | inl e ↦ rw e (ap (get same hash m) (sym (eq.equal key j e)) ∙ h)
      | inr ne ↦ rw ne refl
    ]

    removed-Removed :
        (o : Option (V × List (K × V)))
        → ((j : K) → Takes same eq key j (get_or m.buckets (bucket_of same hash m key) []) o)
        → TakesDistinct same eq (get_or m.buckets (bucket_of same hash m key) []) o
        → Removed (removed m key o)
    unfolding removed Takes TakesDistinct get
    removed-Removed none h d = record {
      value = sym (h key);
      others = λ j. none_for j (h key);
      is_valid = valid;
    }
    removed-Removed (some (v, ps)) h d = record {
      value = sym (h key).0;
      others = λ j. get-with_bucket m key j ps (sub32 m.item_count 1) none valid (h j).1;
      is_valid = with_bucket-IsValid m key ps _ valid d;
    }

    pub remove-Removed : Removed (remove same hash key m)
    remove-Removed =
        let bucket = get_or m.buckets (bucket_of same hash m key) [] in
        let distinct = valid.distinct (bucket_of same hash m key) in
        subst Removed (sym (remove-removed m key _ refl)) (
          removed-Removed _ (λ j. Takes-taken same eq key j bucket distinct)
            (TakesDistinct-taken same eq key bucket distinct))

  replaced_new :
      (key : K) (value : V) (ps : List (K × V))
      → looked_up same key ps ≡ none
      → replaced same key value ps ≡ none
  unfolding replaced looked_up
  replaced_new key value [] h = refl
  replaced_new key value ((k, v) ∷ ps) h = elim (Bool-cases (same k key)) [
    | inl e ↦ none-ne-some (sym h ∙ ap (λ b. if b then some v else looked_up same key ps) e)
    | inr ne ↦
        ap
          (λ b.
            if b
            then some ((k, value) ∷ ps)
            else Option.map ((k, v) ∷◌) (replaced same key value ps))
          ne
        ∙ ap (Option.map ((k, v) ∷◌)) (
            replaced_new key value ps
              (ap (λ b. if b then some v else looked_up same key ps) (sym ne) ∙ h))
  ]

  -- The counter: a new key does not count, and what is removed is taken off.
  pub insert_count :
      (m : HashMap K V) (key : K) (value : V)
      → get same hash m key ≡ none
      → (insert same hash key value m).item_count ≡ m.item_count
  unfolding get stored
  insert_count m key value h =
      ap (λ (n : HashMap K V). n.item_count)
        (insert-stored m key value none
          (replaced_new key value (get_or m.buckets (bucket_of same hash m key) []) h))

  removed_count :
      (m : HashMap K V) (key : K) (w : V) (o : Option (V × List (K × V)))
      → (removed m key o).0 ≡ some w
      → (removed m key o).1.item_count ≡ sub32 m.item_count 1
  unfolding removed
  removed_count m key w none h = none-ne-some h
  removed_count m key w (some (v, ps)) h = refl

  pub remove_count :
      (m : HashMap K V) (key : K) (w : V)
      → IsValid m
      → get same hash m key ≡ some w
      → (remove same hash key m).1.item_count ≡ sub32 m.item_count 1
  remove_count m key w valid h =
      let r = remove-Removed m valid key in
      let is = remove-removed m key _ refl in
      ap (λ (r : Option V × HashMap K V). r.1.item_count) is
      ∙ removed_count m key w _ (ap (λ (r : Option V × HashMap K V). r.0) (sym is) ∙ r.value ∙ h)
