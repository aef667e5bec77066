-- ===== src/AddressSpace/Range.antt =====
-- `RangeInRegion` decides whether a range of addresses is mapped.
use lori_os.Prelude.{
  ℕ, ◌≤◌, ◌<◌, ◌≡◌, refl, List, [], ◌∷◌, Bool, true, false, arith, leb, ltb, Bool-cases, inl, inr,
  ◌⊎◌, dec_lt, ◌&&◌, ◌≢◌, Option, none, some, Option-cases, subst, sym,
}
use lori_os.AddressSpace.{Region, finish, address_to_region}
use lori_os.AddressSpace.Order.{Holds, HeldBy}

-- What the answer means for the addresses from `base` to `end`.
abbrev pub Answers : List Region → ℕ → ℕ → Bool → Type 0
Answers rs base end true = (a : ℕ) → base ≤ a → a < end → HeldBy rs a
Answers rs base end false = (a : ℕ) × (base ≤ a) × (a < end) × (¬ HeldBy rs a)

-- The answer for the addresses from `next` on, extended by those that `r` holds.
extend :
    (r : Region) (rs : List Region) (base next end : ℕ) (b : Bool)
    → finish r ≤ next
    → base ≤ next
    → ((a : ℕ) → base ≤ a → a < next → Holds r a)
    → Answers rs next end b
    → Answers (r ∷ rs) base end b
extend r rs base next end true past further held ans = λ a k l. elim (dec_lt a next) [
  | yes early ↦ inl (held a k early)
  | no late ↦ inr (ans a (omega arith) l)
]
extend r rs base next end false past further held (a, k, l, free) =
    (a, omega arith, l, λ t. elim t [ inl h ↦ omega arith | inr h ↦ free h ])

-- No region with an object holds the address.
abbrev pub NoneHolds : ℕ → List Region → Type 0
NoneHolds a [] = Unit {0}
NoneHolds a (r ∷ rs) = ((r.object ≡ none) ⊎ (¬ Holds r a)) × NoneHolds a rs

abbrev pub IsAmong : Region → List Region → Type 0
IsAmong q [] = ⊥
IsAmong q (r ∷ rs) = (q ≡ r) ⊎ IsAmong q rs

abbrev pub Located : ℕ → List Region → Option Region → Type 0
Located a rs none = NoneHolds a rs
Located a rs (some r) = IsAmong r rs × (r.object ≢ none) × Holds r a

behind-Located :
    (a : ℕ) (r : Region) (rs : List Region) (o : Option Region)
    → (r.object ≡ none) ⊎ (¬ Holds r a)
    → Located a rs o
    → Located a (r ∷ rs) o
behind-Located a r rs none h l = (h, l)
behind-Located a r rs (some q) h l = (inr l.0, l.1, l.2)

is_hit : ℕ → Region → Bool
is_hit a r = leb r.base a && ltb a (finish r)

-- The search goes on behind a region that has no object or does not hold the address.
passes_on :
    (a : ℕ) (r : Region) (rs : List Region)
    → (r.object ≡ none) ⊎ (is_hit a r ≡ false)
    → address_to_region a (r ∷ rs) ≡ address_to_region a rs
unfolding address_to_region is_hit
passes_on a r rs (inl null) = ground arith
passes_on a r rs (inr away) = ground arith

stops_at :
    (a : ℕ) (r : Region) (rs : List Region)
    → r.object ≢ none
    → is_hit a r ≡ true
    → address_to_region a (r ∷ rs) ≡ some r
unfolding address_to_region is_hit
stops_at a r rs object hit = ground arith

-- `AddressToRegionReadLock` and `AddressToRegionWriteLock` find a region of the list that has an
-- object and holds the address, and fail only where there is none.
pub address_to_region-Located : (a : ℕ) (rs : List Region) → Located a rs (address_to_region a rs)
unfolding is_hit
address_to_region-Located a [] = unfold address_to_region in tt
address_to_region-Located a (r ∷ rs) =
    let further = address_to_region-Located a rs in
    elim (Option-cases r.object) [
      | inl null ↦
          subst (Located a (r ∷ rs)) (sym (passes_on a r rs (inl null)))
            (behind-Located a r rs (address_to_region a rs) (inl null) further)
      | inr (o, e) ↦ elim (Bool-cases (is_hit a r)) [
        | inl here ↦
            subst (Located a (r ∷ rs)) (sym (stops_at a r rs (ground arith) here))
              (inl refl, ground arith, ground arith)
        | inr away ↦
            subst (Located a (r ∷ rs)) (sym (passes_on a r rs (inr away)))
              (behind-Located a r rs (address_to_region a rs) (inr (λ h. ground arith)) further)
      ]
    ]
