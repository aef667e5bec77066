-- ===== src/PhysicalAllocator/Scan.antt =====
-- The search finds a free block, and fails only where there is none.
use lori_os.Prelude.{
  ℕ, zero, suc, ◌+◌, ◌≤◌, ◌<◌, ◌≡◌, subst, sym, ap, ◌∙◌, List, true, false, none, some, arith,
  ==_iff, ◌==◌, ones32, test_bit, test_bit_ones, Bool-cases, Option-cases, inl, inr, some_eq,
  none-ne-some,
}
use lori_os.PhysicalAllocator.{word_at, free_bit, scan}

free_bit-some :
    (w n j k : ℕ) → free_bit w n j ≡ some k → (j ≤ k) × (k < j + n) × (test_bit w k ≡ false)
unfolding free_bit
free_bit-some w zero j k h = none-ne-some h
free_bit-some w (suc n) j k h = elim (Bool-cases (test_bit w j)) [
  | inl t ↦ let (a, b, c) = free_bit-some w n (j + 1) k (rw t at h) in (omega arith, omega arith, c)
  | inr f ↦
      let e : j ≡ k = some_eq (rw f at h) in (omega arith, omega arith, ap (test_bit w) (sym e) ∙ f)
]

free_bit-none : (w n j k : ℕ) → free_bit w n j ≡ none → j ≤ k → k < j + n → test_bit w k ≡ true
unfolding free_bit
free_bit-none w zero j k h a b = absurd (omega arith)
free_bit-none w (suc n) j k h a b = elim (Bool-cases (test_bit w j)) [
  | inl t ↦ elim (Bool-cases (k == j)) [
    | inl e ↦ ap (test_bit w) ((==_iff k j).0 e) ∙ t
    | inr e ↦ free_bit-none w n (j + 1) k (rw t at h) (ground arith) (omega arith)
  ]
  | inr f ↦ none-ne-some (sym (rw f at h))
]

-- What a hit of the search is: bit `j` of word `i`, one of the `n` words from `low` on.
pub record IsHit (ws : List ℕ) (n low : ℕ) (x : ℕ × ℕ) : Type 0 where
  pub word_low : low ≤ x.0
  pub word_high : x.0 < low + n
  pub bit_high : x.1 < 32
  pub is_free : test_bit (word_at ws x.0) x.1 ≡ false

later : (ws : List ℕ) (n low : ℕ) (x : ℕ × ℕ) → IsHit ws n (low + 1) x → IsHit ws (suc n) low x
later ws n low x h = record {
  word_low = omega (arith, h.word_low);
  word_high = omega (arith, h.word_high);
  bit_high = h.bit_high;
  is_free = h.is_free;
}

pub scan-IsHit : (ws : List ℕ) (n low : ℕ) (x : ℕ × ℕ) → scan ws n low ≡ some x → IsHit ws n low x
unfolding scan
scan-IsHit ws zero low x h = none-ne-some h
scan-IsHit ws (suc n) low x h = elim (Bool-cases (word_at ws low == ones32)) [
  | inl full ↦ later ws n low x (scan-IsHit ws n (low + 1) x (rw full at h))
  | inr room ↦ elim (Option-cases (free_bit (word_at ws low) 32 0)) [
    | inl none_free ↦ later ws n low x (scan-IsHit ws n (low + 1) x (rw (room, none_free) at h))
    | inr (j, hit) ↦
        let e : some (low, j) ≡ some x = rw (room, hit) at h in
        let (a, b, c) = free_bit-some (word_at ws low) 32 0 j hit in
        subst (IsHit ws (suc n) low) (some_eq e)
          (record { word_low = omega arith; word_high = omega arith; bit_high = b; is_free = c })
  ]
]

pub scan-none :
    (ws : List ℕ) (n low i j : ℕ)
    → scan ws n low ≡ none
    → low ≤ i
    → i < low + n
    → j < 32
    → test_bit (word_at ws i) j ≡ true
unfolding scan
scan-none ws zero low i j h a b c = absurd (omega arith)
scan-none ws (suc n) low i j h a b c = elim (Bool-cases (word_at ws low == ones32)) [
  | inl full ↦ elim (Bool-cases (i == low)) [
    | inl e ↦
        ap (λ k. test_bit (word_at ws k) j) ((==_iff i low).0 e)
        ∙ ap (λ w. test_bit w j) ((==_iff _ _).0 full)
        ∙ test_bit_ones j c
    | inr e ↦ scan-none ws n (low + 1) i j (rw full at h) (ground arith) (omega arith) c
  ]
  | inr room ↦ elim (Option-cases (free_bit (word_at ws low) 32 0)) [
    | inl none_free ↦ elim (Bool-cases (i == low)) [
      | inl e ↦
          ap (λ k. test_bit (word_at ws k) j) ((==_iff i low).0 e)
          ∙ free_bit-none (word_at ws low) 32 0 j none_free (omega arith) c
      | inr e ↦
          scan-none ws n (low + 1) i j (rw (room, none_free) at h) (ground arith) (omega arith) c
    ]
    | inr (k, hit) ↦ none-ne-some (sym (rw (room, hit) at h))
  ]
]
