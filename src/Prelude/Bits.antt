-- ===== src/Prelude/Bits.antt =====
-- The bits of a number, and what `&`, `|` and `^` do to them. The operations of the language stand
-- for a recursion on binary digits, so each law is proved for the lowest bit and then by halving.
use Prim.Native.Nat.{
  ℕ, zero, suc, ◌+◌, ◌*◌, ◌/◌, ◌%◌, ◌^◌, ◌≤◌, ◌<◌, min, max, digits, bitwise, bit_and, bit_or,
  bit_xor, bit_and-bitwise, bit_or-bitwise,
}
use mathlib.Core.Path.{◌≡◌, refl, ap, ◌∙◌}
use mathlib.Core.Logic.{inl, inr}
use mathlib.Core.Bool.{Bool, true, false, not, ◌&&◌, ◌||◌}
use native.Mathlib.Nat.{pow-suc, one-le-pow}
use native.Mathlib.Omega.{arith}
use lori_os.Prelude.Tests.{◌==◌, ==_iff, if◌then◌else◌, leb, leb→le, Bool-cases}

-- Bit `i` of `a`, 0 or 1.
abbrev pub bit : ℕ → ℕ → ℕ
bit a zero = a % 2
bit a (suc i) = bit (a / 2) i

pub bit-le : (a i : ℕ) → bit a i ≤ 1
bit-le a zero = omega arith
bit-le a (suc i) = bit-le (a / 2) i

-- One more unit of fuel changes nothing once the fuel reaches the first number, so no more fuel does.
module _ (pad : ℕ → ℕ) (op : ℕ → ℕ → ℕ) where
  one_more : (n a b : ℕ) → a ≤ n → digits pad op (suc n) a b ≡ digits pad op n a b
  one_more (suc n) zero b fits = refl
  one_more zero zero b fits = refl
  one_more zero (suc a) b fits = absurd (omega arith)
  one_more (suc n) (suc a) b fits =
      ap (λ high. high * 2 + op (suc a % 2) (b % 2)) (one_more n (suc a / 2) (b / 2) (omega arith))

  any_more : (m n a b : ℕ) → a ≤ n → n ≤ m → digits pad op m a b ≡ digits pad op n a b
  any_more zero n a b fits more = ap (λ k. digits pad op k a b) {x = zero} {y = n} (omega arith)
  any_more (suc m) n a b fits more = elim (Bool-cases (leb n m)) [
    | inl lower ↦
        one_more m a b (omega (arith, leb→le n m lower)) ∙ any_more m n a b fits (leb→le n m lower)
    | inr top ↦ ap (λ k. digits pad op k a b) {x = suc m} {y = n} (ground arith)
  ]

  halve :
      (a b : ℕ)
      → bitwise pad op (suc a) b ≡ bitwise pad op (suc a / 2) (b / 2) * 2 + op (suc a % 2) (b % 2)
  halve a b =
      ap (λ high. high * 2 + op (suc a % 2) (b % 2))
        (any_more a (suc a / 2) (suc a / 2) (b / 2) (omega arith) (omega arith))

pub or_halves : (a b : ℕ) → bit_or a b ≡ bit_or (a / 2) (b / 2) * 2 + max (a % 2) (b % 2)
or_halves zero b = simp bit_or-bitwise (omega arith)
or_halves (suc a) b = simp bit_or-bitwise (halve (λ y. y) max a b)

pub and_halves : (a b : ℕ) → bit_and a b ≡ bit_and (a / 2) (b / 2) * 2 + min (a % 2) (b % 2)
and_halves zero b = simp bit_and-bitwise (omega arith)
and_halves (suc a) b = simp bit_and-bitwise (halve (λ y. 0) min a b)

-- `|` sets the bits of both.
pub bit-bit_or : (a b i : ℕ) → bit (bit_or a b) i ≡ max (bit a i) (bit b i)
bit-bit_or a b zero = omega (arith, or_halves a b)
bit-bit_or a b (suc i) =
    ap (λ n. bit n i) {x = bit_or a b / 2} {y = bit_or (a / 2) (b / 2)}
      (omega (arith, or_halves a b))
    ∙ bit-bit_or (a / 2) (b / 2) i

-- `&` keeps the bits in both.
pub bit-bit_and : (a b i : ℕ) → bit (bit_and a b) i ≡ min (bit a i) (bit b i)
bit-bit_and a b zero = omega (arith, and_halves a b)
bit-bit_and a b (suc i) =
    ap (λ n. bit n i) {x = bit_and a b / 2} {y = bit_and (a / 2) (b / 2)}
      (omega (arith, and_halves a b))
    ∙ bit-bit_and (a / 2) (b / 2) i

bit-zero : (i : ℕ) → bit 0 i ≡ 0
bit-zero zero = refl
bit-zero (suc i) = bit-zero i

-- A power of two has one bit.
pub bit-pow : (j i : ℕ) → bit (2 ^ j) i ≡ (if i == j then 1 else 0)
bit-pow zero zero = refl
bit-pow zero (suc i) = bit-zero i ∙ ground arith
bit-pow (suc j) zero = ground (arith, pow-suc 2 j)
bit-pow (suc j) (suc i) =
    ap (λ n. bit n i) {x = 2 ^ suc j / 2} {y = 2 ^ j} (omega (arith, pow-suc 2 j))
    ∙ bit-pow j i
    ∙ ground arith

-- Halving the first number from a bound downwards, until it is 0.
and-nothing : (bound : ℕ) → (a : ℕ) → (a ≤ bound) → bit_and a 0 ≡ 0
and-nothing zero a fits = ap (λ x. bit_and x 0) {x = a} {y = 0} (omega arith)
and-nothing (suc bound) a fits = elim (Bool-cases (a == 0)) [
  | inl e ↦ ap (λ x. bit_and x 0) ((==_iff a 0).0 e)
  | inr e ↦
      let rest = and-nothing bound (a / 2) (ground arith) in omega (arith, rest, and_halves a 0)
]

-- `a & (1 << j)` is 0 or `1 << j`, as bit `j` is.
pub bit_and-pow : (a j : ℕ) → bit_and a (2 ^ j) ≡ bit a j * 2 ^ j
bit_and-pow a zero = omega (arith, and_halves a 1, and-nothing a (a / 2) (omega arith))
bit_and-pow a (suc j) =
    let half : 2 ^ suc j / 2 ≡ 2 ^ j = omega (arith, pow-suc 2 j) in
    grind (
      arith,
      and_halves a (2 ^ suc j),
      ap (bit_and (a / 2)) half,
      bit_and-pow (a / 2) j,
      pow-suc 2 j,
    )

-- A 32-bit word, `1 << j` in it, and the tests and updates of one bit.
abbrev pub ones32 : ℕ
ones32 = 0xffff_ffff

unfoldable pub test_bit : ℕ → ℕ → Bool
test_bit w j = not (bit_and w (2 ^ j) == 0)

unfoldable pub set_bit : ℕ → ℕ → ℕ
set_bit w j = bit_or w (2 ^ j)

-- `w & ~(1 << j)`: the complement flips the 32 bits.
unfoldable pub clear_bit : ℕ → ℕ → ℕ
clear_bit w j = bit_and w (bit_xor ones32 (2 ^ j))

pub test_bit_lem : (w j : ℕ) → test_bit w j ≡ (bit w j == 1)
unfolding test_bit
test_bit_lem w j = grind (arith, bit_and-pow w j, bit-le w j, one-le-pow j 2)

-- A test of the first numbers, by evaluation.
check_first : (ℕ → Bool) → ℕ → Bool
check_first test zero = true
check_first test (suc top) = let lower = check_first test top in if test top then lower else false

checked : (test : ℕ → Bool) (top k : ℕ) → check_first test top ≡ true → k < top → test k ≡ true
unfolding check_first
checked test zero k all lt = absurd (omega arith)
checked test (suc top) k all lt = elim (Bool-cases (test top)) [
  | inr bad ↦ ground (arith, bad)
  | inl good ↦ elim (Bool-cases (k == top)) [
    | inl e ↦ ap test ((==_iff k top).0 e) ∙ good
    | inr e ↦ checked test top k (ground (arith, good)) (ground arith)
  ]
]

-- The masks are few: each of their bits is checked.
mask_bit : ℕ → ℕ → Bool
mask_bit j i = bit (bit_xor ones32 (2 ^ j)) i == (if i == j then 0 else 1)

mask_table : check_first (λ j. check_first (mask_bit j) 32) 32 ≡ true
unfolding check_first mask_bit
mask_table = refl

bit-mask : (i j : ℕ) → i < 32 → j < 32 → bit (bit_xor ones32 (2 ^ j)) i ≡ (if i == j then 0 else 1)
unfolding mask_bit
bit-mask i j h k =
    let row = checked (λ j. check_first (mask_bit j) 32) 32 j mask_table k in
    (==_iff _ _).0 (checked (mask_bit j) 32 i row h)

pub test_bit-set_bit : (w i j : ℕ) → test_bit (set_bit w j) i ≡ (i == j) || test_bit w i
unfolding set_bit
test_bit-set_bit w i j = ground (
  arith,
  test_bit_lem (bit_or w (2 ^ j)) i,
  test_bit_lem w i,
  bit-bit_or w (2 ^ j) i,
  bit-pow j i,
  bit-le w i,
)

pub test_bit-clear_bit :
    (w i j : ℕ) → i < 32 → j < 32 → test_bit (clear_bit w j) i ≡ not (i == j) && test_bit w i
unfolding clear_bit
test_bit-clear_bit w i j h k = ground (
  arith,
  test_bit_lem (bit_and w (bit_xor ones32 (2 ^ j))) i,
  test_bit_lem w i,
  bit-bit_and w (bit_xor ones32 (2 ^ j)) i,
  bit-mask i j h k,
  bit-le w i,
)

ones_table : check_first (test_bit ones32) 32 ≡ true
unfolding check_first test_bit
ones_table = refl

pub test_bit_ones : (k : ℕ) → k < 32 → test_bit ones32 k ≡ true
test_bit_ones k h = checked (test_bit ones32) 32 k ones_table h
