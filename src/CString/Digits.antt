-- ===== src/CString/Digits.antt =====
-- Numbers as texts in Kernel/src/String.cpp: `reverse`, `itoa` and `HexStringToPointer`.
use lori_os.Prelude.{
  subst, dec_lt, ℕ, zero, suc, ◌+◌, ◌-◌, ◌*◌, ◌/◌, ◌%◌, ◌^◌, ◌≤◌, ◌<◌, ◌≡◌, refl, ap, ap₂, ◌∙◌, sym,
  List, [], ◌∷◌, ◌++◌, map, some, none, ◌&&◌, arith, if◌then◌else◌, ltb, leb, length, set, get_or,
  get_elem?, get_elem?-set, get_elem?-append, get_elem?_one, get_elem?_past, list_ext, length-set,
  length-append, or_halves, and_halves, ℕ_discrete,
}
use Prim.Native.Nat.{bit_or, bit_and}
use native.Mathlib.Nat.{div-add-mod, mod-lt, mul-le-mul_right, mul_comm, pow-suc}
use mathlib.Core.List.{map-append}
use lori_os.CString.{
  reverse_from, reverse, digit, digits_from, itoa, digit_fuel, hex_digit, hex_from,
  hex_string_to_pointer,
}

-- The reverse of a text.
abbrev pub backwards : List ℕ → List ℕ
backwards [] = []
backwards (x ∷ xs) = backwards xs ++ (x ∷ [])

length-backwards : (xs : List ℕ) → length (backwards xs) ≡ length xs
length-backwards [] = refl
length-backwards (x ∷ xs) =
    omega (arith, length-append (backwards xs) (x ∷ []), length-backwards xs)

get_elem?-backwards :
    (xs : List ℕ) (i : ℕ)
    → get_elem? (backwards xs) i
      ≡ (if ltb i (length xs) then get_elem? xs (length xs - 1 - i) else none)
get_elem?-backwards [] i = ground arith
get_elem?-backwards (x ∷ xs) i = ground (
  arith,
  get_elem?-append (backwards xs) (x ∷ []) i,
  length-backwards xs,
  get_elem?-backwards xs i,
  get_elem?_one x (i - length xs),
)

get_or_elem : (xs : List ℕ) (i : ℕ) → i < length xs → get_elem? xs i ≡ some (get_or xs i 0)
get_or_elem [] i h = absurd (omega arith)
get_or_elem (x ∷ xs) zero h = refl
get_or_elem (x ∷ xs) (suc i) h = get_or_elem xs i (omega arith)

-- The rounds from `i` on exchange what is left of the two halves.
get_elem?-reverse_from :
    (rounds i len : ℕ) (str : List ℕ) (j : ℕ)
    → len ≡ length str
    → 2 * (i + rounds) ≤ len
    → get_elem? (reverse_from rounds i len str) j ≡ (
        if leb i j && ltb j (i + rounds)
        then get_elem? str (len - 1 - j)
        else if ltb (len - 1 - i - rounds) j && leb j (len - 1 - i)
        then get_elem? str (len - 1 - j)
        else get_elem? str j)
unfolding reverse_from
get_elem?-reverse_from zero i len str j same fits = ground arith
get_elem?-reverse_from (suc rounds) i len str j same fits =
    let c = get_or str (len - 1 - i) 0 in
    let once = set str (len - 1 - i) (get_or str i 0) in
    let twice = set once i c in
    let k = len - 1 - j in
    ground (
      arith,
      get_elem?-reverse_from rounds (i + 1) len twice j
          (omega (arith, length-set once i c, length-set str (len - 1 - i) (get_or str i 0)))
          (omega arith),
      get_elem?-set once i c j,
      get_elem?-set once i c k,
      get_elem?-set str (len - 1 - i) (get_or str i 0) j,
      get_elem?-set str (len - 1 - i) (get_or str i 0) k,
      length-set str (len - 1 - i) (get_or str i 0),
      get_or_elem str i (omega arith),
      get_or_elem str (len - 1 - i) (omega arith),
    )

-- `reverse` of a whole text leaves its bytes in the opposite order.
pub reverse_lem : (str : List ℕ) → reverse str (length str) ≡ backwards str
unfolding reverse
reverse_lem str =
    let n = length str in
    list_ext _ _ λ j. ground (
      arith,
      get_elem?-reverse_from (n / 2) 0 n str j refl (omega arith),
      get_elem?-backwards str j,
      get_elem?_past str j,
    )

-- The remainders of which `itoa` writes the digits.
rems : ℕ → ℕ → ℕ → List ℕ
rems zero num base = []
rems (suc fuel) zero base = []
rems (suc fuel) (suc n) base = (suc n % base) ∷ rems fuel (suc n / base) base

digits_from-rems : (fuel num base : ℕ) → digits_from fuel num base ≡ map digit (rems fuel num base)
unfolding rems digits_from
digits_from-rems zero num base = refl
digits_from-rems (suc fuel) zero base = refl
digits_from-rems (suc fuel) (suc n) base =
    ap (digit (suc n % base) ∷◌) (digits_from-rems fuel (suc n / base) base)

backwards-map : (f : ℕ → ℕ) (xs : List ℕ) → backwards (map f xs) ≡ map f (backwards xs)
backwards-map f [] = refl
backwards-map f (x ∷ xs) = rw (backwards-map f xs) (sym (map-append f (backwards xs) (x ∷ [])))

-- What a row of digits is worth, the last digit last.
abbrev pub worth : ℕ → ℕ → List ℕ → ℕ
worth base value [] = value
worth base value (d ∷ ds) = worth base (value * base + d) ds

abbrev worth_low : ℕ → List ℕ → ℕ
worth_low base [] = 0
worth_low base (d ∷ ds) = base * worth_low base ds + d

worth-append :
    (base value : ℕ) (ds es : List ℕ)
    → worth base value (ds ++ es) ≡ worth base (worth base value ds) es
worth-append base value [] es = refl
worth-append base value (d ∷ ds) es = worth-append base (value * base + d) ds es

worth-backwards : (base : ℕ) (ds : List ℕ) → worth base 0 (backwards ds) ≡ worth_low base ds
worth-backwards base [] = refl
worth-backwards base (d ∷ ds) =
    worth-append base 0 (backwards ds) (d ∷ [])
    ∙ ap (λ v. v * base + d) (worth-backwards base ds)
    ∙ ap (◌+ d) (mul_comm (worth_low base ds) base)

half : (n base : ℕ) → 2 ≤ base → 2 * (n / base) ≤ n
half n base h = omega (arith, mul-le-mul_right {m = 2} {n = base} (n / base) h, div-add-mod n base)

worth_low-rems :
    (fuel num base : ℕ) → 2 ≤ base → num < 2 ^ fuel → worth_low base (rems fuel num base) ≡ num
unfolding rems
worth_low-rems zero num base h k = omega arith
worth_low-rems (suc fuel) zero base h k = refl
worth_low-rems (suc fuel) (suc n) base h k =
    ap (λ v. base * v + suc n % base)
      (worth_low-rems fuel (suc n / base) base h (
        let k' : suc (suc n) ≤ 2 ^ fuel * 2 = simp pow-suc at k in
        omega (arith, half (suc n) base h)))
    ∙ div-add-mod (suc n) base

-- A digit that `itoa` writes, and what a reader takes it for.
abbrev pub digit_worth : ℕ → ℕ
digit_worth c = if ltb 96 c then c - 97 + 10 else c - 48

pub digit_worth-digit : (r : ℕ) → digit_worth (digit r) ≡ r
unfolding digit
digit_worth-digit r = ground arith

map-digit_worth : (ds : List ℕ) → map digit_worth (map digit ds) ≡ ds
map-digit_worth [] = refl
map-digit_worth (d ∷ ds) = ap₂ ◌∷◌ (digit_worth-digit d) (map-digit_worth ds)

itoa-reverse :
    (n base : ℕ)
    → itoa (suc n) base
      ≡ reverse (digits_from digit_fuel (suc n) base) (length (digits_from digit_fuel (suc n) base))
unfolding itoa
itoa-reverse n base = ground arith

itoa-rems : (n base : ℕ) → itoa (suc n) base ≡ map digit (backwards (rems digit_fuel (suc n) base))
itoa-rems n base =
    itoa-reverse n base
    ∙ reverse_lem (digits_from digit_fuel (suc n) base)
    ∙ ap backwards (digits_from-rems digit_fuel (suc n) base)
    ∙ backwards-map digit (rems digit_fuel (suc n) base)

-- `itoa` writes the digits of the number in the base, the most significant one first: read as digits,
-- with `a` worth 10, they are worth the number. It holds for every 64-bit number and every base from 2
-- on.
pub itoa-worth :
    (num base : ℕ) → num < 2 ^ 64 → 2 ≤ base → worth base 0 (map digit_worth (itoa num base)) ≡ num
unfolding itoa
itoa-worth zero base fits h = omega arith
itoa-worth (suc n) base fits h =
    let ds = rems digit_fuel (suc n) base in
    ap (λ s. worth base 0 (map digit_worth s)) (itoa-rems n base)
    ∙ ap (worth base 0) (map-digit_worth (backwards ds))
    ∙ worth-backwards base ds
    ∙ worth_low-rems digit_fuel (suc n) base h fits

bit_or_zero : (fuel a : ℕ) → a ≤ fuel → bit_or a 0 ≡ a
bit_or_zero zero a h = omega (arith, ap (λ n. bit_or n 0) {x = a} {y = 0} (omega arith))
bit_or_zero (suc fuel) a h = elim (ℕ_discrete a 0) [
  | yes e ↦ rw e refl
  | no ne ↦ omega (arith, or_halves a 0, bit_or_zero fuel (a / 2) (omega arith))
]

bit_or_four : (a d : ℕ) → d < 16 → bit_or (a * 16 / 2 / 2 / 2 / 2) (d / 2 / 2 / 2 / 2) ≡ a
bit_or_four a d h =
    ap (λ n. bit_or n (d / 2 / 2 / 2 / 2)) {x = a * 16 / 2 / 2 / 2 / 2} {y = a} (omega arith)
    ∙ ap (bit_or a) {x = d / 2 / 2 / 2 / 2} {y = 0} (omega arith)
    ∙ bit_or_zero a a (omega arith)

-- `|` of a number whose last four bits are 0 with a number of four bits is their sum.
bit_or_nibble : (a d : ℕ) → d < 16 → bit_or (a * 16) d ≡ a * 16 + d
bit_or_nibble a d h = omega (
  arith,
  or_halves (a * 16) d,
  or_halves (a * 16 / 2) (d / 2),
  or_halves (a * 16 / 2 / 2) (d / 2 / 2),
  or_halves (a * 16 / 2 / 2 / 2) (d / 2 / 2 / 2),
  bit_or_four a d h,
)

low_nibble_four : (d : ℕ) → d < 16 → bit_and (d / 2 / 2 / 2 / 2) 0 ≡ 0
low_nibble_four d h = ap (λ n. bit_and n 0) {x = d / 2 / 2 / 2 / 2} {y = 0} (omega arith)

low_nibble : (d : ℕ) → d < 16 → bit_and d 15 ≡ d
low_nibble d h = omega (
  arith,
  and_halves d 15,
  and_halves (d / 2) 7,
  and_halves (d / 2 / 2) 3,
  and_halves (d / 2 / 2 / 2) 1,
  low_nibble_four d h,
)

hex_digit_decimal : (c : ℕ) → 48 ≤ c → c ≤ 57 → hex_digit c ≡ some (c - 48)
unfolding hex_digit
hex_digit_decimal c h k = ground (arith, low_nibble (c - 48) (omega arith))

hex_digit_letter : (c : ℕ) → 97 ≤ c → c ≤ 102 → hex_digit c ≡ some (c - 97 + 10)
unfolding hex_digit
hex_digit_letter c h k = ground (arith, low_nibble (c - 97 + 10) (omega arith))

hex_digit-digit : (r : ℕ) → r < 16 → hex_digit (digit r) ≡ some r
unfolding digit
hex_digit-digit r h = elim (dec_lt 9 r) [
  | yes l ↦ ground (arith, hex_digit_letter (r - 10 + 97) (omega arith) (omega arith))
  | no nl ↦ ground (arith, hex_digit_decimal (r + 48) (omega arith) (omega arith))
]

abbrev Below : ℕ → List ℕ → Type 0
Below b [] = Unit
Below b (d ∷ ds) = (d < b) × Below b ds

Below-append : (b : ℕ) (ds es : List ℕ) → Below b ds → Below b es → Below b (ds ++ es)
Below-append b [] es h k = k
Below-append b (d ∷ ds) es (l, h) k = (l, Below-append b ds es h k)

Below-backwards : (b : ℕ) (ds : List ℕ) → Below b ds → Below b (backwards ds)
Below-backwards b [] h = h
Below-backwards b (d ∷ ds) (l, h) =
    Below-append b (backwards ds) (d ∷ []) (Below-backwards b ds h) (l, tt)

Below-rems : (fuel num base : ℕ) → 0 < base → Below base (rems fuel num base)
unfolding rems
Below-rems zero num base h = tt
Below-rems (suc fuel) zero base h = tt
Below-rems (suc fuel) (suc n) base h = (mod-lt (suc n) h, Below-rems fuel (suc n / base) base h)

length-rems : (fuel k num : ℕ) → num < 16 ^ k → length (rems fuel num 16) ≤ k
unfolding rems
length-rems zero k num h = omega arith
length-rems (suc fuel) k zero h = omega arith
length-rems (suc fuel) zero (suc n) h = absurd (omega arith)
length-rems (suc fuel) (suc k) (suc n) h =
    let h' : suc (suc n) ≤ 16 ^ k * 16 = simp pow-suc at h in
    omega (arith, length-rems fuel k (suc n / 16) (omega arith))

worth_grows : (v : ℕ) (ds : List ℕ) → v ≤ worth 16 v ds
worth_grows v [] = omega arith
worth_grows v (d ∷ ds) = omega (arith, worth_grows (v * 16 + d) ds)

hex_step :
    (c : ℕ) (s : List ℕ) (n v d : ℕ)
    → hex_digit c ≡ some d
    → hex_from (c ∷ s) (suc n) v ≡ hex_from s n (bit_or (v * 16 % 2 ^ 64) d)
unfolding hex_from
hex_step c s n v d e = ground (arith)

hex_from-worth :
    (ds : List ℕ) (n v : ℕ)
    → Below 16 ds
    → length ds ≤ n
    → worth 16 v ds < 2 ^ 64
    → hex_from (map digit ds) n v ≡ (0, worth 16 v ds)
unfolding hex_from
hex_from-worth [] n v h k fits = refl
hex_from-worth (d ∷ ds) zero v (l, h) k fits = absurd (omega arith)
hex_from-worth (d ∷ ds) (suc n) v (l, h) k fits =
    let low : v * 16 + d ≤ worth 16 (v * 16 + d) ds = worth_grows (v * 16 + d) ds in
    let shifted : v * 16 % 2 ^ 64 ≡ v * 16 = omega arith in
    hex_step (digit d) (map digit ds) n v d (hex_digit-digit d l)
    ∙ ap (hex_from (map digit ds) n) (ap (λ w. bit_or w d) shifted ∙ bit_or_nibble v d l)
    ∙ hex_from-worth ds n (v * 16 + d) h (omega arith) fits

hex_zero : (size : ℕ) → 16 ≤ size → hex_from (itoa 0 16) size 0 ≡ (0, 0)
unfolding hex_from itoa hex_digit
hex_zero zero h = absurd (omega arith)
hex_zero (suc n) h = refl

-- `HexStringToPointer` reads back each 64-bit number that `itoa` wrote in base 16, and returns 0, if
-- its limit is at least 16 bytes.
pub hex_string_to_pointer-itoa :
    (num size : ℕ) → num < 2 ^ 64 → 16 ≤ size → hex_string_to_pointer (itoa num 16) size ≡ (0, num)
unfolding hex_string_to_pointer
hex_string_to_pointer-itoa zero size fits room = hex_zero size room
hex_string_to_pointer-itoa (suc n) size fits room =
    let ds = rems digit_fuel (suc n) 16 in
    let worth_is : worth 16 0 (backwards ds) ≡ suc n =
      worth-backwards 16 ds ∙ worth_low-rems digit_fuel (suc n) 16 (omega arith) fits in
    ap (λ s. hex_from s size 0) (itoa-rems n 16)
    ∙ hex_from-worth (backwards ds) size 0
        (Below-backwards 16 ds (Below-rems digit_fuel (suc n) 16 (omega arith)))
        (omega (arith, length-backwards ds, length-rems digit_fuel 16 (suc n) fits))
        (subst (λ v. v < 2 ^ 64) (sym worth_is) fits)
    ∙ ap (λ v. (0, v)) worth_is
