-- ===== src/CString.antt =====
-- Kernel/src/String.cpp: the C string routines. A `char*` to a text that ends in 0 is the list of the
-- bytes in front of the 0, none of them 0; a pointer into the text is what is left of it from there.
mod Digits
pub mod Search
pub mod Copy
pub mod Tokens
mod Tests
use lori_os.Prelude.{
  ℕ, zero, suc, ◌+◌, ◌-◌, ◌*◌, ◌/◌, ◌%◌, ◌^◌, List, [], ◌∷◌, ◌++◌, Bool, true, false, not, ◌&&◌,
  Option, none, some, leb, ltb, ◌==◌, if◌then◌else◌, length, take, drop, set, get_or, slice,
  copy_to, ℤ, pos, negsuc,
}
use mathlib.Core.Option
use Prim.Native.Nat.{bit_or, bit_and}

-- `reverse`: round `i` exchanges the bytes `i` and `length - 1 - i`.
unfoldable pub reverse_from : ℕ → ℕ → ℕ → List ℕ → List ℕ
reverse_from zero i len str = str
reverse_from (suc rounds) i len str =
    let c = get_or str (len - 1 - i) 0 in
    reverse_from rounds (i + 1) len (set (set str (len - 1 - i) (get_or str i 0)) i c)

unfoldable pub reverse : List ℕ → ℕ → List ℕ
unfolding reverse_from
reverse str len = reverse_from (len / 2) 0 len str

-- `(rem > 9) ? (rem - 10) + 'a' : rem + '0'`
unfoldable pub digit : ℕ → ℕ
digit rem = if ltb 9 rem then rem - 10 + 97 else rem + 48

-- The loop of `itoa`, which writes the last digit first; one unit of fuel for a digit.
unfoldable pub digits_from : ℕ → ℕ → ℕ → List ℕ
unfolding digit
digits_from zero num base = []
digits_from (suc fuel) zero base = []
digits_from (suc fuel) (suc n) base = digit (suc n % base) ∷ digits_from fuel (suc n / base) base

-- a number of type `unsigned long long` has at most as many digits as bits
abbrev pub digit_fuel : ℕ
digit_fuel = 64

unfoldable pub itoa : ℕ → ℕ → List ℕ
unfolding digits_from reverse
itoa num base =
    let str = digits_from digit_fuel num base in
    if num == 0 then 48 ∷ [] else reverse str (length str)

-- the value of a digit in `HexStringToPointer`, or none where it returns 1
pub hex_digit : ℕ → Option ℕ
hex_digit c =
    if leb 48 c && leb c 57
    then some (bit_and (c - 48) 15)
    else if leb 97 c && leb c 102
    then some (bit_and (c - 97 + 10) 15)
    else if leb 65 c && leb c 70
    then some (bit_and (c - 65 + 10) 15)
    else none

-- The loop of `HexStringToPointer`, which keeps what it read where it meets another byte.
pub hex_from : List ℕ → ℕ → ℕ → ℕ × ℕ
unfolding hex_digit
hex_from [] n value = (0, value)
hex_from (c ∷ s) zero value = (0, value)
hex_from (c ∷ s) (suc n) value =
    let shifted = value * 2 ^ 4 % 2 ^ 64 in
    elim (hex_digit c) [ none ↦ (1, shifted) | some d ↦ hex_from s n (bit_or shifted d) ]

pub hex_string_to_pointer : List ℕ → ℕ → ℕ × ℕ
unfolding hex_from
hex_string_to_pointer s size = hex_from s size 0

-- One block of `memcpy`: `none` where it is read or written past the end of a block of memory.
pub copy_word : ℕ → ℕ → List ℕ → List ℕ → Option (List ℕ)
copy_word width off src dest =
    if leb (off + width) (length src) && leb (off + width) (length dest)
    then some (copy_to off (slice off width src) dest)
    else none

-- One loop of `memcpy`, which copies blocks of `width` bytes while as many are left. The pointers are
-- the offset `off` that both have moved by.
pub copy_blocks : ℕ → ℕ → ℕ → ℕ → List ℕ → List ℕ → Option (ℕ × ℕ × List ℕ)
copy_blocks width zero off count src dest = some (off, count, dest)
copy_blocks width (suc fuel) off count src dest =
    let rest =
      Option.bind (copy_word width off src dest)
        (λ d. copy_blocks width fuel (off + width) (count - width) src d) in
    if leb width count then rest else some (off, count, dest)

-- The bytes that fit take at most `count` rounds, of each width.
pub memcpy : List ℕ → List ℕ → ℕ → Option (List ℕ)
unfolding copy_blocks
memcpy dest src count = Option.bind (copy_blocks 8 count 0 count src dest) (λ (off, left, d).
    Option.bind (copy_blocks 4 left off left src d)
      (λ (off', left', d'). Option.map (λ r. r.2) (copy_blocks 1 left' off' left' src d')))

-- `memcmp` of two blocks that have `n` bytes
pub memcmp : List ℕ → List ℕ → ℕ → ℤ
memcmp (x ∷ a) (y ∷ b) (suc n) =
    let rest = memcmp a b n in if ltb x y then negsuc 0 else if ltb y x then pos 1 else rest
memcmp a b n = pos 0

-- `strncmp(a, b, n) == 0` and `strcmp(a, b) == 0`, on names without the closing 0
unfoldable pub strncmp_eq : ℕ → List ℕ → List ℕ → Bool
strncmp_eq zero a b = true
strncmp_eq (suc n) [] [] = true
strncmp_eq (suc n) [] (y ∷ b) = false
strncmp_eq (suc n) (x ∷ a) [] = false
strncmp_eq (suc n) (x ∷ a) (y ∷ b) = x == y && strncmp_eq n a b

unfoldable pub strcmp_eq : List ℕ → List ℕ → Bool
strcmp_eq [] [] = true
strcmp_eq [] (y ∷ b) = false
strcmp_eq (x ∷ a) [] = false
strcmp_eq (x ∷ a) (y ∷ b) = x == y && strcmp_eq a b

-- The pointer to the closing 0 is `[]`.
unfoldable pub strchr : List ℕ → ℕ → Option (List ℕ)
strchr [] c = if c == 0 then some [] else none
strchr (x ∷ s) c = let rest = strchr s c in if x == c then some (x ∷ s) else rest

-- `n` is decremented by each test of the loop, also by the one that finds it 0: it wraps around, and
-- the test behind the loop passes.
pub strnchr : List ℕ → ℕ → ℕ → Option (List ℕ)
strnchr s c zero = some s
strnchr [] c (suc n) = if c == 0 && not (n == 0) then some [] else none
strnchr (x ∷ s) c (suc n) =
    let rest = strnchr s c n in if x == c then (if n == 0 then none else some (x ∷ s)) else rest

-- A `char` that is compared with an `int` is extended by its sign; an `int` stands here as its 32 bits.
abbrev pub sign_extended : ℕ → ℕ
sign_extended x = if ltb x 128 then x else x + (2 ^ 32 - 256)

unfoldable pub strrchr_from : Option (List ℕ) → List ℕ → ℕ → Option (List ℕ)
strrchr_from occ [] c = occ
strrchr_from occ (x ∷ s) c = strrchr_from (if sign_extended x == c then some s else occ) s c

unfoldable pub strrchr : List ℕ → ℕ → Option (List ℕ)
unfolding strrchr_from
strrchr s c = strrchr_from none s c

abbrev pub is_found : Option (List ℕ) → Bool
is_found none = false
is_found (some s) = true

unfoldable pub strspn : List ℕ → List ℕ → ℕ
unfolding strchr
strspn [] s2 = 0
strspn (x ∷ s1) s2 = let n = strspn s1 s2 in if is_found (strchr s2 x) then suc n else 0

unfoldable pub strcspn : List ℕ → List ℕ → ℕ
unfolding strchr
strcspn [] s2 = 0
strcspn (x ∷ s1) s2 = let n = strcspn s1 s2 in if is_found (strchr s2 x) then 0 else suc n

-- `*p ? *p = 0, p + 1 : 0`
abbrev pub past : List ℕ → Option (List ℕ)
past [] = none
past (x ∷ s) = some s

abbrev pub start_at : Option (List ℕ) → Option (List ℕ) → Option (List ℕ)
start_at none saved = saved
start_at (some s) saved = some s

-- The token, which the 0 that is written behind it ends, and the pointer that is kept.
unfoldable pub strtok_r :
    Option (List ℕ) → List ℕ → Option (List ℕ) → Option (List ℕ) × Option (List ℕ)
unfolding strspn strcspn
strtok_r str delim saved = elim (start_at str saved) [
  | none ↦ (none, none)
  | some p ↦
      let s = drop (strspn p delim) p in
      let n = strcspn s delim in if n == 0 then (none, none) else (some (take n s), past (drop n s))
]
