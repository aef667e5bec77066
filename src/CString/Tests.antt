-- ===== src/CString/Tests.antt =====
-- Runs of the string routines on short texts.
use lori_os.Prelude.{
  ℕ, ◌≡◌, refl, List, [], ◌∷◌, map, none, some, take, drop, copy_to, arith, negsuc,
}
use lori_os.CString.{
  digit, digits_from, reverse_from, reverse, itoa, hex_digit, hex_from, hex_string_to_pointer,
  copy_word, copy_blocks, memcpy, memcmp, strchr, strnchr, sign_extended, strrchr_from, strrchr,
  strspn, strcspn, strtok_r,
}
use lori_os.CString.Digits.{worth, digit_worth, itoa-worth, hex_string_to_pointer-itoa}
use lori_os.CString.Search.{
  LastFound, strrchr-LastFound, FirstFound, strchr-FirstFound, strnchr_past,
}
use lori_os.CString.Copy.{memcpy-copy_to}
use lori_os.CString.Tokens.{tokens, tokens_from}

-- "/a//bc"
abbrev path : List ℕ
path = 47 ∷ 97 ∷ 47 ∷ 47 ∷ 98 ∷ 99 ∷ []

itoa_test : itoa 48879 16 ≡ 98 ∷ 101 ∷ 101 ∷ 102 ∷ []
unfolding itoa digits_from digit reverse reverse_from
itoa_test = refl

hex_test : hex_string_to_pointer (98 ∷ 101 ∷ 103 ∷ []) 8 ≡ (1, 3040)
unfolding hex_string_to_pointer hex_from hex_digit
hex_test = refl

memcpy_test :
    memcpy (0 ∷ 0 ∷ 0 ∷ 0 ∷ 0 ∷ 0 ∷ 9 ∷ []) (1 ∷ 2 ∷ 3 ∷ 4 ∷ 5 ∷ 6 ∷ 7 ∷ []) 6
    ≡ some (1 ∷ 2 ∷ 3 ∷ 4 ∷ 5 ∷ 6 ∷ 9 ∷ [])
unfolding memcpy copy_blocks copy_word mathlib.Core.Option.bind
memcpy_test = refl

memcpy_past_test : memcpy (0 ∷ []) (1 ∷ 2 ∷ []) 2 ≡ none
unfolding memcpy copy_blocks copy_word mathlib.Core.Option.bind
memcpy_past_test = refl

memcmp_test : memcmp (1 ∷ 2 ∷ 3 ∷ []) (1 ∷ 3 ∷ 0 ∷ []) 3 ≡ negsuc 0
unfolding memcmp
memcmp_test = refl

strrchr_test : strrchr path 47 ≡ some (98 ∷ 99 ∷ [])
unfolding strrchr strrchr_from
strrchr_test = refl

strnchr_test : strnchr path 97 2 ≡ none
unfolding strnchr
strnchr_test = refl

tokens_test : tokens path (47 ∷ []) ≡ (97 ∷ []) ∷ ((98 ∷ 99 ∷ []) ∷ [])
unfolding tokens tokens_from strtok_r strspn strcspn strchr
tokens_test = refl

itoa-worth_test : worth 16 0 (map digit_worth (itoa 48879 16)) ≡ 48879
itoa-worth_test = itoa-worth 48879 16 (omega arith) (omega arith)

hex_string_to_pointer-itoa_example : hex_string_to_pointer (itoa 48879 16) 16 ≡ (0, 48879)
hex_string_to_pointer-itoa_example = hex_string_to_pointer-itoa 48879 16 (omega arith) (omega arith)

memcpy-copy_to_example :
    memcpy (0 ∷ 0 ∷ 0 ∷ []) (1 ∷ 2 ∷ 3 ∷ []) 2
    ≡ some (copy_to 0 (take 2 (1 ∷ 2 ∷ 3 ∷ [])) (0 ∷ 0 ∷ 0 ∷ []))
memcpy-copy_to_example =
    memcpy-copy_to (0 ∷ 0 ∷ 0 ∷ []) (1 ∷ 2 ∷ 3 ∷ []) 2 (omega arith) (omega arith)

-- "a", the byte 228 and "b": the byte is found as a `char`, and not as a number.
abbrev latin : List ℕ
latin = 97 ∷ 228 ∷ 98 ∷ []

strrchr_char_test :
    (strrchr latin (sign_extended 228) ≡ some (98 ∷ [])) × (strrchr latin 228 ≡ none)
unfolding strrchr strrchr_from
strrchr_char_test = (refl, refl)

strrchr-LastFound_example : LastFound 228 latin (strrchr latin (sign_extended 228))
strrchr-LastFound_example = strrchr-LastFound latin 228

strchr-FirstFound_test : FirstFound 97 path (strchr path 97)
strchr-FirstFound_test = strchr-FirstFound path 97 (omega arith)

strnchr_past_test : strnchr path 98 2 ≡ some (drop 2 path)
strnchr_past_test = strnchr_past path 98 2 (omega arith) (omega arith)
