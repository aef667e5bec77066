-- ===== src/Path/Split.antt =====
-- `Split` of Kernel/include/String.h.
use lori_os.Prelude.{
  ℕ, ◌+◌, ◌-◌, ◌≡◌, ◌≢◌, refl, ap, ap₂, sym, subst, ◌∙◌, List, [], ◌∷◌, ◌++◌, arith, if◌then◌else◌,
  ltb, length, slice, length-append, ℕ_discrete, append-nil, append_assoc,
}
use lori_os.CString.Tokens.{fields, keep, tokens, tokens-fields}
use lori_os.CString.Search.{Avoids}
use lori_os.Path.{split, split_from, join, out_path, slash}

slice-middle : (pre cur s : List ℕ) → slice (length pre) (length cur) (pre ++ (cur ++ s)) ≡ cur
slice-middle [] [] s = refl
slice-middle [] (c ∷ cur) s = ap (c ∷◌) (slice-middle [] cur s)
slice-middle (p ∷ pre) cur s = slice-middle pre cur s

part_end :
    (cur part : List ℕ) (n : ℕ) (r : List (List ℕ))
    → n ≡ length cur
    → part ≡ cur
    → (if ltb 0 n then part ∷ r else r) ≡ keep cur r
part_end [] part n r e f = ground arith
part_end (c ∷ cur) part n r e f = ground arith

slice_is :
    (pre cur s buffer : List ℕ) (start i : ℕ)
    → buffer ≡ pre ++ (cur ++ s)
    → start ≡ length pre
    → i ≡ start + length cur
    → slice start (i - start) buffer ≡ cur
slice_is pre cur s buffer start i b e f =
    ap (slice start (i - start)) b
    ∙ ap₂ (λ a n. slice a n (pre ++ (cur ++ s))) e (omega arith)
    ∙ slice-middle pre cur s

behind :
    (pre cur : List ℕ) (x : ℕ) (s : List ℕ)
    → pre ++ (cur ++ (x ∷ s)) ≡ (pre ++ (cur ++ (x ∷ []))) ++ s
behind pre cur x s =
    ap (pre ++◌) (sym (append_assoc cur (x ∷ []) s)) ∙ sym (append_assoc pre (cur ++ (x ∷ [])) s)

-- The part that the loop is in starts behind `pre`.
split_from-fields :
    (d : ℕ) (pre cur s buffer : List ℕ) (start i : ℕ)
    → buffer ≡ pre ++ (cur ++ s)
    → start ≡ length pre
    → i ≡ start + length cur
    → split_from buffer d start i s ≡ fields d cur s
unfolding split_from fields
split_from-fields d pre cur [] buffer start i b e f =
    part_end cur (slice start (i - start) buffer) (i - start) [] (omega arith)
      (slice_is pre cur [] buffer start i b e f)
split_from-fields d pre cur (x ∷ s) buffer start i b e f = elim (ℕ_discrete x d) [
  | yes same ↦
      let next =
        split_from-fields d (pre ++ (cur ++ (x ∷ []))) [] s buffer (i + 1) (i + 1)
          (b ∙ behind pre cur x s)
          (omega (arith, length-append pre (cur ++ (x ∷ [])), length-append cur (x ∷ [])))
          (omega arith) in
      let here =
        part_end cur (slice start (i - start) buffer) (i - start) (fields d [] s) (omega arith)
          (slice_is pre cur (x ∷ s) buffer start i b e f) in
      ground arith
  | no ne ↦
      let next =
        split_from-fields d pre (cur ++ (x ∷ [])) s buffer start (i + 1)
          (b ∙ ap (pre ++◌) (sym (append_assoc cur (x ∷ []) s))) e
          (omega (arith, length-append cur (x ∷ []))) in
      ground arith
]

-- `Split` returns the parts of the text between the delimiters that are not empty, in their order.
pub split-fields : (s : List ℕ) (d : ℕ) → split s d ≡ fields d [] s
unfolding split
split-fields s d = split_from-fields d [] [] s s 0 0 refl refl refl

-- `Split` and a loop of calls of `strtok_r` take a text apart in the same way.
pub split-tokens : (s : List ℕ) (d : ℕ) → Avoids 0 s → split s d ≡ tokens s (d ∷ [])
split-tokens s d a = split-fields s d ∙ sym (tokens-fields d s a)

-- A part: some bytes, none of them the delimiter.
pub record IsPart (d : ℕ) (t : List ℕ) : Type 0 where
  pub some_byte : length t ≢ 0
  pub apart : Avoids d t

abbrev pub Parts : ℕ → List (List ℕ) → Type 0
Parts d [] = Unit
Parts d (t ∷ ts) = IsPart d t × Parts d ts

pub Avoids-append : (d : ℕ) (s t : List ℕ) → Avoids d s → Avoids d t → Avoids d (s ++ t)
Avoids-append d [] t h k = k
Avoids-append d (x ∷ s) t (ne, h) k = (ne, Avoids-append d s t h k)

keep-Parts :
    (d : ℕ) (cur : List ℕ) (r : List (List ℕ)) → Avoids d cur → Parts d r → Parts d (keep cur r)
keep-Parts d [] r a h = h
keep-Parts d (c ∷ cur) r a h = (record { some_byte = λ e. omega arith; apart = a }, h)

pub fields-Parts : (d : ℕ) (cur s : List ℕ) → Avoids d cur → Parts d (fields d cur s)
unfolding fields
fields-Parts d cur [] a = keep-Parts d cur [] a tt
fields-Parts d cur (x ∷ s) a = elim (ℕ_discrete x d) [
  | yes same ↦
      subst (Parts d) {x = keep cur (fields d [] s)} (ground arith)
        (keep-Parts d cur _ a (fields-Parts d [] s tt))
  | no ne ↦
      subst (Parts d) {x = fields d (cur ++ (x ∷ [])) s} (ground arith)
        (fields-Parts d (cur ++ (x ∷ [])) s (Avoids-append d cur (x ∷ []) a (ne, tt)))
]

pub fields-append :
    (d : ℕ) (cur t s : List ℕ) → Avoids d t → fields d cur (t ++ s) ≡ fields d (cur ++ t) s
unfolding fields
fields-append d cur [] s a = ap (λ c. fields d c s) (sym (append-nil cur))
fields-append d cur (x ∷ t) s (ne, a) =
    let next = fields-append d (cur ++ (x ∷ [])) t s a in
    ground (arith, append_assoc cur (x ∷ []) t)

pub kept : (t : List ℕ) (ts : List (List ℕ)) → length t ≢ 0 → keep t ts ≡ t ∷ ts
kept [] ts h = absurd (h refl)
kept (x ∷ t) ts h = refl

fields-join_behind :
    (cur : List ℕ) (ts : List (List ℕ)) → Parts slash ts → fields slash cur (join ts) ≡ keep cur ts
unfolding fields
fields-join_behind cur [] h = refl
fields-join_behind cur (t ∷ ts) (p, h) =
    ap (keep cur) (
      fields-append slash [] t (join ts) p.apart
      ∙ fields-join_behind t ts h
      ∙ kept t ts p.some_byte)

-- The text that is printed for parts has just these parts.
pub fields-out_path : (ts : List (List ℕ)) → Parts slash ts → fields slash [] (out_path ts) ≡ ts
unfolding fields
fields-out_path [] h = refl
fields-out_path (t ∷ ts) h = fields-join_behind [] (t ∷ ts) h
