-- ===== src/CString/Copy.antt =====
-- `memcpy` and `memcmp` of Kernel/src/String.cpp.
use lori_os.Prelude.{
  true, false, Option, some, leb, dec_lt, ℕ, zero, suc, ◌+◌, ◌-◌, ◌≤◌, ◌<◌, ◌≡◌, refl, ap, ◌∙◌,
  List, [], ◌∷◌, arith, length, take, drop, slice, copy_to, elements, list_ext, length-take,
  length-drop, length-copy_to,
}
use lori_os.CString.{memcpy, copy_word, copy_blocks}

-- The first `off` bytes were copied.
copied : ℕ → List ℕ → List ℕ → List ℕ
copied off src dest = copy_to 0 (take off src) dest

length-copied : (off : ℕ) (src dest : List ℕ) → length (copied off src dest) ≡ length dest
unfolding copied
length-copied off src dest = length-copy_to 0 (take off src) dest

copied-none : (src dest : List ℕ) → dest ≡ copied 0 src dest
unfolding copied
copied-none src [] = refl
copied-none src (x ∷ dest) = refl

copied-more :
    (off n : ℕ) (src dest : List ℕ)
    → off + n ≤ length src
    → copy_to off (slice off n src) (copied off src dest) ≡ copied (off + n) src dest
unfolding copied
copied-more off n src dest h = list_ext _ _ λ i. simp elements (
    ground (
      arith,
      length-take off src,
      length-take (off + n) src,
      length-take n (drop off src),
      length-drop off src,
      length-copy_to 0 (take off src) dest,
    ))

-- The loop with blocks of `width` bytes goes on where the loops before it stopped and leaves fewer than
-- `width` bytes.
record Progress (width total : ℕ) (src dest : List ℕ) (r : ℕ × ℕ × List ℕ) : Type 0 where
  moved : r.0 + r.1 ≡ total
  small : r.1 < width
  block : r.2 ≡ copied r.0 src dest

-- A block that is inside of both.
copied_word :
    (width off : ℕ) (src d : List ℕ)
    → off + width ≤ length src
    → off + width ≤ length d
    → copy_word width off src d ≡ some (copy_to off (slice off width src) d)
unfolding copy_word
copied_word width off src d h k =
    let a : leb (off + width) (length src) ≡ true = ground arith in
    let b : leb (off + width) (length d) ≡ true = ground arith in rw (a, b) refl

-- The loop returns with such a progress.
Copies : ℕ → ℕ → List ℕ → List ℕ → Option (ℕ × ℕ × List ℕ) → Type 0
Copies width total src dest o =
    (r : ℕ × ℕ × List ℕ) × (o ≡ some r) × Progress width total src dest r

copy_blocks-Copies :
    (width fuel off count total : ℕ) (src dest d : List ℕ)
    → 0 < width
    → count ≤ fuel
    → off + count ≡ total
    → total ≤ length src
    → total ≤ length dest
    → d ≡ copied off src dest
    → Copies width total src dest (copy_blocks width fuel off count src d)
unfolding copy_blocks Copies mathlib.Core.Option.bind
copy_blocks-Copies width zero off count total src dest d w f t h k e =
    ((off, count, d), refl, record { moved = t; small = omega arith; block = e })
copy_blocks-Copies width (suc fuel) off count total src dest d w f t h k e =
    elim (dec_lt count width) [
      | yes l ↦
          let stops : leb width count ≡ false = ground arith in
          ((off, count, d), rw stops refl, record { moved = t; small = l; block = e })
      | no nl ↦
          let goes : leb width count ≡ true = ground arith in
          let len : length d ≡ length dest = ap length e ∙ length-copied off src dest in
          let one = copied_word width off src d (omega arith) (omega arith) in
          let (r, is, p) =
            copy_blocks-Copies width fuel (off + width) (count - width) total src dest
              (copy_to off (slice off width src) d) w (omega arith) (omega arith) h k
              (ap (copy_to off (slice off width src)) e
                ∙ copied-more off width src dest (omega arith)) in
          (r, rw (goes, one) is, p)
    ]

-- `memcpy`, which copies 8, then 4, then single bytes at a time, writes the first `count` bytes of the
-- source to the start of the destination and changes nothing else, if both have as many.
pub memcpy-copy_to :
    (dest src : List ℕ) (count : ℕ)
    → count ≤ length src
    → count ≤ length dest
    → memcpy dest src count ≡ some (copy_to 0 (take count src) dest)
unfolding memcpy copied Copies mathlib.Core.Option.bind
memcpy-copy_to dest src count h k =
    let (x, e, p) =
      copy_blocks-Copies 8 count 0 count count src dest dest (omega arith) (omega arith)
        (omega arith) h k (copied-none src dest) in
    let (y, f, q) =
      copy_blocks-Copies 4 x.1 x.0 x.1 count src dest x.2 (omega arith) (omega arith) p.moved h k
        p.block in
    let (z, g, r) =
      copy_blocks-Copies 1 y.1 y.0 y.1 count src dest y.2 (omega arith) (omega arith) q.moved h k
        q.block in
    rw (e, f, g) (ap some (r.block ∙ ap (λ n. copied n src dest) (omega (arith, r.moved, r.small))))
