-- ===== src/RingBuffer/Contents.antt =====
-- The elements that a ring holds, first one first.
use lori_os.Prelude.{
  ℕ, ◌+◌, ◌-◌, ◌^◌, ◌<◌, ◌≡◌, refl, ap, ◌∙◌, List, ◌++◌, none, leb, ltb, true, false, if◌then◌else◌,
  length, take, drop, slice, get_elem?, get_elem?-take, get_elem?-drop, get_elem?-append,
  length-take, length-drop, length-append, arith, Bool-cases, inl, inr,
}
use lori_os.RingBuffer.{Ring}

unfoldable pub contents : Ring → List ℕ
contents r =
    if leb r.deq r.enq
    then slice r.deq (r.enq - r.deq) r.cells
    else drop r.deq r.cells ++ take r.enq r.cells

-- The block has its size, and the pointers lie in it.
pub record IsValid (r : Ring) : Type 0 where
  pub sized : length r.cells ≡ r.room
  pub enq_inside : r.enq < r.room
  pub deq_inside : r.deq < r.room
  pub small : r.room < 2 ^ 62

-- How many elements there are, and the place of each.
abbrev pub held : Ring → ℕ
held r = if leb r.deq r.enq then r.enq - r.deq else r.room - r.deq + r.enq

abbrev pub place : Ring → ℕ → ℕ
place r i = if ltb (r.deq + i) r.room then r.deq + i else r.deq + i - r.room

contents_linear :
    (r : Ring) → leb r.deq r.enq ≡ true → contents r ≡ slice r.deq (r.enq - r.deq) r.cells
unfolding contents
contents_linear r h = rw h refl

contents_wrapped :
    (r : Ring) → leb r.deq r.enq ≡ false → contents r ≡ drop r.deq r.cells ++ take r.enq r.cells
unfolding contents
contents_wrapped r h = rw h refl

pub get_elem?-contents :
    (r : Ring) (i : ℕ)
    → IsValid r
    → get_elem? (contents r) i ≡ (if ltb i (held r) then get_elem? r.cells (place r i) else none)
get_elem?-contents r i v = elim (Bool-cases (leb r.deq r.enq)) [
  | inl linear ↦
      ap (λ l. get_elem? l i) (contents_linear r linear)
      ∙ get_elem?-take (r.enq - r.deq) (drop r.deq r.cells) i
      ∙ ground (arith, linear, get_elem?-drop r.deq r.cells i, v.enq_inside)
  | inr wrapped ↦
      ap (λ l. get_elem? l i) (contents_wrapped r wrapped)
      ∙ get_elem?-append (drop r.deq r.cells) (take r.enq r.cells) i
      ∙ ground (
        arith,
        wrapped,
        v.sized,
        v.enq_inside,
        v.deq_inside,
        length-drop r.deq r.cells,
        get_elem?-drop r.deq r.cells i,
        get_elem?-take r.enq r.cells (i - length (drop r.deq r.cells)),
        ap (get_elem? r.cells) {x = i - length (drop r.deq r.cells)} {y = r.deq + i - r.room},
      )
]

pub length-contents : (r : Ring) → IsValid r → length (contents r) ≡ held r
unfolding contents
length-contents r v = ground (
  arith,
  v.sized,
  v.enq_inside,
  v.deq_inside,
  length-take (r.enq - r.deq) (drop r.deq r.cells),
  length-drop r.deq r.cells,
  length-take r.enq r.cells,
  length-append (drop r.deq r.cells) (take r.enq r.cells),
)
