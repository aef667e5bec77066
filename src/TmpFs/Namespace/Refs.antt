-- ===== src/TmpFs/Namespace/Refs.antt =====
-- Counting the entries that name a node.
use lori_os.Prelude.{
  ℕ, zero, suc, ◌+◌, ◌-◌, ◌<◌, ◌≡◌, refl, sym, ap, ◌∙◌, List, [], ◌∷◌, ◌++◌, Option, none, some,
  ltb, ◌==◌, if◌then◌else◌, length, get_elem?, set, get_elem?-set, get_elem?-append, get_elem?_past,
  arith, Bool-cases, inl, inr, some_eq, none-ne-some,
}
use lori_os.TmpFs.{Node, Entry}
use lori_os.CString.{strncmp_eq, strcmp_eq}
use lori_os.TmpFs.Namespace.{find, remove_entry, name_max, node_at, deref}

-- The entries of a list that name node `i`.
unfoldable pub named : ℕ → List Entry → ℕ
named i [] = 0
named i (e ∷ es) = (if e.target == i then 1 else 0) + named i es

pub named-append : (i : ℕ) (xs ys : List Entry) → named i (xs ++ ys) ≡ named i xs + named i ys
unfolding named
named-append i [] ys = omega arith
named-append i (x ∷ xs) ys = omega (arith, named-append i xs ys)

pub named_one : (i : ℕ) (e : Entry) → named i (e ∷ []) ≡ (if e.target == i then 1 else 0)
unfolding named
named_one i e = ground arith

-- The entries of the directory in a slot, and those of the whole volume.
abbrev pub slot : ℕ → Option Node → ℕ
slot i none = 0
slot i (some n) = named i n.children

unfoldable pub refs : ℕ → List (Option Node) → ℕ
refs i [] = 0
refs i (o ∷ ns) = slot i o + refs i ns

pub refs-append : (i : ℕ) (ns ms : List (Option Node)) → refs i (ns ++ ms) ≡ refs i ns + refs i ms
unfolding refs
refs-append i [] ms = omega arith
refs-append i (o ∷ ns) ms = omega (arith, refs-append i ns ms)

pub refs_one : (i : ℕ) (o : Option Node) → refs i (o ∷ []) ≡ slot i o
unfolding refs
refs_one i o = omega arith

pub refs-set :
    (i : ℕ) (ns : List (Option Node)) (j : ℕ) (o o' : Option Node)
    → get_elem? ns j ≡ some o
    → refs i (set ns j o') + slot i o ≡ refs i ns + slot i o'
unfolding refs
refs-set i [] j o o' e = none-ne-some e
refs-set i (p ∷ ns) zero o o' e = let same : p ≡ o = some_eq e in omega (arith, ap (slot i) same)
refs-set i (p ∷ ns) (suc j) o o' e = omega (arith, refs-set i ns j o o' e)

deref-some : (o : Option (Option Node)) (n : Node) → deref o ≡ some n → o ≡ some (some n)
deref-some none n e = none-ne-some e
deref-some (some o) n e = ap some e

pub node_at-slot :
    (ns : List (Option Node)) (i : ℕ) (n : Node)
    → node_at ns i ≡ some n
    → get_elem? ns i ≡ some (some n)
node_at-slot ns i n e = deref-some (get_elem? ns i) n e

pub node_at-below :
    (ns : List (Option Node)) (i : ℕ) (n : Node) → node_at ns i ≡ some n → i < length ns
node_at-below ns i n e = elim (Bool-cases (ltb i (length ns))) [
  | inl below ↦ ground arith
  | inr past ↦ none-ne-some (sym (get_elem?_past ns i (ground arith)) ∙ node_at-slot ns i n e)
]

pub node_at-set :
    (ns : List (Option Node)) (j i : ℕ) (o : Option Node)
    → j < length ns
    → node_at (set ns j o) i ≡ (if i == j then o else node_at ns i)
node_at-set ns j i o h = ap deref (get_elem?-set ns j o i) ∙ ground arith

pub node_at-append :
    (ns : List (Option Node)) (o : Option Node) (i : ℕ)
    → node_at (ns ++ (o ∷ [])) i ≡ (if i == length ns then o else node_at ns i)
node_at-append ns o i =
    ap deref (get_elem?-append ns (o ∷ []) i)
    ∙ ground (arith, get_elem?_past ns i, get_elem?_past (o ∷ []) (i - length ns))

-- On a name that fits in an entry, the bounded comparison is the whole one.
strncmp_eq-strcmp : (n : ℕ) (a b : List ℕ) → length b < n → strncmp_eq n a b ≡ strcmp_eq b a
unfolding strncmp_eq strcmp_eq
strncmp_eq-strcmp zero a b h = absurd (omega arith)
strncmp_eq-strcmp (suc n) [] [] h = refl
strncmp_eq-strcmp (suc n) [] (y ∷ b) h = refl
strncmp_eq-strcmp (suc n) (x ∷ a) [] h = refl
strncmp_eq-strcmp (suc n) (x ∷ a) (y ∷ b) h = ground (arith, strncmp_eq-strcmp n a b (omega arith))

-- The entry that `find` sees is the one that is removed, so one entry of its node is gone.
pub named-remove_entry :
    (es : List Entry) (name : List ℕ) (t i : ℕ)
    → length name < name_max
    → find es name ≡ some t
    → named i (remove_entry name es) + (if i == t then 1 else 0) ≡ named i es
unfolding find remove_entry named
named-remove_entry [] name t i h e = none-ne-some e
named-remove_entry (x ∷ es) name t i h e = elim (Bool-cases (strncmp_eq name_max x.name name)) [
  | inl hit ↦
      let same : x.target ≡ t = some_eq (rw hit at e) in
      ground (arith, hit, same, strncmp_eq-strcmp name_max x.name name h)
  | inr other ↦
      let rest = named-remove_entry es name t i h (rw other at e) in
      ground (arith, rest, other, strncmp_eq-strcmp name_max x.name name h)
]
