-- ===== src/LinkedList.antt =====
-- The sequence that a `List` of Kernel/include/List.h holds. An iterator is the position that it
-- stands at: the elements before it and those from it on.
use lori_os.Prelude.{List, [], ◌∷◌, ◌++◌}

-- An element with those before and behind it: what a pointer into the list refers to.
pub record Place (A : Type 0) : Type 0 where
  pub before : List A
  pub item : A
  pub after : List A

abbrev pub to_list : {A : Type 0} → Place A → List A
to_list p = p.before ++ (p.item ∷ p.after)

-- `insert(obj, it)`: at the last node it calls `add_back`, elsewhere `InsertNodeBefore`. The
-- elements from the iterator on are `x ∷ rest`; at the end of the list the source asserts.
unfoldable pub insert_before : {A : Type 0} → A → A → List A → Place A
insert_before obj x [] = record { before = x ∷ []; item = obj; after = [] }
insert_before obj x (y ∷ rest) = record { before = []; item = obj; after = x ∷ y ∷ rest }

unfoldable pub add_back : {A : Type 0} → List A → A → Place A
add_back xs obj = record { before = xs; item = obj; after = [] }

-- The element `x` was passed on the way to the place.
abbrev pub behind : {A : Type 0} → A → Place A → Place A
behind x p = record p { before = x ∷ p.before }
