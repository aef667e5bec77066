-- ===== src/Vector/Tests.antt =====
-- Tests of `Vector`.
use lori_os.Prelude.{ℕ, ◌≡◌, refl, [], ◌∷◌, true, false, none, some, arith, get_elem?}
use lori_os.Kmalloc.{zeroed}
use lori_os.Vector.{
  Vector, empty, at, moved, ensure_capacity, reserve, resize, add_back, pop_back, erase, remove,
  clear,
}
use lori_os.Vector.Contents.{
  contents, IsValid, without, add_back-append, erase-without, remove_locks,
}

abbrev three : Vector
three = record { data_block = some (4 ∷ 5 ∷ 6 ∷ 0 ∷ []); count = 3; capacity = 4; locked = false }

three-IsValid : IsValid three
three-IsValid = record { unlocked = refl; sized = refl; inside = omega arith; small = omega arith }

at_test : (at 1 three ≡ some 5) × (at 3 three ≡ none)
unfolding at
at_test = (refl, refl)

pop_test : pop_back three ≡ some (some 6, record three { count = 2 })
unfolding pop_back
pop_test = refl

resize_test :
    resize zeroed 4 three
    ≡ some (record {
      data_block = some (4 ∷ 5 ∷ 6 ∷ 0 ∷ 0 ∷ 0 ∷ 0 ∷ 0 ∷ 0 ∷ 0 ∷ 0 ∷ 0 ∷ 0 ∷ []);
      count = 4;
      capacity = 13;
      locked = false;
    })
unfolding resize ensure_capacity moved
resize_test = refl

reserve_test : reserve zeroed 3 three ≡ some three
unfolding reserve ensure_capacity
reserve_test = refl

clear_test : clear three ≡ some empty
unfolding clear
clear_test = refl

add_back-append_test :
    (w : Vector) × (add_back zeroed 7 three ≡ some w)
    × (w.locked ≡ false)
    × (contents w ≡ 4 ∷ 5 ∷ 6 ∷ 7 ∷ [])
add_back-append_test = add_back-append zeroed 7 three three-IsValid

erase-without_test :
    (w : Vector) × (erase 1 three ≡ some w) × (contents w ≡ 4 ∷ 6 ∷ []) × (w.locked ≡ false)
erase-without_test = erase-without 1 three three-IsValid (omega arith)

remove_locks_example :
    (i : ℕ) × (w : Vector) × (get_elem? (contents three) i ≡ some 5)
    × (remove 5 three ≡ some w)
    × (contents w ≡ without i (contents three))
    × (w.locked ≡ true)
    × (add_back zeroed 9 w ≡ none)
    × (resize zeroed 9 w ≡ none)
    × (erase 9 w ≡ none)
    × (remove 9 w ≡ none)
    × (clear w ≡ none)
remove_locks_example = remove_locks zeroed 5 9 1 three three-IsValid refl
