-- ===== src/Vector.antt =====
-- Kernel/include/Vector.h: a growing array behind a spin lock, for a trivial element type. To acquire
-- a lock that is held already is to wait for ever, `none`, as is a failed assertion.
pub mod Contents
mod Tests
use lori_os.Prelude.{
  ℕ, zero, suc, ◌+◌, ◌-◌, ◌*◌, List, [], ◌∷◌, Bool, true, false, Option, none, some, leb, ltb, ◌==◌,
  if◌then◌else◌, length, get_elem?, set, take, drop, slice, copy_to, replicate, word32, add64,
}
use mathlib.Core.Option
use lori_os.Kmalloc.{Kmalloc}

pub record Vector : Type 0 where
  pub data_block : Option (List ℕ)
  pub count : ℕ
  pub capacity : ℕ
  pub locked : Bool

-- the elements of the block; the null pointer has none
abbrev pub cells : Vector → List ℕ
cells v = elim v.data_block [ none ↦ [] | some b ↦ b ]

abbrev pub empty : Vector
empty = record { data_block = none; count = 0; capacity = 0; locked = false }

-- A call that acquires the lock, and releases it at its end.
abbrev pub guard : Vector → Option Vector → Option Vector
guard v r = if v.locked then none else r

-- A method that returned without a release of the lock.
abbrev pub left_locked : Vector → Vector
left_locked v = record v { locked = true }

-- `at`
pub at : ℕ → Vector → Option ℕ
at pos v = if ltb pos v.count then get_elem? (cells v) pos else none

-- the new block of `EnsureCapacity`: the old elements, and zeros up to the size asked for
pub moved : Kmalloc → ℕ → ℕ → ℕ → Option (List ℕ) → List ℕ
moved k larger size capacity none = k.block larger
moved k larger size capacity (some b) =
    copy_to capacity (replicate (size - capacity) 0) (copy_to 0 (take capacity b) (k.block larger))

-- `EnsureCapacity`, whose argument is an `unsigned`
pub ensure_capacity : Kmalloc → ℕ → Vector → Vector
unfolding moved
ensure_capacity k wanted v =
    let size = word32 wanted in
    let larger = add64 v.capacity (word32 (size * 2) + 1) in
    if leb v.capacity size
    then record v {
      data_block = some (moved k larger size v.capacity v.data_block);
      capacity = larger;
    }
    else v

-- `reserve`
pub reserve : Kmalloc → ℕ → Vector → Option Vector
unfolding ensure_capacity
reserve k n v = guard v (some (ensure_capacity k n v))

-- the values `T()` of the elements from `from` up to `upto`
abbrev pub cleared : ℕ → ℕ → List ℕ → List ℕ
cleared from upto b = copy_to from (replicate (upto - from) 0) b

-- `resize`
pub resize : Kmalloc → ℕ → Vector → Option Vector
unfolding ensure_capacity
resize k n v =
    let w = ensure_capacity k n v in
    guard v (some (record w { data_block = some (cleared v.count n (cells w)); count = n }))

-- `add_back`
pub add_back : Kmalloc → ℕ → Vector → Option Vector
unfolding ensure_capacity
add_back k x v =
    let w = ensure_capacity k (v.count + 1) v in
    guard v (some (record w { data_block = some (set (cells w) v.count x); count = v.count + 1 }))

-- `pop_back`, which takes no lock: the element and the vector
pub pop_back : Vector → Option (Option ℕ × Vector)
pop_back v =
    if v.count == 0
    then none
    else some (get_elem? (cells v) (v.count - 1), record v { count = v.count - 1 })

-- `EraseUnlocked`
pub erase_unlocked : ℕ → Vector → Option Vector
erase_unlocked pos v =
    if ltb pos v.count
    then some (record v {
      data_block = some (copy_to pos (slice (suc pos) (v.count - pos - 1) (cells v)) (cells v));
      count = v.count - 1;
    })
    else none

-- `erase`
pub erase : ℕ → Vector → Option Vector
unfolding erase_unlocked
erase pos v = guard v (erase_unlocked pos v)

-- the loop of `remove`: the first of the elements, from index `i` on, that is `x`
pub index_of : ℕ → ℕ → List ℕ → Option ℕ
index_of x i [] = none
index_of x i (y ∷ ys) = let further = index_of x (suc i) ys in if y == x then some i else further

-- `remove`: where the element is found, the method returns without a release of the lock.
pub remove : ℕ → Vector → Option Vector
unfolding index_of erase_unlocked
remove x v = guard v (elim (index_of x 0 (take v.count (cells v))) [
  | none ↦ some v
  | some i ↦ Option.map left_locked (erase_unlocked i v)
])

-- `clear`
pub clear : Vector → Option Vector
clear v = guard v (some empty)
