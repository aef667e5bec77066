-- ===== src/RingBuffer/Plans.antt =====
-- What `EnqueueUnlocked` does where it need not resize the block.
use lori_os.Prelude.{
  ℕ, ◌+◌, ◌-◌, ◌%◌, ◌<◌, ◌≡◌, refl, ap, ◌∙◌, List, true, false, leb, ltb, ◌&&◌, if◌then◌else◌,
  length, take, drop, copy_to, arith, add32, Bool-cases, inl, inr,
}
use native.Mathlib.Nat.{mod-eq_of_lt, mod-eq-sub-mod}
use lori_os.Kmalloc.{Kmalloc}
use lori_os.RingBuffer.{Ring, Plan, plan, enqueue}

-- The ring after the elements `xs` go to the pointer.
abbrev pub filled : List ℕ → Plan → Ring
filled xs p = record p.ring {
  cells = copy_to p.ring.enq (take p.contiguous xs) p.ring.cells;
  enq = (p.ring.enq + length xs) % p.ring.room;
  count = add32 p.ring.count (length xs);
}

-- A sum of less than twice the modulus.
pub wrap_lem : (a m : ℕ) → a < m + m → a % m ≡ (if ltb a m then a else a - m)
wrap_lem a m h = elim (Bool-cases (ltb a m)) [
  | inl below ↦ rw below (mod-eq_of_lt (ground arith))
  | inr past ↦ rw past (mod-eq-sub-mod (ground arith) ∙ mod-eq_of_lt (ground arith))
]

module _ (k : Kmalloc) (width : ℕ) where
  -- All elements go to the pointer.
  pub enqueue_straight :
      (addr : ℕ) (xs : List ℕ) (r : Ring)
      → (ltb r.enq r.deq && ltb r.deq (r.enq + length xs)) ≡ false
      → ltb r.room (r.enq + length xs) ≡ false
      → enqueue k width addr xs r ≡ filled xs (record { ring = r; contiguous = length xs })
  unfolding enqueue plan
  enqueue_straight addr xs r h l =
      let e : plan k width addr xs r ≡ record { ring = r; contiguous = length xs } =
        rw (h, l) refl in
      ap (filled xs) e

  -- The elements past the end of the block go to its start.
  pub enqueue_around :
      (addr : ℕ) (xs : List ℕ) (r : Ring)
      → (ltb r.enq r.deq && ltb r.deq (r.enq + length xs)) ≡ false
      → ltb r.room (r.enq + length xs) ≡ true
      → leb r.deq (length xs - (r.room - r.enq)) ≡ false
      → enqueue k width addr xs r
        ≡ filled xs (record {
          ring = record r { cells = copy_to 0 (drop (r.room - r.enq) xs) r.cells };
          contiguous = r.room - r.enq;
        })
  unfolding enqueue plan
  enqueue_around addr xs r h l f =
      let e : plan k width addr xs r ≡ record {
        ring = record r { cells = copy_to 0 (drop (r.room - r.enq) xs) r.cells };
        contiguous = r.room - r.enq;
      } =
        rw (h, l, f) refl in
      ap (filled xs) e
