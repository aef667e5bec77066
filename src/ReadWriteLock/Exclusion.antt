-- ===== src/ReadWriteLock/Exclusion.antt =====
-- Readers and writers of a `ReadWriteLock` of Kernel/include/Lock.h exclude each other.
use lori_os.Prelude.{ℕ, ◌+◌, ◌^◌, ◌≤◌, ◌<◌, ◌≡◌, ◌≢◌, refl, arith}
use lori_os.ReadWriteLock.{
  System, Step, read_lock, read_first, read_more, read_file, read_enter, read_last, read_leave,
  read_free, write_lock, write_file, write_free, write_leave, new_lock, Reach, start, later,
}

-- The lock has one holder; the readers that were counted are the active ones; the file lock belongs to a
-- writer, to the reader that is about to release it, or to all active readers together.
record Inv (threads : ℕ) (s : System) : Type 0 where
  all :
      s.idle + s.counting + s.first + s.releasing + s.reading + s.last + s.preparing + s.writing
        + s.leaving
      ≡ threads
  holder : s.counting + s.first + s.releasing + s.preparing + s.writing + s.leaving ≡ s.lock
  one_holder : s.lock ≤ 1
  counted : s.active_readers ≡ s.first + s.releasing + s.reading
  first_alone : s.first ≢ 0 → s.active_readers ≡ 1
  nobody : s.active_readers ≡ 0 → s.file_lock ≡ s.writing + s.last
  waiting : s.first ≢ 0 → s.file_lock ≡ s.writing + s.last
  shared : s.active_readers ≢ 0 → s.first ≡ 0 → (s.file_lock ≡ 1) × (s.writing + s.last ≡ 0)
  one_owner : s.file_lock ≤ 1

module _ (threads : ℕ) (few : threads < 2 ^ 32) where
  Inv-new_lock : Inv threads (new_lock threads)
  unfolding new_lock
  Inv-new_lock = record {
    all = omega arith;
    holder = refl;
    one_holder = omega arith;
    counted = refl;
    first_alone = λ e. absurd (e refl);
    nobody = λ e. refl;
    waiting = λ e. refl;
    shared = λ e f. absurd (e refl);
    one_owner = omega arith;
  }

  Inv-Step : {s t : System} → Inv threads s → Step s t → Inv threads t
  Inv-Step {s} i (read_lock n a b) = ground arith
  Inv-Step {s} i (read_first n a b) = ground arith
  Inv-Step {s} i (read_more n a b) = ground arith
  Inv-Step {s} i (read_file n a b) = ground arith
  Inv-Step {s} i (read_enter n a) = ground arith
  Inv-Step {s} i (read_last n a b) = ground arith
  Inv-Step {s} i (read_leave n a b) = ground arith
  Inv-Step {s} i (read_free n a) = ground arith
  Inv-Step {s} i (write_lock n a b) = ground arith
  Inv-Step {s} i (write_file n a b) = ground arith
  Inv-Step {s} i (write_free n a) = ground arith
  Inv-Step {s} i (write_leave n a) = ground arith

  Inv-Reach : {s : System} → Reach threads s → Inv threads s
  Inv-Reach start = Inv-new_lock
  Inv-Reach (later r st) = Inv-Step (Inv-Reach r) st

  -- However the threads interleave, a thread that writes is the only one that writes, and no thread reads.
  pub Reach-exclusive :
      {s : System} → Reach threads s → s.writing ≢ 0 → (s.writing ≡ 1) × (s.reading ≡ 0)
  Reach-exclusive {s} r w = let i = Inv-Reach r in ground arith
