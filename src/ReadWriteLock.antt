-- ===== src/ReadWriteLock.antt =====
-- `ReadWriteLock` of Kernel/include/Lock.h under threads that interleave after each access to memory. What
-- counts of a thread is where it stands in a call, so the state has the number of threads at each place.
pub mod Exclusion
mod Tests
use lori_os.Prelude.{ℕ, suc, ◌+◌, ◌-◌, ◌≡◌, ◌≢◌, add32, sub32}

pub record System : Type 0 where
  -- `lock`, `fileLock` and `activeReaders`
  pub lock : ℕ
  pub file_lock : ℕ
  pub active_readers : ℕ
  -- outside of every call
  pub idle : ℕ
  -- in `AcquireRead`: the lock is held; the first reader waits for the file lock; the lock is released next
  pub counting : ℕ
  pub first : ℕ
  pub releasing : ℕ
  -- between `AcquireRead` and `ReleaseRead`
  pub reading : ℕ
  -- in `ReleaseRead`: the last reader releases the file lock next
  pub last : ℕ
  -- in `AcquireWrite`: the lock is held, the file lock is waited for
  pub preparing : ℕ
  -- between `AcquireWrite` and `ReleaseWrite`
  pub writing : ℕ
  -- in `ReleaseWrite`: the lock is released next
  pub leaving : ℕ

-- One thread makes one step. An exchange takes a lock only where it was 0; a thread that finds it taken
-- tries again, which changes nothing.
pub data Step (s : System) : System → Type 0 where
  read_lock :
      (n : ℕ)
      → s.idle ≡ suc n
      → s.lock ≡ 0
      → Step s (record s { idle = n; lock = 1; counting = suc s.counting })
  read_first :
      (n : ℕ)
      → s.counting ≡ suc n
      → add32 s.active_readers 1 ≡ 1
      → Step s (record s { counting = n; active_readers = 1; first = suc s.first })
  read_more :
      (n : ℕ)
      → s.counting ≡ suc n
      → add32 s.active_readers 1 ≢ 1
      → Step s (record s {
        counting = n;
        active_readers = add32 s.active_readers 1;
        releasing = suc s.releasing;
      })
  read_file :
      (n : ℕ)
      → s.first ≡ suc n
      → s.file_lock ≡ 0
      → Step s (record s { first = n; file_lock = 1; releasing = suc s.releasing })
  read_enter :
      (n : ℕ)
      → s.releasing ≡ suc n
      → Step s (record s { releasing = n; lock = 0; reading = suc s.reading })
  read_last :
      (n : ℕ)
      → s.reading ≡ suc n
      → sub32 s.active_readers 1 ≡ 0
      → Step s (record s { reading = n; active_readers = 0; last = suc s.last })
  read_leave :
      (n : ℕ)
      → s.reading ≡ suc n
      → sub32 s.active_readers 1 ≢ 0
      → Step s
          (record s { reading = n; active_readers = sub32 s.active_readers 1; idle = suc s.idle })
  read_free :
      (n : ℕ) → s.last ≡ suc n → Step s (record s { last = n; file_lock = 0; idle = suc s.idle })
  write_lock :
      (n : ℕ)
      → s.idle ≡ suc n
      → s.lock ≡ 0
      → Step s (record s { idle = n; lock = 1; preparing = suc s.preparing })
  write_file :
      (n : ℕ)
      → s.preparing ≡ suc n
      → s.file_lock ≡ 0
      → Step s (record s { preparing = n; file_lock = 1; writing = suc s.writing })
  write_free :
      (n : ℕ)
      → s.writing ≡ suc n
      → Step s (record s { writing = n; file_lock = 0; leaving = suc s.leaving })
  write_leave :
      (n : ℕ) → s.leaving ≡ suc n → Step s (record s { leaving = n; lock = 0; idle = suc s.idle })

-- A new lock, and a number of threads.
unfoldable pub new_lock : ℕ → System
new_lock threads = record {
  lock = 0;
  file_lock = 0;
  active_readers = 0;
  idle = threads;
  counting = 0;
  first = 0;
  releasing = 0;
  reading = 0;
  last = 0;
  preparing = 0;
  writing = 0;
  leaving = 0;
}

pub data Reach (threads : ℕ) : System → Type 0 where
  start : Reach threads (new_lock threads)
  later : {s t : System} → Reach threads s → Step s t → Reach threads t
