-- ===== src/ReadWriteLock/Tests.antt =====
-- Two threads, one of which writes.
use lori_os.Prelude.{◌≡◌, refl, arith}
use lori_os.ReadWriteLock.{System, write_lock, write_file, new_lock, Reach, start, later}
use lori_os.ReadWriteLock.Exclusion.{Reach-exclusive}

abbrev prepared : System
prepared = record {
  lock = 1;
  file_lock = 0;
  active_readers = 0;
  idle = 1;
  counting = 0;
  first = 0;
  releasing = 0;
  reading = 0;
  last = 0;
  preparing = 1;
  writing = 0;
  leaving = 0;
}

abbrev one_writes : System
one_writes = record prepared { preparing = 0; file_lock = 1; writing = 1 }

one_writes-Reach : Reach 2 one_writes
unfolding new_lock
one_writes-Reach = later (later start (write_lock 1 refl refl)) (write_file 0 refl refl)

Reach-exclusive_example : (one_writes.writing ≡ 1) × (one_writes.reading ≡ 0)
Reach-exclusive_example = Reach-exclusive 2 (omega arith) one_writes-Reach (omega arith)
