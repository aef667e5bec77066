-- ===== src/Pty.antt =====
-- Kernel/src/TTY/PTY.cpp: a pseudo terminal, two character buffers with the threads that wait for
-- either side. A thread is its number; `woken` lists those that were unblocked or signalled.
pub mod Wakeups
mod Tests
use lori_os.Prelude.{
  ℕ, zero, suc, ◌+◌, ◌-◌, List, [], ◌∷◌, ◌++◌, Bool, true, false, not, ◌&&◌, ◌||◌, Option, none,
  some, leb, ltb, ◌==◌, if◌then◌else◌, length, drop,
}
use lori_os.Kmalloc.{Kmalloc}
use lori_os.CharacterBuffer.{create, flush, CharacterBuffer, read, write}

-- the threads that are blocked in a read of a side, and those that watch it
pub record Waiting : Type 0 where
  pub blocked : List ℕ
  pub watching : List ℕ

pub record Pty : Type 0 where
  pub master : CharacterBuffer
  pub slave : CharacterBuffer
  pub canonical : Bool
  pub echo : Bool
  pub on_master : Waiting
  pub on_slave : Waiting
  pub woken : List ℕ

abbrev pub nobody : Waiting
nobody = record { blocked = []; watching = [] }

-- the constructor: an echoing terminal in canonical mode
pub create_pty : Kmalloc → Pty
create_pty k = record {
  master = flush (record (create k) { ignore_backspace = true });
  slave = flush (create k);
  canonical = true;
  echo = true;
  on_master = nobody;
  on_slave = nobody;
  woken = [];
}

-- `CanRead` of the two files
pub can_read_master : Pty → Bool
can_read_master p = not (p.master.pos == 0)

pub can_read_slave : Pty → Bool
can_read_slave p = if p.canonical then not (p.slave.lines == 0) else not (p.slave.pos == 0)

-- The loops that unblock or signal the first thread of a list until none is left.
pub wake : List ℕ → List ℕ → List ℕ
wake [] log = log
wake (t ∷ ts) log = wake ts (log ++ (t ∷ []))

-- Both loops of a side, each under the test that the side can be read.
pub wake_blocked : Bool → Waiting → List ℕ → Waiting × List ℕ
unfolding wake
wake_blocked ready w log =
    if ready then (record w { blocked = [] }, wake w.blocked log) else (w, log)

pub wake_watching : Bool → Waiting → List ℕ → Waiting × List ℕ
unfolding wake
wake_watching ready w log =
    if ready then (record w { watching = [] }, wake w.watching log) else (w, log)

-- What a read does: the thread is blocked, or it gets bytes.
pub data Outcome : Type 0 where
  blocks : Outcome
  returns : List ℕ → Outcome

-- `SlaveRead` by a thread, up to the point where it is blocked, and from there on again when it runs
pub slave_read : ℕ → ℕ → Pty → Outcome × Pty
unfolding can_read_slave
slave_read thread n p =
    let (out, s) = read p.slave n in
    if can_read_slave p then (returns out, record p { slave = s }) else (
      blocks,
      record p { on_slave = record p.on_slave { blocked = p.on_slave.blocked ++ (thread ∷ []) } },
    )

-- `MasterRead`, which does not block
pub master_read : ℕ → Pty → Outcome × Pty
master_read n p = let (out, m) = read p.master n in (returns out, record p { master = m })

abbrev pub escape : ℕ
escape = 27

-- the echo of a byte: `\e` shows as `^[`
abbrev pub echoed : ℕ → List ℕ
echoed c = if c == escape then 94 ∷ 91 ∷ [] else c ∷ []

pub echo_all : Kmalloc → List ℕ → CharacterBuffer → CharacterBuffer
echo_all k [] m = m
echo_all k (c ∷ bytes) m = echo_all k bytes (write k m (echoed c)).1

-- `MasterWrite`: the number of bytes that the slave's buffer took
pub master_write : Kmalloc → List ℕ → Pty → ℕ × Pty
unfolding wake_blocked wake_watching echo_all can_read_slave
master_write k bytes p =
    let (ret, s) = write k p.slave bytes in
    let ready = can_read_slave (record p { slave = s }) in
    let (w, log) = wake_blocked ready p.on_slave p.woken in
    let m = if p.echo && not (ret == 0) then echo_all k bytes p.master else p.master in
    let (w', log') = wake_watching ready w log in
    (ret, record p { slave = s; master = m; on_slave = w'; woken = log' })

-- `SlaveWrite`
pub slave_write : Kmalloc → List ℕ → Pty → ℕ × Pty
unfolding wake_blocked wake_watching can_read_master
slave_write k bytes p =
    let (ret, m) = write k p.master bytes in
    let ready = can_read_master (record p { master = m }) in
    let (w, log) = wake_blocked ready p.on_master p.woken in
    let (w', log') = wake_watching ready w log in
    (ret, record p { master = m; on_master = w'; woken = log' })

-- `WatchMaster` and `WatchSlave`, with the test of `events` for input
pub watch_master : Bool → ℕ → Pty → Pty
unfolding can_read_master
watch_master input t p =
    if not input || can_read_master p
    then record p { woken = p.woken ++ (t ∷ []) }
    else record p { on_master = record p.on_master { watching = p.on_master.watching ++ (t ∷ []) } }

pub watch_slave : Bool → ℕ → Pty → Pty
unfolding can_read_slave
watch_slave input t p =
    if not input || can_read_slave p
    then record p { woken = p.woken ++ (t ∷ []) }
    else record p { on_slave = record p.on_slave { watching = p.on_slave.watching ++ (t ∷ []) } }

-- `UnwatchMaster` and `UnwatchSlave`: the first entry of the watcher goes.
pub without : ℕ → List ℕ → List ℕ
without t [] = []
without t (u ∷ us) = let rest = without t us in if u == t then us else u ∷ rest

pub unwatch_master : ℕ → Pty → Pty
unfolding without
unwatch_master t p = record p {
  on_master = record p.on_master { watching = without t p.on_master.watching };
}

pub unwatch_slave : ℕ → Pty → Pty
unfolding without
unwatch_slave t p = record p {
  on_slave = record p.on_slave { watching = without t p.on_slave.watching };
}

-- `Ioctl` with `TCSETS`: the local flags, and whether a backspace is kept
pub set_mode : Bool → Bool → Pty → Pty
set_mode canonical echo p = record p {
  canonical = canonical;
  echo = echo;
  slave = record p.slave { ignore_backspace = not canonical };
}

-- The loop of `PTYDevice::Write` on the master, which repeats a short write with what is left:
-- `none` when the fuel runs out.
pub write_master_all : Kmalloc → ℕ → List ℕ → Pty → Option Pty
unfolding master_write
write_master_all k zero bytes p = none
write_master_all k (suc fuel) bytes p =
    let ret = (master_write k bytes p).0 in
    let q = (master_write k bytes p).1 in
    let rest = write_master_all k fuel (drop ret bytes) q in
    if leb (length bytes) ret then some q else rest
