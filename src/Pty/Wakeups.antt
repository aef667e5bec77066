-- ===== src/Pty/Wakeups.antt =====
-- No reader of the slave sleeps while there is something to read, unless the mode is changed; and a
-- write that makes no progress.
use lori_os.Prelude.{
  ℕ, zero, suc, ◌<◌, ◌≡◌, refl, sym, ap, ◌∙◌, subst, List, [], ◌∷◌, Bool, true, false, not, ◌||◌,
  none, some, leb, if◌then◌else◌, drop, arith,
}
use lori_os.Kmalloc.{Kmalloc}
use lori_os.CharacterBuffer.{write, backspace}
use lori_os.CharacterBuffer.Write.{write-backspace}
use lori_os.Pty.{
  create_pty, without, unwatch_master, unwatch_slave, Pty, Waiting, Outcome, can_read_master,
  can_read_slave, wake_blocked, wake_watching, slave_read, master_read, master_write, slave_write,
  watch_master, watch_slave, set_mode, write_master_all,
}

-- Nobody waits for a slave that can be read.
unfoldable pub IsAwake : Pty → Type 0
IsAwake p = can_read_slave p ≡ true → (p.on_slave.blocked ≡ []) × (p.on_slave.watching ≡ [])

-- The calls on a terminal, from either side.
pub data Op : Type 0 where
  slave_reads : ℕ → ℕ → Op
  master_reads : ℕ → Op
  master_writes slave_writes : List ℕ → Op
  watches_master watches_slave : Bool → ℕ → Op
  unwatches_master unwatches_slave : ℕ → Op

pub step : Kmalloc → Pty → Op → Pty
step k p (slave_reads t n) = (slave_read t n p).1
step k p (master_reads n) = (master_read n p).1
step k p (master_writes bytes) = (master_write k bytes p).1
step k p (slave_writes bytes) = (slave_write k bytes p).1
step k p (watches_master input t) = watch_master input t p
step k p (watches_slave input t) = watch_slave input t p
step k p (unwatches_master t) = unwatch_master t p
step k p (unwatches_slave t) = unwatch_slave t p

pub run : Kmalloc → Pty → List Op → Pty
unfolding step
run k p [] = p
run k p (op ∷ ops) = run k (step k p op) ops

-- What holds of both arms of a test holds of it.
either :
    (b : Bool) (x y : Outcome × Pty)
    → (b ≡ true → IsAwake x.1)
    → (b ≡ false → IsAwake y.1)
    → IsAwake (if b then x else y).1
either true x y f g = f refl
either false x y f g = g refl

either_state :
    (b : Bool) (x y : Pty)
    → (b ≡ true → IsAwake x)
    → (b ≡ false → IsAwake y)
    → IsAwake (if b then x else y)
either_state true x y f g = f refl
either_state false x y f g = g refl

woken_all :
    (ready : Bool) (w : Waiting) (log log' : List ℕ)
    → ready ≡ true
    → let v : Waiting = (wake_watching ready (wake_blocked ready w log).0 log').0 in
      (v.blocked ≡ []) × (v.watching ≡ [])
unfolding wake_watching wake_blocked
woken_all true w log log' h = (refl, refl)
woken_all false w log log' h = absurd (cc (h))

not_watched : (input b : Bool) → (not input || b) ≡ false → b ≡ false
not_watched true b h = h
not_watched false b h = absurd (cc (h))

step-IsAwake : (k : Kmalloc) (p : Pty) (op : Op) → IsAwake p → IsAwake (step k p op)
unfolding IsAwake step slave_read master_read master_write slave_write watch_master watch_slave
    unwatch_master unwatch_slave without
step-IsAwake k p (slave_reads t n) awake =
    either (can_read_slave p) _ _ (λ yes' ready. awake yes') (λ no' ready. absurd (cc (no', ready)))
step-IsAwake k p (master_reads n) awake = awake
step-IsAwake k p (master_writes bytes) awake = λ ready. woken_all _ p.on_slave p.woken _ ready
step-IsAwake k p (slave_writes bytes) awake = awake
step-IsAwake k p (watches_master input t) awake =
    either_state (not input || can_read_master p) _ _ (λ h. awake) (λ h. awake)
step-IsAwake k p (watches_slave input t) awake =
    either_state (not input || can_read_slave p) _ _ (λ h. awake)
      (λ h ready. absurd (cc (not_watched input (can_read_slave p) h, ready)))
step-IsAwake k p (unwatches_master t) awake = awake
step-IsAwake k p (unwatches_slave t) awake =
    λ ready. let (b, w) = awake ready in (b, ap (without t) w)

pub create-IsAwake : (k : Kmalloc) → IsAwake (create_pty k)
unfolding IsAwake create_pty
create-IsAwake k ready = (refl, refl)

-- Over every sequence of calls that keeps the mode, no thread is blocked in a read of the slave, or
-- watches it, while it can be read.
pub run-IsAwake : (k : Kmalloc) (p : Pty) (ops : List Op) → IsAwake p → IsAwake (run k p ops)
unfolding run
run-IsAwake k p [] awake = awake
run-IsAwake k p (op ∷ ops) awake = run-IsAwake k (step k p op) ops (step-IsAwake k p op awake)

-- Where the terminal leaves canonical mode with an unfinished line typed, the slave can be read, but
-- the threads that wait for it are not woken.
pub set_mode_sleeps :
    (echo : Bool) (p : Pty)
    → p.canonical ≡ true
    → p.slave.lines ≡ 0
    → 0 < p.slave.pos
    → (can_read_slave p ≡ false)
      × (can_read_slave (set_mode false echo p) ≡ true)
      × ((set_mode false echo p).on_slave ≡ p.on_slave)
      × ((set_mode false echo p).woken ≡ p.woken)
unfolding can_read_slave set_mode
set_mode_sleeps echo p c l h = (ground (arith, c, l), ground arith, refl, refl)

-- A write of a lone backspace to the master, while the line is empty in canonical mode, does not
-- end: it is repeated for ever, since no repetition makes progress.
pub write_backspace_loops :
    (k : Kmalloc) (fuel : ℕ) (p : Pty)
    → p.slave.pos ≡ 0
    → 0 < p.slave.size
    → 0 < p.slave.max_size
    → p.slave.ignore_backspace ≡ false
    → write_master_all k fuel (backspace ∷ []) p ≡ none
unfolding write_master_all master_write
write_backspace_loops k zero p empty size limit heeds = refl
write_backspace_loops k (suc fuel) p empty size limit heeds =
    let w : write k p.slave (backspace ∷ []) ≡ (0, p.slave) =
      write-backspace k p.slave empty size limit heeds in
    let q : Pty = (master_write k (backspace ∷ []) p).1 in
    let ret : (master_write k (backspace ∷ []) p).0 ≡ 0 = ap (λ x. x.0) w in
    let same : q.slave ≡ p.slave = ap (λ x. x.1) w in
    let again =
      write_backspace_loops k fuel q (ap (λ s. s.pos) same ∙ empty)
        (subst (λ s. 0 < s.size) (sym same) size) (subst (λ s. 0 < s.max_size) (sym same) limit)
        (ap (λ s. s.ignore_backspace) same ∙ heeds) in
    ap (λ n. if leb 1 n then some q else write_master_all k fuel (drop n (backspace ∷ [])) q) ret
    ∙ again
