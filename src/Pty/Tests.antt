-- ===== src/Pty/Tests.antt =====
-- Tests of the pseudo terminal.
use lori_os.Prelude.{◌≡◌, refl, List, [], ◌∷◌, true, false, none, arith}
use lori_os.Kmalloc.{zeroed}
use lori_os.CharacterBuffer.{CharacterBuffer, backspace}
use lori_os.Pty.{
  nobody, without, unwatch_slave, Pty, blocks, can_read_master, can_read_slave, wake, slave_read,
  watch_master, set_mode, write_master_all,
}
use lori_os.Pty.Wakeups.{
  IsAwake, Op, slave_reads, master_writes, slave_writes, watches_slave, run, run-IsAwake,
  set_mode_sleeps, write_backspace_loops,
}

abbrev small_buffer : CharacterBuffer
small_buffer = record {
  size = 4;
  max_size = 16;
  pos = 0;
  lines = 0;
  buffer = 0 ∷ 0 ∷ 0 ∷ 0 ∷ [];
  ignore_backspace = false;
}

abbrev terminal : Pty
terminal = record {
  master = record small_buffer { ignore_backspace = true };
  slave = small_buffer;
  canonical = true;
  echo = true;
  on_master = nobody;
  on_slave = nobody;
  woken = [];
}

-- An unfinished line, and a thread that waits for its end.
abbrev unfinished : Pty
unfinished = record terminal {
  slave = record small_buffer { pos = 1; buffer = 97 ∷ 0 ∷ 0 ∷ 0 ∷ [] };
  on_slave = record { blocked = 5 ∷ []; watching = [] };
}

abbrev calls : List Op
calls =
    slave_reads 5 4
    ∷ watches_slave true 6
    ∷ master_writes (97 ∷ 10 ∷ [])
    ∷ slave_writes (98 ∷ [])
    ∷ []

blocks_test :
    slave_read 5 4 terminal
    ≡ (blocks, record terminal { on_slave = record { blocked = 5 ∷ []; watching = [] } })
unfolding slave_read can_read_slave
blocks_test = refl

watch_test :
    watch_master true 6 terminal
    ≡ record terminal { on_master = record { blocked = []; watching = 6 ∷ [] } }
unfolding watch_master can_read_master
watch_test = refl

wake_test : wake (1 ∷ 2 ∷ []) (7 ∷ []) ≡ 7 ∷ 1 ∷ 2 ∷ []
unfolding wake
wake_test = refl

unwatch_test : unwatch_slave 6 terminal ≡ terminal
unfolding unwatch_slave without
unwatch_test = refl

terminal-IsAwake : IsAwake terminal
unfolding IsAwake can_read_slave
terminal-IsAwake ready = (refl, refl)

run-IsAwake_example : IsAwake (run zeroed terminal calls)
run-IsAwake_example = run-IsAwake zeroed terminal calls terminal-IsAwake

set_mode_sleeps_test :
    (can_read_slave unfinished ≡ false)
    × (can_read_slave (set_mode false true unfinished) ≡ true)
    × ((set_mode false true unfinished).on_slave ≡ unfinished.on_slave)
    × ((set_mode false true unfinished).woken ≡ unfinished.woken)
set_mode_sleeps_test = set_mode_sleeps true unfinished refl refl (omega arith)

write_backspace_loops_example : write_master_all zeroed 9 (backspace ∷ []) terminal ≡ none
write_backspace_loops_example =
    write_backspace_loops zeroed 9 terminal refl (omega arith) (omega arith) refl
