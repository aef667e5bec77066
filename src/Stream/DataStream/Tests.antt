-- ===== src/Stream/DataStream/Tests.antt =====
-- Tests of `DataStream`.
use lori_os.Prelude.{◌≡◌, refl, List, [], ◌∷◌, some, arith}
use mathlib.Core.Option
use lori_os.Kmalloc.{zeroed}
use lori_os.Stream.DataStream.{
  DataStream, Op, puts, gets, looks, grow, make_room, write, read, peek, step, run,
}
use lori_os.Stream.DataStream.Fifo.{IsValid, contents, queue_run, write-append, run_refines}

-- Two bytes held in a buffer of four.
abbrev two_bytes : DataStream
two_bytes = record { size = 4; pos = 2; buffer = 7 ∷ 8 ∷ 0 ∷ 0 ∷ [] }

abbrev script : List Op
script = looks 1 ∷ puts (1 ∷ 2 ∷ 3 ∷ []) ∷ gets 4 ∷ gets 4 ∷ []

-- A write that fills the buffer to its size doubles it, and doubles it again where needed.
grow_test : (grow 20 4 4 ≡ some 8) × (grow 20 17 4 ≡ some 32)
unfolding grow
grow_test = (refl, refl)

run_test :
    run zeroed two_bytes script
    ≡ some (
        record { ret = 1; out = 7 ∷ [] }
        ∷ record { ret = 3; out = [] }
        ∷ record { ret = 4; out = 7 ∷ 8 ∷ 1 ∷ 2 ∷ [] }
        ∷ record { ret = 1; out = 3 ∷ [] }
        ∷ [])
unfolding run step write make_room grow read peek Option.bind
run_test = refl

two_bytes-IsValid : IsValid two_bytes
two_bytes-IsValid = omega arith

write-append_test :
    (t : DataStream) × (write zeroed two_bytes (1 ∷ 2 ∷ 3 ∷ []) ≡ some (3, t))
    × (contents t ≡ 7 ∷ 8 ∷ 1 ∷ 2 ∷ 3 ∷ [])
    × IsValid t
write-append_test = write-append zeroed two_bytes (1 ∷ 2 ∷ 3 ∷ []) two_bytes-IsValid (omega arith)

run_refines_example : run zeroed two_bytes script ≡ some (queue_run (7 ∷ 8 ∷ []) script)
run_refines_example = run_refines zeroed two_bytes script two_bytes-IsValid (omega arith)
