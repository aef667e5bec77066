-- ===== src/RingBuffer/Tests.antt =====
-- Tests of the ring buffer.
use lori_os.Prelude.{true, ◌+◌, ◌-◌, ◌^◌, ◌≡◌, refl, [], ◌∷◌, ◌++◌, some, length, take, drop, arith}
use lori_os.Kmalloc.{zeroed}
use lori_os.RingBuffer.{
  amounts, Ring, is_empty, create, enqueue_one, enqueue, dequeue, dequeue_one, drain, drain_count,
}
use lori_os.RingBuffer.Contents.{contents, IsValid}
use lori_os.RingBuffer.Pointers.{Fits}
use lori_os.RingBuffer.Dequeue.{dequeue-front, drain_count_skips}
use lori_os.RingBuffer.Enqueue.{enqueue_one-append, enqueue-append}
use lori_os.RingBuffer.Resize.{enqueue_one_lost, enqueue_lost}

-- Three elements that wrap around in a block of four at address 1000.
abbrev wrapped : Ring
wrapped = record { base = 1000; cells = 8 ∷ 9 ∷ 0 ∷ 7 ∷ []; room = 4; enq = 2; deq = 3; count = 3 }

wrapped-IsValid : IsValid wrapped
wrapped-IsValid = record {
  sized = refl;
  enq_inside = omega arith;
  deq_inside = omega arith;
  small = omega arith;
}

abbrev two_free : Ring
two_free = record { base = 1000; cells = 9 ∷ 0 ∷ 0 ∷ 8 ∷ []; room = 4; enq = 1; deq = 3; count = 2 }

two_free-IsValid : IsValid two_free
two_free-IsValid = record {
  sized = refl;
  enq_inside = omega arith;
  deq_inside = omega arith;
  small = omega arith;
}

-- A block of eight in which three elements lie before the end and five would be at the start.
abbrev long_tail : Ring
long_tail = record {
  base = 0;
  cells = 4 ∷ 5 ∷ 6 ∷ 0 ∷ 0 ∷ 1 ∷ 2 ∷ 3 ∷ [];
  room = 8;
  enq = 3;
  deq = 6;
  count = 5;
}

long_tail-IsValid : IsValid long_tail
long_tail-IsValid = record {
  sized = refl;
  enq_inside = omega arith;
  deq_inside = omega arith;
  small = omega arith;
}

wrapped-Fits : Fits 8 2 wrapped
wrapped-Fits = record { element = omega arith; block = omega arith; reach = omega arith }

long_tail-Fits : Fits 8 3 long_tail
long_tail-Fits = record { element = omega arith; block = omega arith; reach = omega arith }

-- Where the pointer sum wraps around, no bytes are copied and the pointer stays.
dequeue_far_test : dequeue 8 (2 ^ 61) wrapped ≡ ([], wrapped)
unfolding dequeue amounts
dequeue_far_test = refl

contents_test : contents wrapped ≡ 7 ∷ 8 ∷ 9 ∷ []
unfolding contents
contents_test = refl

create_test : contents (create zeroed 1 0 64 5) ≡ []
unfolding create contents
create_test = refl

drain_test : contents (drain wrapped) ≡ []
unfolding drain contents
drain_test = refl

dequeue_one_test : dequeue_one wrapped ≡ some (some 7, record wrapped { deq = 0 })
unfolding dequeue_one
dequeue_one_test = refl

dequeue-front_example :
    ((dequeue 8 2 wrapped).0 ≡ take 2 (contents wrapped))
    × (contents (dequeue 8 2 wrapped).1 ≡ drop 2 (contents wrapped))
    × IsValid (dequeue 8 2 wrapped).1
dequeue-front_example = dequeue-front 8 2 wrapped wrapped-IsValid wrapped-Fits

enqueue_one-append_example :
    (contents (enqueue_one zeroed 8 2000 5 wrapped) ≡ contents wrapped ++ (5 ∷ []))
    × IsValid (enqueue_one zeroed 8 2000 5 wrapped)
enqueue_one-append_example =
    enqueue_one-append zeroed 8 2000 5 wrapped (omega arith) wrapped-IsValid (omega arith)
      (omega arith)

enqueue_one_lost_example : contents (enqueue_one zeroed 8 100 5 wrapped) ≡ []
enqueue_one_lost_example =
    enqueue_one_lost zeroed 8 100 5 wrapped wrapped-IsValid (omega arith) (omega arith)
      (omega arith)

enqueue-append_test :
    (contents (enqueue zeroed 8 2000 (5 ∷ []) two_free) ≡ contents two_free ++ (5 ∷ []))
    × IsValid (enqueue zeroed 8 2000 (5 ∷ []) two_free)
enqueue-append_test = enqueue-append zeroed 8 2000 (5 ∷ []) two_free two_free-IsValid (omega arith)

enqueue_lost_test : contents (enqueue zeroed 8 2000 (5 ∷ 6 ∷ []) two_free) ≡ []
enqueue_lost_test =
    enqueue_lost zeroed 8 2000 (5 ∷ 6 ∷ []) two_free two_free-IsValid (omega arith) refl

drain_count_skips_test :
    length (contents (drain_count 8 3 long_tail)) + 3 + (8 - 6) ≡ length (contents long_tail)
drain_count_skips_test =
    drain_count_skips 8 3 long_tail long_tail-IsValid long_tail-Fits (omega arith) (omega arith)
      (omega arith)

empty_test : is_empty (record wrapped { deq = 2 }) ≡ true
unfolding is_empty
empty_test = refl
