-- ===== src/Stream/DataStream/Fifo.antt =====
-- A `DataStream` is an unbounded queue of bytes.
use lori_os.Prelude.{
  ℕ, zero, suc, ◌+◌, ◌-◌, ◌^◌, ◌≤◌, ◌<◌, ◌≡◌, refl, List, [], ◌∷◌, some, ◌++◌, arith, length, take,
  drop, slice, copy_to, leb, add64, sub64, mul64, Bool-cases, inl, inr, take-copy_to, shift_down,
  list_ext, elements, ◌∙◌, length-copy_to, length-append, ap, length-take, min, ◌==◌, leb→le,
}
use mathlib.Core.Option
use lori_os.Kmalloc.{Kmalloc}
use lori_os.Stream.DataStream.{
  Op, puts, gets, looks, step, run, Reply, peek, create, DataStream, grow, make_room, write, read,
  available,
}

-- The buffer has its size, the size is positive, and the bytes lie inside it, below half the
-- address space.
pub record IsValid (s : DataStream) : Type 0 where
  pub sized : length s.buffer ≡ s.size
  pub nonempty : 0 < s.size
  pub inside : s.pos ≤ s.size
  pub small : s.pos < 2 ^ 62

abbrev pub contents : DataStream → List ℕ
contents s = take s.pos s.buffer

-- The loop ends: each round adds at least one to the size.
grow_lem :
    (fuel need size : ℕ)
    → need + 1 - size < fuel
    → 0 < size
    → need < 2 ^ 63
    → (bigger : ℕ) × (grow fuel need size ≡ some bigger) × (need < bigger) × (size ≤ bigger)
unfolding grow
grow_lem zero need size f p h = absurd (omega arith)
grow_lem (suc fuel) need size f p h = elim (Bool-cases (leb size need)) [
  | inl more ↦
      let le : size ≤ need = leb→le size need more in
      let (b, e, l, m) = grow_lem fuel need (mul64 size 2) (omega arith) (omega arith) h in
      (b, rw more e, l, omega arith)
  | inr done ↦ (size, rw done, ground arith, omega arith)
]

take-slice : (n : ℕ) (xs : List ℕ) → take n (slice 0 n xs) ≡ take n xs
take-slice n xs = list_ext _ _ λ i. simp elements (ground arith)

-- What `make_room` returns: the same bytes, in a buffer with room for `len` more.
record Roomy (s : DataStream) (len : ℕ) (t : DataStream) : Type 0 where
  sized : length t.buffer ≡ t.size
  room : s.pos + len < t.size
  same_pos : t.pos ≡ s.pos
  same_bytes : take s.pos t.buffer ≡ take s.pos s.buffer

module _ (k : Kmalloc) where
  make_room-Roomy :
      (s : DataStream) (len : ℕ)
      → IsValid s
      → s.pos + len < 2 ^ 62
      → (t : DataStream) × (make_room k s len ≡ some t) × Roomy s len t
  unfolding make_room
  make_room-Roomy s len v h = elim (Bool-cases (leb s.size (add64 s.pos len))) [
    | inl full ↦
        let need : ℕ = add64 s.pos len in
        let (b, e, l, m) = grow_lem (need + 2) need s.size (omega arith) v.nonempty (omega arith) in
        (
          record s { size = b; buffer = copy_to 0 (slice 0 s.pos s.buffer) (k.block b) },
          rw (full, e),
          record {
            sized = length-copy_to 0 (slice 0 s.pos s.buffer) (k.block b) ∙ k.length-block b;
            room = omega arith;
            same_pos = refl;
            same_bytes = list_ext _ _ λ i.
                simp elements
                  (ground (arith, k.length-block b, length-take s.pos s.buffer, v.sized, v.inside));
          },
        )
    | inr fits ↦ (
      s,
      rw fits,
      record { sized = v.sized; room = ground arith; same_pos = refl; same_bytes = refl },
    )
  ]

  -- A write appends its bytes, whatever room the buffer had, and returns their number.
  pub write-append :
      (s : DataStream) (bytes : List ℕ)
      → IsValid s
      → s.pos + length bytes < 2 ^ 62
      → (t : DataStream) × (write k s bytes ≡ some (length bytes, t))
        × (contents t ≡ contents s ++ bytes)
        × IsValid t
  unfolding write
  write-append s bytes v h =
      let (t, e, r) = make_room-Roomy s (length bytes) v h in
      let pos' : add64 t.pos (length bytes) ≡ s.pos + length bytes = omega (arith, r.same_pos) in
      (
        record t { pos = add64 t.pos (length bytes); buffer = copy_to t.pos bytes t.buffer },
        rw e,
        rw (
          pos',
          r.same_pos,
          take-copy_to s.pos bytes t.buffer (omega (arith, r.sized, r.room)),
          r.same_bytes,
        ),
        record {
          sized = length-copy_to t.pos bytes t.buffer ∙ r.sized;
          nonempty = omega (arith, r.room);
          inside = omega (arith, r.room, pos');
          small = omega (arith, pos');
        },
      )

sub64-available :
    (s : DataStream) (want : ℕ)
    → s.pos < 2 ^ 62
    → sub64 s.pos (available s want) ≡ s.pos - available s want
sub64-available s want h = ground arith

drop-available :
    (s : DataStream) (want : ℕ) → drop (available s want) (contents s) ≡ drop want (contents s)
drop-available s want = list_ext _ _ λ i. simp elements (ground arith)

-- A read hands out the oldest bytes, as many as are asked for and held, and removes just those.
pub read-take :
    (s : DataStream) (want : ℕ)
    → IsValid s
    → let (r, t) = read s want in
      (r.out ≡ take want (contents s))
      × (r.ret ≡ min want (length (contents s)))
      × (contents t ≡ drop want (contents s))
      × IsValid t
unfolding read
read-take s want v = elim (Bool-cases (available s want == 0)) [
  | inl none_held ↦ rw none_held (
    list_ext _ _ λ i. simp elements (ground (arith, none_held)),
    ground (arith, none_held, length-take s.pos s.buffer, v.sized, v.inside),
    list_ext _ _ λ i. simp elements (ground (arith, none_held)),
    v,
  )
  | inr some_held ↦ rw some_held (
    list_ext _ _ λ i. simp elements (ground (arith, some_held)),
    ground (arith, length-take s.pos s.buffer, v.sized, v.inside),
    rw (sub64-available s want v.small) (
        shift_down (available s want) s.pos s.pos s.buffer (omega arith)
          (omega (arith, v.sized, v.inside))
        ∙ drop-available s want),
    record {
      sized = length-copy_to 0 _ s.buffer ∙ v.sized;
      nonempty = v.nonempty;
      inside = ground (arith, v.inside);
      small = ground (arith, v.small);
    },
  )
]

-- `Peek` hands out what a read would, and there is no change of the stream to state.
pub peek-read : (s : DataStream) (want : ℕ) → peek s want ≡ (read s want).0
unfolding peek read
peek-read s want = ground arith

pub create-IsValid :
    (k : Kmalloc) (n : ℕ) → 0 < n → IsValid (create k n) × (contents (create k n) ≡ [])
unfolding create
create-IsValid k n h = (
  record { sized = k.length-block n; nonempty = h; inside = omega arith; small = omega arith },
  refl,
)

-- The specification: a queue of bytes, oldest first.
pub queue_step : List ℕ → Op → Reply × List ℕ
queue_step q (puts bytes) = (record { ret = length bytes; out = [] }, q ++ bytes)
queue_step q (gets n) = (record { ret = min n (length q); out = take n q }, drop n q)
queue_step q (looks n) = (record { ret = min n (length q); out = take n q }, q)

pub queue_run : List ℕ → List Op → List Reply
queue_run q [] = []
queue_run q (op ∷ ops) = let (r, q') = queue_step q op in r ∷ queue_run q' ops

-- the bytes that a list of calls puts in
abbrev pub total_put : List Op → ℕ
total_put [] = 0
total_put (puts bytes ∷ ops) = length bytes + total_put ops
total_put (_ ∷ ops) = total_put ops

pub length-contents : (s : DataStream) → IsValid s → length (contents s) ≡ s.pos
length-contents s v = omega (arith, length-take s.pos s.buffer, v.sized, v.inside)

read-pos-le : (s : DataStream) (n : ℕ) → IsValid s → (read s n).1.pos ≤ s.pos
unfolding read
read-pos-le s n v = ground (arith, v.small)

read-reply :
    (s : DataStream) (n : ℕ)
    → IsValid s
    → (read s n).0 ≡ record { ret = min n (length (contents s)); out = take n (contents s) }
read-reply s n v =
    let (out, ret, c, v') = read-take s n v in λ i. record { ret = ret i; out = out i }

-- No sequence of calls tells a stream from the queue of its contents, as long as less than 2 ^ 62
-- bytes are put in: every write finds room, and every call returns what the queue returns.
pub run_refines :
    (k : Kmalloc) (s : DataStream) (ops : List Op)
    → IsValid s
    → s.pos + total_put ops < 2 ^ 62
    → run k s ops ≡ some (queue_run (contents s) ops)
unfolding run step queue_run queue_step Option.bind
run_refines k s [] v h = refl
run_refines k s (puts bytes ∷ ops) v h =
    let (t, e, c, v') = write-append k s bytes v (omega (arith, h)) in
    let pos' : t.pos ≡ s.pos + length bytes = omega (
      arith,
      length-contents s v,
      length-contents t v',
      ap length c,
      length-append (contents s) bytes,
    ) in
    rw (e, run_refines k t ops v' (omega (arith, h)), c)
run_refines k s (gets n ∷ ops) v h =
    let (out, ret, c, v') = read-take s n v in
    rw
      (run_refines k (read s n).1 ops v' (omega (arith, read-pos-le s n v, h)), read-reply s n v, c)
run_refines k s (looks n ∷ ops) v h = rw (peek-read s n, run_refines k s ops v h, read-reply s n v)
