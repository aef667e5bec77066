-- ===== src/RingBuffer.antt =====
-- Kernel/include/RingBuffer.h: a queue in a block of memory that wraps around. Its pointers are the
-- address of the block and indices into it, since `Resize` compares addresses of two blocks.
-- Where a call may resize the buffer it takes the address of the new block, `kmalloc`'s result.
-- The two locks are held for the whole of a call.
pub mod Contents
pub mod Plans
pub mod Enqueue
pub mod Pointers
pub mod Dequeue
pub mod Resize
mod Tests
use lori_os.Prelude.{
  ℕ, ◌+◌, ◌-◌, ◌*◌, ◌%◌, ◌/◌, ◌^◌, List, [], ◌∷◌, ◌++◌, Bool, Option, none, some, ◌&&◌, leb, ltb,
  ◌==◌, if◌then◌else◌, length, get_elem?, set, take, drop, slice, copy_to, add64, mul64, add32,
  sub32, word32,
}
use lori_os.Kmalloc.{Kmalloc}

pub record Ring : Type 0 where
  pub base : ℕ
  pub cells : List ℕ
  pub room : ℕ
  pub enq : ℕ
  pub deq : ℕ
  pub count : ℕ

-- `Empty`
pub is_empty : Ring → Bool
is_empty r = r.deq == r.enq

-- The locals of `EnqueueUnlocked`: the ring to copy to, and how many elements go to its pointer.
pub record Plan : Type 0 where
  pub ring : Ring
  pub contiguous : ℕ

module _ (k : Kmalloc) (width : ℕ) where
  -- the constructor of a given size, with the member `size` as it was found
  pub create : ℕ → ℕ → ℕ → Ring
  create addr n found = record {
    base = addr;
    cells = k.block n;
    room = n;
    enq = 0;
    deq = 0;
    count = found;
  }

  -- `Resize`, to a block of `n` elements of `width` bytes at `addr`
  pub resize : ℕ → ℕ → Ring → Ring
  resize addr n r =
      let deq = n - (r.room - r.deq) in
      let moved = copy_to deq (drop r.deq r.cells) (k.block n) in
      if ltb (r.base + r.enq * width) (addr + deq * width)
      then record r {
        base = addr;
        cells = copy_to 0 (take r.enq r.cells) moved;
        room = n;
        deq = deq;
      }
      else record r { base = addr; cells = moved; room = n; enq = n - (r.room - r.enq); deq = deq }

  -- `Enqueue(const T&)`
  abbrev pub stored : ℕ → Ring → Ring
  stored x r = record r {
    cells = set r.cells r.enq x;
    enq = if leb r.room (r.enq + 1) then 0 else r.enq + 1;
  }

  pub enqueue_one : ℕ → ℕ → Ring → Ring
  unfolding resize
  enqueue_one addr x r =
      let s = stored x r in if s.enq == s.deq then resize addr (mul64 (add64 s.room 2) 2) s else s

  -- the size that `EnqueueUnlocked` grows to
  abbrev pub doubled : Ring → ℕ → ℕ
  doubled r n = add64 (mul64 r.room 2) n

  -- the part of `EnqueueUnlocked` before the elements go to the pointer
  pub plan : ℕ → List ℕ → Ring → Plan
  unfolding resize
  plan addr xs r =
      let n = length xs in
      let straight = r.room - r.enq in
      let s = if leb r.deq (n - straight) then resize addr (doubled r n) r else r in
      if ltb r.enq r.deq && ltb r.deq (r.enq + n)
      then record { ring = resize addr (doubled r n) r; contiguous = n }
      else if ltb r.room (r.enq + n)
      then record {
        ring = record s { cells = copy_to 0 (drop straight xs) s.cells };
        contiguous = straight;
      }
      else record { ring = r; contiguous = n }

  -- `EnqueueUnlocked` and `Enqueue(const T*, size_t)`
  pub enqueue : ℕ → List ℕ → Ring → Ring
  unfolding plan
  enqueue addr xs r =
      let p = plan addr xs r in
      let s = p.ring in
      record s {
        cells = copy_to s.enq (take p.contiguous xs) s.cells;
        enq = (s.enq + length xs) % s.room;
        count = add32 s.count (length xs);
      }

-- The pointer `buffer + i` to elements of `width` bytes, and the elements in `i * width` bytes: both
-- wrap around at 64 bits.
abbrev pub pointer : ℕ → ℕ → Ring → ℕ
pointer width i r = (r.base + i * width) % 2 ^ 64

abbrev pub wrapping : ℕ → ℕ → ℕ
wrapping width i = i * width % 2 ^ 64 / width

-- The locals of `Dequeue(T*, size_t)`: elements up to the end of the block, and from its start.
pub amounts : ℕ → ℕ → Ring → ℕ × ℕ
amounts width n r =
    let straight = r.room - r.deq in
    let over = n - straight in
    let past = pointer width (r.deq + n) r in
    if ltb (pointer width r.deq r) (pointer width r.enq r) && ltb (pointer width r.enq r) past
    then (r.enq - r.deq, 0)
    else if ltb (pointer width r.room r) past
    then (straight, if ltb (pointer width r.enq r) (pointer width over r) then r.enq else over)
    else (n, 0)

-- `Dequeue(T*, size_t)`: the elements copied out, and the ring
pub dequeue : ℕ → ℕ → Ring → List ℕ × Ring
unfolding amounts
dequeue width n r =
    if r.deq == r.enq
    then ([], r)
    else (let (contiguous, wrapped) = amounts width n r in
        let next = wrapping width (r.deq + contiguous) in
        let at_end = leb (pointer width r.room r) (pointer width (r.deq + contiguous) r) in
        let out = slice r.deq (wrapping width contiguous) r.cells in
        let rest = record r {
          deq = if at_end then wrapped else next;
          count = sub32 r.count (word32 (contiguous + wrapped));
        } in
        (out ++ (if at_end then take wrapped r.cells else []), rest))

-- `Dequeue(T&)`
pub dequeue_one : Ring → Option (Option ℕ × Ring)
dequeue_one r =
    if r.deq == r.enq
    then none
    else some (
      get_elem? r.cells r.deq,
      record r { deq = if leb r.room (r.deq + 1) then 0 else r.deq + 1 },
    )

-- `Drain()` and `Drain(size_t)`
pub drain : Ring → Ring
drain r = record r { enq = 0; deq = 0; count = 0 }

pub drain_count : ℕ → ℕ → Ring → Ring
drain_count width n r =
    let past = pointer width (r.deq + n) r in
    let all = record r { deq = r.enq; count = 0 } in
    if leb (pointer width r.deq r) (pointer width r.enq r) && ltb (pointer width r.enq r) past
    then all
    else if ltb (pointer width r.room r) past
    then (if ltb (pointer width r.enq r) (pointer width n r)
        then all
        else record r { deq = n; count = sub32 r.count (word32 n) })
    else record r { deq = wrapping width (r.deq + n); count = sub32 r.count (word32 n) }
