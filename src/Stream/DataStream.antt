-- ===== src/Stream/DataStream.antt =====
-- `DataStream` of Kernel/src/Streams.cpp: a growing byte buffer. A method returns what it copies
-- out, its result and the stream. The lists of waiting threads of the class are never added to, so
-- the loop that waits for them to empty does not run.
pub mod Fifo
mod Tests
use lori_os.Prelude.{
  ℕ, zero, suc, ◌+◌, List, [], ◌∷◌, Bool, Option, none, some, leb, ◌==◌, if◌then◌else◌, length,
  copy_to, slice, add64, sub64, mul64,
}
use mathlib.Core.Option
use lori_os.Kmalloc.{Kmalloc}

pub record DataStream : Type 0 where
  pub size : ℕ
  pub pos : ℕ
  pub buffer : List ℕ

pub record Reply : Type 0 where
  pub ret : ℕ
  pub out : List ℕ

-- `while (bufferPos + len >= bufferSize) bufferSize *= 2`, `none` when the fuel runs out.
pub grow : ℕ → ℕ → ℕ → Option ℕ
grow zero need size = none
grow (suc fuel) need size =
    let bigger = grow fuel need (mul64 size 2) in if leb size need then bigger else some size

-- the smaller of what is asked for and what is held: `if (len >= bufferPos) len = bufferPos`
abbrev pub available : DataStream → ℕ → ℕ
available s want = if leb s.pos want then s.pos else want

module _ (k : Kmalloc) where
  pub create : ℕ → DataStream
  create n = record { size = n; pos = 0; buffer = k.block n }

  -- the stream before the bytes are copied in: a full buffer is replaced by a larger one
  pub make_room : DataStream → ℕ → Option DataStream
  make_room s len =
      if leb s.size (add64 s.pos len)
      then Option.map
          (λ size. record s {
            size = size;
            buffer = copy_to 0 (slice 0 s.pos s.buffer) (k.block size);
          })
          (grow (add64 s.pos len + 2) (add64 s.pos len) s.size)
      else some s

  -- `Write` of the bytes at `data`
  pub write : DataStream → List ℕ → Option (ℕ × DataStream)
  unfolding make_room
  write s bytes =
      Option.map
        (λ t. (
          length bytes,
          record t { pos = add64 t.pos (length bytes); buffer = copy_to t.pos bytes t.buffer },
        ))
        (make_room s (length bytes))

pub read : DataStream → ℕ → Reply × DataStream
read s want =
    let len = available s want in
    if len == 0 then (record { ret = 0; out = [] }, s) else (
      record { ret = len; out = slice 0 len s.buffer },
      record s {
        pos = sub64 s.pos len;
        buffer = copy_to 0 (slice len (sub64 s.pos len) s.buffer) s.buffer;
      },
    )

pub peek : DataStream → ℕ → Reply
peek s want =
    let len = available s want in
    if len == 0
    then record { ret = 0; out = [] }
    else record { ret = len; out = slice 0 len s.buffer }

-- `Empty` returns `!bufferPos`.
pub is_empty : DataStream → Bool
is_empty s = s.pos == 0

-- A caller's sequence of calls, with what each returns.
pub data Op : Type 0 where
  puts : List ℕ → Op
  gets looks : ℕ → Op

pub step : Kmalloc → DataStream → Op → Option (Reply × DataStream)
step k s (puts bytes) =
    Option.map (λ (ret, t). (record { ret = ret; out = [] }, t)) (write k s bytes)
step k s (gets n) = some (read s n)
step k s (looks n) = some (peek s n, s)

pub run : Kmalloc → DataStream → List Op → Option (List Reply)
run k s [] = some []
run k s (op ∷ ops) = Option.bind (step k s op) (λ (r, t). Option.map (◌∷◌ r) (run k t ops))
