-- ===== src/CharacterBuffer.antt =====
-- Kernel/src/CharacterBuffer.cpp: the line buffer of a terminal. `lines` is an `int`, kept as its 32
-- bits; a character is its byte.
pub mod Cooked
pub mod Write
pub mod Read
pub mod Lines
mod Tests
use lori_os.Prelude.{
  ℕ, suc, ◌+◌, ◌-◌, List, [], ◌∷◌, Bool, false, not, ◌&&◌, ◌||◌, leb, ltb, ◌==◌, if◌then◌else◌,
  length, take, copy_to, slice, set, add64, sub64, add32, sub32,
}
use lori_os.Kmalloc.{Kmalloc}

pub record CharacterBuffer : Type 0 where
  pub size : ℕ
  pub max_size : ℕ
  pub pos : ℕ
  pub lines : ℕ
  pub buffer : List ℕ
  pub ignore_backspace : Bool

-- '\b', '\n' and '\0' end or edit a line.
abbrev pub backspace : ℕ
backspace = 8

abbrev pub is_line_end : ℕ → Bool
is_line_end c = (c == 10) || (c == 0)

abbrev pub erases : Bool → ℕ → Bool
erases ignore c = (c == backspace) && not ignore

module _ (k : Kmalloc) where
  pub create : CharacterBuffer
  create = record {
    size = 1024;
    max_size = 2097152;
    pos = 0;
    lines = 0;
    buffer = k.block 1024;
    ignore_backspace = false;
  }

  -- `Write` where `bufferPos + size > bufferSize`: a larger block with the old bytes in front.
  pub make_room : CharacterBuffer → ℕ → CharacterBuffer
  make_room s len =
      if ltb s.size (add64 s.pos len)
      then record s {
        size = add64 (add64 s.pos len) 128;
        buffer = copy_to 0 (slice 0 s.size s.buffer) (k.block (add64 (add64 s.pos len) 128));
      }
      else s

-- the body of the loop of `Write`, with `written`
pub write_char : CharacterBuffer → ℕ → ℕ → ℕ × CharacterBuffer
write_char s written c =
    if erases s.ignore_backspace c
    then (if ltb 0 s.pos then (written + 1, record s { pos = s.pos - 1 }) else (written, s))
    else (
      written + 1,
      record s {
        pos = add64 s.pos 1;
        buffer = set s.buffer s.pos c;
        lines = if is_line_end c then add32 s.lines 1 else s.lines;
      },
    )

pub write_loop : CharacterBuffer → ℕ → List ℕ → ℕ × CharacterBuffer
write_loop s written [] = (written, s)
write_loop s written (c ∷ bytes) = let (w, t) = write_char s written c in write_loop t w bytes

-- how many of `len` bytes `Write` takes
abbrev pub clipped : CharacterBuffer → ℕ → ℕ
clipped s len = if ltb s.max_size (add64 s.pos len) then sub64 s.max_size s.pos else len

pub write : Kmalloc → CharacterBuffer → List ℕ → ℕ × CharacterBuffer
unfolding make_room write_char write_loop
write k s bytes =
    let len = clipped s (length bytes) in
    if len == 0 then (0, s) else write_loop (make_room k s len) 0 (take len bytes)

-- What the loop of `Read` has done: the bytes handed out, the characters passed, the line count.
pub record Taken : Type 0 where
  pub out : List ℕ
  pub passed : ℕ
  pub lines : ℕ

abbrev pub hand_out : ℕ → Taken → Taken
hand_out c t = record t { out = c ∷ t.out; passed = suc t.passed }

abbrev pub pass_over : Taken → Taken
pass_over t = record t { passed = suc t.passed }

-- The loop over the characters not yet passed, with `room` for as many in the caller's buffer.
pub read_loop : ℕ → ℕ → List ℕ → Taken
read_loop room lines [] = record { out = []; passed = 0; lines = lines }
read_loop room lines (c ∷ rest) =
    let skipped = pass_over (read_loop room (sub32 lines 1) rest) in
    let ended = hand_out c (read_loop (room - 1) (sub32 lines 1) rest) in
    let plain = hand_out c (read_loop (room - 1) lines rest) in
    if room == 0
    then record { out = []; passed = 0; lines = lines }
    else if c == 0
    then skipped
    else if c == 10
    then ended
    else plain

-- The bytes copied out, of which `Read` returns the number, and the buffer: what was not passed is
-- moved to the front.
pub read : CharacterBuffer → ℕ → List ℕ × CharacterBuffer
unfolding read_loop
read s count =
    let t = read_loop count s.lines (take s.pos s.buffer) in
    if count == 0 then ([], s) else (
      t.out,
      record s {
        pos = sub64 s.pos t.passed;
        lines = t.lines;
        buffer = copy_to 0 (slice t.passed (sub64 s.size t.passed) s.buffer) s.buffer;
      },
    )

pub flush : CharacterBuffer → CharacterBuffer
flush s = record s { pos = 0; lines = 0 }
