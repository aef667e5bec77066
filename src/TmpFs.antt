-- ===== src/TmpFs.antt =====
-- Kernel/src/FileSystem/Tmp.cpp: the files and directories of tmpfs.
-- A node holds the fields of both arms of the union: those of the other kind are not used.
pub mod File
pub mod Writes
pub mod Access
pub mod Namespace
mod Tests
use lori_os.Prelude.{
  ℕ, ◌+◌, ◌-◌, ◌*◌, ◌/◌, ◌^◌, List, [], Bool, Option, none, some, leb, ltb, ◌==◌, ◌||◌,
  if◌then◌else◌, length, copy_to, slice, add64, word32, ℤ, pos, negsuc,
}
use mathlib.Core.Option
use lori_os.Kmalloc.{Kmalloc}

pub record Entry : Type 0 where
  pub name : List ℕ
  pub target : ℕ

pub record Node : Type 0 where
  pub is_dir : Bool
  pub size : ℕ
  pub nlink : ℕ
  pub handles : ℕ
  pub buffer : Option (List ℕ)
  pub buffer_size : ℕ
  pub children : List Entry

-- The error codes that are returned, and a count or 0.
pub data Status : Type 0 where
  ok : ℕ → Status
  eisdir enotdir einval eexist enoent eperm exdev : Status

-- `memcpy` out of and into a buffer: an access past its end, or to the null pointer, is `none`.
pub load : List ℕ → ℕ → ℕ → Option (List ℕ)
load b off n = if leb (off + n) (length b) then some (slice off n b) else none

pub store : ℕ → List ℕ → List ℕ → Option (List ℕ)
store off src b = if leb (off + length src) (length b) then some (copy_to off src b) else none

-- the bytes of a buffer; the null pointer has none
abbrev pub bytes_of : Option (List ℕ) → List ℕ
bytes_of none = []
bytes_of (some b) = b

abbrev pub is_null : Option (List ℕ) → Bool
is_null none = Bool.true
is_null (some b) = Bool.false

-- the size rounded up to chunks of 1024 bytes, in an `unsigned`
abbrev pub chunked : ℕ → ℕ
chunked size = word32 (add64 size 1023 / 1024 * 1024)

-- what `memoryUsage` is when a buffer is replaced: the old one counts where there is one
abbrev pub charged : Node → ℕ → ℕ → ℕ
charged node n usage =
    word32 (usage + n + 2 ^ 64 - (if is_null node.buffer then 0 else node.buffer_size))

module _ (k : Kmalloc) where
  -- a new buffer of `n` bytes that starts with the first `kept` of the old one
  pub copy_block : ℕ → ℕ → List ℕ → Option (List ℕ)
  unfolding load store
  copy_block n kept b = Option.bind (load b 0 kept) (λ c. store 0 c (k.block n))

  pub resized : ℕ → ℕ → Option (List ℕ) → Option (List ℕ)
  unfolding copy_block
  resized n kept none = some (k.block n)
  resized n kept (some b) = copy_block n kept b

  -- `ReallocateNode`: the node and `memoryUsage`
  pub reallocate : Node → ℕ → ℕ → Option (Node × ℕ)
  unfolding resized
  reallocate node old usage =
      let n = chunked node.size in
      let replace = λ (kept : ℕ).
        Option.map (λ b. (record node { buffer = some b; buffer_size = n }, charged node n usage))
          (resized n kept node.buffer) in
      if n == 0
      then some (
        record node { buffer = none; buffer_size = 0 },
        word32 (usage + 2 ^ 64 - node.buffer_size),
      )
      else if ltb node.buffer_size n
      then replace old
      else if ltb n node.buffer_size
      then replace node.size
      else some (node, usage)

  -- the node before the bytes are copied in
  pub extend : Node → ℕ → ℕ → Option (Node × ℕ)
  unfolding reallocate
  extend node end usage =
      if is_null node.buffer || ltb node.size end
      then (if leb node.buffer_size end
          then reallocate (record node { size = end }) node.size usage
          else some (record node { size = end }, usage))
      else some (node, usage)

  -- `Write`
  pub write : Node → ℕ → List ℕ → ℕ → Option (Status × Node × ℕ)
  unfolding extend
  write node off bytes usage =
      if node.is_dir
      then some (eisdir, node, usage)
      else if length bytes == 0
      then some (ok 0, node, usage)
      else Option.bind (extend node (add64 off (length bytes)) usage) (λ (m, u).
        Option.map (λ b. (ok (length bytes), record m { buffer = some b }, u))
          (store off bytes (bytes_of m.buffer)))

  -- `Truncate`
  pub truncate : Node → ℤ → ℕ → Option (Status × Node × ℕ)
  unfolding reallocate
  truncate node (negsuc n) usage = some (einval, node, usage)
  truncate node (pos len) usage =
      if node.is_dir
      then some (eisdir, node, usage)
      else Option.map (λ (m, u). (ok 0, m, u))
          (reallocate (record node { size = len }) node.size usage)

-- `Read`: what is returned, and the bytes copied out
pub read : Node → ℕ → ℕ → Option (Status × List ℕ)
unfolding load
read node off want =
    let n = if ltb node.size (add64 off want) then node.size - off else want in
    if node.is_dir
    then some (eisdir, [])
    else if ltb node.size off
    then some (ok 0, [])
    else Option.map (λ out. (ok n, out)) (load (bytes_of node.buffer) off n)
