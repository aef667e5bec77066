-- ===== src/Path/Nodes/Rename.antt =====
-- `Rename` of Kernel/src/FileSystem/Fs.cpp over the methods of the nodes, which are a parameter.
pub mod Errors
pub mod Copies
use lori_os.Prelude.{
  ℕ, zero, suc, List, [], ◌∷◌, Bool, true, false, not, ◌&&◌, Option, none, some, ◌==◌,
  if◌then◌else◌, take,
}
use mathlib.Core.Logic.{◌⊎◌, inl, inr}
use lori_os.Path.{base_name}
use lori_os.Path.Nodes.{Nodes, Walk, found, missing, overflow, resolve_path, resolve_parent}

pub data Errno : Type 0 where
  enoent enotdir eisdir enosys : Errno
  other : ℕ → Errno

-- The methods of the nodes over the state of all file systems. An operation returns its error, or none
-- for 0; `read` returns the bytes or an error.
pub record Methods (σ : Type 0) : Type 0 where
  pub view : σ → Nodes
  pub volume : σ → ℕ → ℕ
  pub size : σ → ℕ → ℕ
  pub link : σ → ℕ → ℕ → List ℕ → Option Errno × σ
  pub unlink : σ → ℕ → List ℕ → Option Errno × σ
  pub create : σ → ℕ → List ℕ → Option Errno × σ
  pub read : σ → ℕ → ℕ → Errno ⊎ List ℕ
  pub write : σ → ℕ → List ℕ → Option Errno × σ

-- What a call comes to: it returns, or it fails an assertion or overflows the stack.
pub data Result (σ : Type 0) : Type 0 where
  fault : Result σ
  returns : Option Errno → σ → Result σ

abbrev pub name_max : ℕ
name_max = 255

module _ {σ : Type 0} where
  -- `if (auto e = ...) return e;`
  unfoldable pub or_return : Option Errno × σ → (σ → Result σ) → Result σ
  or_return (none, s) next = next s
  or_return (some e, s) next = returns (some e) s

  -- `if (...) return -e;`
  unfoldable pub refuse : Bool → Errno → σ → Result σ → Result σ
  refuse true e s next = returns (some e) s
  refuse false e s next = next

  unfoldable pub choose : Bool → Result σ → Result σ → Result σ
  choose true x y = x
  choose false x y = y

  -- `if (!node) return -ENOENT;`
  unfoldable pub or_enoent : Walk → σ → (ℕ → Result σ) → Result σ
  or_enoent (found n) s next = next n
  or_enoent missing s next = returns (some enoent) s
  or_enoent overflow s next = fault

  -- `assert(node);`
  unfoldable pub asserted : Walk → (ℕ → Result σ) → Result σ
  asserted (found n) next = next n
  asserted missing next = fault
  asserted overflow next = fault

  -- a node that may be missing
  unfoldable pub perhaps : Walk → (Option ℕ → Result σ) → Result σ
  perhaps (found n) next = next (some n)
  perhaps missing next = next none
  perhaps overflow next = fault

abbrev pub dirent_name : List ℕ → List ℕ
dirent_name path = take name_max (base_name path)

module _ {σ : Type 0} (m : Methods σ) (depth : ℕ) where
  unfoldable pub resolve : σ → List ℕ → ℕ → Walk
  resolve s path dir = resolve_path (m.view s) depth path (some dir) true

  -- Within a volume the file is linked under its new name and unlinked under its old one.
  unfoldable pub move : σ → ℕ → ℕ → Option ℕ → ℕ → List ℕ → List ℕ → Result σ
  move s oldnode parent newnode olddir oldpath newpath =
      asserted (resolve_parent (m.view s) depth oldpath olddir) (λ old_parent.
        or_return
          (elim newnode [ none ↦ (none, s) | some n ↦ m.unlink s parent (dirent_name newpath) ])
          (λ s1. or_return (m.link s1 parent oldnode (dirent_name newpath)) (λ s2.
            or_return (m.unlink s2 old_parent (dirent_name oldpath)) (λ s3. returns none s3))))

  -- What was read is written, then the old name is unlinked.
  unfoldable pub write_back : σ → ℕ → ℕ → List ℕ → Errno ⊎ List ℕ → Result σ
  write_back s oldnode old_parent oldpath (inl e) = returns (some e) s
  write_back s oldnode old_parent oldpath (inr buffer) =
      or_return (m.write s oldnode buffer)
        (λ s2. or_return (m.unlink s2 old_parent (dirent_name oldpath)) (λ s3. returns none s3))

  -- Between volumes a file is created and the old one read.
  unfoldable pub copy : σ → ℕ → ℕ → ℕ → List ℕ → ℕ → List ℕ → Result σ
  copy s oldnode parent olddir oldpath newdir newpath =
      asserted (resolve_parent (m.view s) depth oldpath olddir) (λ old_parent.
        or_return (m.create s parent (dirent_name newpath)) (λ s1.
          or_enoent (resolve s1 newpath newdir) s1 (λ newnode.
            write_back s1 oldnode old_parent oldpath (m.read s1 oldnode (m.size s1 oldnode)))))

  unfoldable pub is_dir_at : σ → Option ℕ → Bool
  is_dir_at s none = false
  is_dir_at s (some n) = (m.view s).is_directory n

  -- Behind the walks: a file is moved, if it stays in its volume, or copied.
  unfoldable pub checked : σ → ℕ → ℕ → Option ℕ → ℕ → List ℕ → ℕ → List ℕ → Result σ
  checked s oldnode parent newnode olddir oldpath newdir newpath =
      refuse (is_dir_at s newnode) eisdir s (
        refuse ((m.view s).is_symlink oldnode) enosys s (
          choose (m.volume s oldnode == m.volume s parent)
            (move s oldnode parent newnode olddir oldpath newpath)
            (copy s oldnode parent olddir oldpath newdir newpath)))

  -- Behind the checks of the old path.
  unfoldable pub rename_to : σ → ℕ → ℕ → List ℕ → ℕ → List ℕ → Result σ
  rename_to s oldnode olddir oldpath newdir newpath =
      or_enoent (resolve_parent (m.view s) depth newpath newdir) s (λ parent.
        refuse (not ((m.view s).is_directory parent)) enotdir s (
          perhaps (resolve s newpath newdir)
            (λ newnode. checked s oldnode parent newnode olddir oldpath newdir newpath)))

  unfoldable pub rename : σ → ℕ → List ℕ → ℕ → List ℕ → Result σ
  rename s olddir oldpath newdir newpath = refuse (not ((m.view s).is_directory olddir)) enotdir s (
      refuse (not ((m.view s).is_directory newdir)) enotdir s (
        or_enoent (resolve s oldpath olddir) s (λ oldnode.
          refuse ((m.view s).is_directory oldnode) enosys s
            (rename_to s oldnode olddir oldpath newdir newpath))))
