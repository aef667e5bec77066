-- ===== src/Path/Nodes/Rename/Copies.antt =====
-- `Rename` of Kernel/src/FileSystem/Fs.cpp between two volumes.
use lori_os.Prelude.{ℕ, ◌≡◌, ◌≢◌, List, Option, none, some}
use lori_os.Path.Nodes.{found}
use lori_os.Path.Nodes.Rename.{Errno, Methods, resolve, dirent_name}

module _ {σ : Type 0} (m : Methods σ) (depth : ℕ) where
  -- The new file `new` was created in the state `s1`; when the old name is removed from the state `s2`,
  -- the new file reads as it did when it was created.
  pub record Lost (s : σ) (old newdir : ℕ) (newpath : List ℕ) (s' : σ) : Type 0 where
    pub parent : ℕ
    pub old_parent : ℕ
    pub old_name : List ℕ
    pub new : ℕ
    pub s1 : σ
    pub s2 : σ
    pub created : m.create s parent (dirent_name newpath) ≡ (none, s1)
    pub is_new : resolve m depth s1 newpath newdir ≡ found new
    pub removed : m.unlink s2 old_parent old_name ≡ (none, s')
    pub still_empty : new ≢ old → (size : ℕ) → m.read s2 new size ≡ m.read s1 new size

  abbrev pub Lossy : σ → ℕ → ℕ → List ℕ → Option Errno → σ → Type 0
  Lossy s old newdir newpath none s' = Lost s old newdir newpath s'
  Lossy s old newdir newpath (some e) s' = Unit
