-- ===== src/Path/Nodes/Loops.antt =====
-- Symbolic links that lead back to themselves, in `ResolvePath` and `FollowLink` of
-- Kernel/src/FileSystem/Fs.cpp.
use lori_os.Prelude.{
  ℕ, zero, suc, ◌≡◌, ◌≢◌, refl, ap, ◌∙◌, List, ◌∷◌, Bool, some, true, false, arith, if◌then◌else◌,
  ◌==◌,
}
use lori_os.Path.{split, slash}
use lori_os.Path.Nodes.Plain.{resolve_path_step}
use lori_os.Path.Nodes.{
  Nodes, Walk, overflow, on_found, follow_link, walk_step, walk, start, walk_from, resolve_path,
}

module _ (v : Nodes) (dir link : ℕ) (x : ℕ) (path name next : List ℕ) (names : List (List ℕ)) where
  step_overflow :
      (resolve : List ℕ → ℕ → Walk)
      → v.find_dir dir name ≡ some link
      → v.is_symlink link ≡ true
      → v.read_link link ≡ some (x ∷ path)
      → resolve (x ∷ path) dir ≡ overflow
      → walk_step v resolve dir name ≡ overflow
  unfolding walk_step on_found follow_link
  step_overflow resolve there is_link text ih = ground (arith)

  from_dir :
      (resolve : List ℕ → ℕ → Walk) (follow : Bool)
      → x ≢ slash
      → walk_step v resolve dir name ≡ overflow
      → walk_from v resolve follow (x ∷ path) (some dir) (name ∷ (next ∷ names)) ≡ overflow
  unfolding walk_from walk start on_found
  from_dir resolve follow rel e =
      let here : (if x == slash then v.root else dir) ≡ dir = ground arith in
      ap (λ d. on_found (walk_step v resolve d name) (λ n. walk v resolve follow n (next ∷ names)))
        here
      ∙ ap (λ w. on_found w (λ n. walk v resolve follow n (next ∷ names))) e

  -- A link in a directory that leads through itself, by a relative path, is followed without end: a walk
  -- through it overflows the stack, whatever its size. The limit on the number of links does not stop it.
  pub resolve_path_loops :
      (depth : ℕ) (follow : Bool)
      → x ≢ slash
      → split (x ∷ path) slash ≡ name ∷ (next ∷ names)
      → v.find_dir dir name ≡ some link
      → v.is_symlink link ≡ true
      → v.read_link link ≡ some (x ∷ path)
      → resolve_path v depth (x ∷ path) (some dir) follow ≡ overflow
  unfolding resolve_path
  resolve_path_loops zero follow rel parts there is_link text = refl
  resolve_path_loops (suc depth) follow rel parts there is_link text =
      let resolve : List ℕ → ℕ → Walk = λ s node. resolve_path v depth s (some node) false in
      resolve_path_step v depth x path (some dir) follow
      ∙ ap (walk_from v resolve follow (x ∷ path) (some dir)) parts
      ∙ from_dir resolve follow rel (
          step_overflow resolve there is_link text
            (resolve_path_loops depth false rel parts there is_link text))
