-- ===== src/Path/Nodes/Plain.antt =====
-- `ResolvePath` of Kernel/src/FileSystem/Fs.cpp where no node is a symbolic link, and what `ResolveParent`
-- and `BaseName` have to do with it.
use lori_os.Prelude.{
  Bool-cases, inl, inr, ℕ, suc, ◌≡◌, ◌≢◌, refl, ap, sym, ◌∙◌, List, [], ◌∷◌, Bool, Option, none,
  some, true, false, arith, if◌then◌else◌,
}
use lori_os.CString.Tokens.{fields}
use lori_os.Path.{split, slash}
use lori_os.Path.Split.{split-fields}
use lori_os.Path.Nodes.{
  Nodes, Walk, found, missing, on_found, found_or_missing, follow_links, walk_last, walk_step, walk,
  start, walk_from, resolve_path,
}

-- The walk along directories: each name is looked up in the one before.
unfoldable pub plain : Nodes → ℕ → List (List ℕ) → Walk
plain v dir [] = found dir
plain v dir (name ∷ []) = found_or_missing (v.find_dir dir name)
plain v dir (name ∷ (next ∷ names)) =
    on_found (found_or_missing (v.find_dir dir name))
      (λ n. let rest = plain v n (next ∷ names) in if v.is_directory n then rest else missing)

walk_on :
    (v : Nodes) (o : Option ℕ) (k k' : ℕ → Walk)
    → ((n : ℕ) → k n ≡ k' n)
    → on_found
        (on_found (found_or_missing o) (λ n. if v.is_directory n then found n else missing))
        k
      ≡ on_found
          (found_or_missing o)
          (λ n. let rest = k' n in if v.is_directory n then rest else missing)
unfolding on_found
walk_on v none k k' h = refl
walk_on v (some n) k k' h = elim (Bool-cases (v.is_directory n)) [
  | inl e ↦ rw e (h n)
  | inr e ↦ rw e refl
]

pub resolve_path_step :
    (v : Nodes) (depth x : ℕ) (path : List ℕ) (dir : Option ℕ) (follow : Bool)
    → resolve_path v (suc depth) (x ∷ path) dir follow
      ≡ walk_from v
          (λ text node. resolve_path v depth text (some node) false)
          follow
          (x ∷ path)
          dir
          (split (x ∷ path) slash)
unfolding resolve_path
resolve_path_step v depth x path dir follow = ground arith

module _ (v : Nodes) (no_links : (n : ℕ) → v.is_symlink n ≡ false) where
  walk_last-plain :
      (resolve : List ℕ → ℕ → Walk) (follow : Bool) (dir : ℕ) (name : List ℕ) (o : Option ℕ)
      → o ≡ v.find_dir dir name
      → walk_last v resolve follow dir name ≡ found_or_missing o
  unfolding walk_last on_found follow_links
  walk_last-plain resolve follow dir name none e = rw (sym e) refl
  walk_last-plain resolve true dir name (some n) e = rw (sym e) (ground (arith, no_links n))
  walk_last-plain resolve false dir name (some n) e = rw (sym e) refl

  walk_step-plain :
      (resolve : List ℕ → ℕ → Walk) (dir : ℕ) (name : List ℕ) (o : Option ℕ)
      → o ≡ v.find_dir dir name
      → walk_step v resolve dir name
        ≡ on_found (found_or_missing o) (λ n. if v.is_directory n then found n else missing)
  unfolding walk_step on_found
  walk_step-plain resolve dir name none e = rw (sym e) refl
  walk_step-plain resolve dir name (some n) e = rw (sym e) (rw (no_links n) refl)

  walk-plain :
      (resolve : List ℕ → ℕ → Walk) (follow : Bool) (dir : ℕ) (names : List (List ℕ))
      → walk v resolve follow dir names ≡ plain v dir names
  unfolding walk plain on_found
  walk-plain resolve follow dir [] = refl
  walk-plain resolve follow dir (name ∷ []) = walk_last-plain resolve follow dir name _ refl
  walk-plain resolve follow dir (name ∷ (next ∷ names)) =
      ap (λ w. on_found w (λ n. walk v resolve follow n (next ∷ names)))
        (walk_step-plain resolve dir name _ refl)
      ∙ walk_on v (v.find_dir dir name) _ _ (λ n. walk-plain resolve follow n (next ∷ names))

  walk_from-plain :
      (resolve : List ℕ → ℕ → Walk) (follow : Bool) (path : List ℕ) (dir : Option ℕ)
      (names : List (List ℕ))
      → names ≢ []
      → walk_from v resolve follow path dir names ≡ plain v (start v path dir) names
  unfolding walk_from
  walk_from-plain resolve follow path dir [] h = absurd (h refl)
  walk_from-plain resolve follow path dir (name ∷ names) h =
      walk-plain resolve follow (start v path dir) (name ∷ names)

  -- Where no node is a symbolic link, one call of `ResolvePath` is enough: it walks along the parts of a
  -- path that has any, and each but the last must be a directory.
  pub resolve_path-plain :
      (depth : ℕ) (path : List ℕ) (dir : Option ℕ) (follow : Bool)
      → fields slash [] path ≢ []
      → resolve_path v (suc depth) path dir follow
        ≡ plain v (start v path dir) (fields slash [] path)
  unfolding resolve_path fields
  resolve_path-plain depth [] dir follow h = absurd (h refl)
  resolve_path-plain depth (x ∷ path) dir follow h =
      let resolve : List ℕ → ℕ → Walk = λ text node. resolve_path v depth text (some node) false in
      resolve_path_step v depth x path dir follow
      ∙ ap (walk_from v resolve follow (x ∷ path) dir) (split-fields (x ∷ path) slash)
      ∙ walk_from-plain resolve follow (x ∷ path) dir (fields slash [] (x ∷ path)) h
