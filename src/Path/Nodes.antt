-- ===== src/Path/Nodes.antt =====
-- `ResolvePath`, `FollowLink` and `ResolveParent` of Kernel/src/FileSystem/Fs.cpp. What the walk asks of
-- the nodes of a mounted file system is a parameter: their methods are those of its driver.
pub mod Plain
pub mod LastName
pub mod Loops
pub mod Rename
mod Tests
use lori_os.Prelude.{
  ℕ, zero, suc, ◌+◌, ◌-◌, List, [], ◌∷◌, ◌++◌, Bool, true, false, not, ◌&&◌, Option, none, some,
  ltb, ◌==◌, if◌then◌else◌, length, take, get_or,
}
use lori_os.CString.{strrchr}
use lori_os.Path.{slash, split, without_slash}

-- A node is its number. `read_link` is none where `ReadLink` returns an error.
pub record Nodes : Type 0 where
  pub root : ℕ
  pub find_dir : ℕ → List ℕ → Option ℕ
  pub read_link : ℕ → Option (List ℕ)
  pub is_symlink : ℕ → Bool
  pub is_directory : ℕ → Bool

-- What a walk comes to: a node, the null pointer, or the end of the stack, where the calls of
-- `ResolvePath` and `FollowLink` are nested too deep.
pub data Walk : Type 0 where
  found : ℕ → Walk
  missing overflow : Walk

unfoldable pub on_found : Walk → (ℕ → Walk) → Walk
on_found (found n) f = f n
on_found missing f = missing
on_found overflow f = overflow

abbrev pub found_or_missing : Option ℕ → Walk
found_or_missing none = missing
found_or_missing (some n) = found n

-- `MAXIMUM_SYMLINK_AMOUNT`, and how often the counter, incremented in the test, passes it
abbrev pub maximum_symlink_amount : ℕ
maximum_symlink_amount = 10

module _ (v : Nodes) where
  -- `FollowLink`; `resolve` is the call of `ResolvePath` that does not follow the last component.
  pub follow_link : (List ℕ → ℕ → Walk) → ℕ → ℕ → Walk
  follow_link resolve link dir = elim (v.read_link link) [
    | none ↦ missing
    | some buffer ↦ resolve buffer dir
  ]

  -- the loop behind the last component, with the rounds that the counter allows
  pub follow_links : (List ℕ → ℕ → Walk) → ℕ → ℕ → ℕ → Walk
  unfolding follow_link on_found
  follow_links resolve zero node dir = if v.is_symlink node then missing else found node
  follow_links resolve (suc rounds) node dir =
      let next = on_found (follow_link resolve node dir) (λ n. follow_links resolve rounds n dir) in
      if v.is_symlink node then next else found node

  -- The last component.
  pub walk_last : (List ℕ → ℕ → Walk) → Bool → ℕ → List ℕ → Walk
  unfolding on_found follow_links
  walk_last resolve follow dir name = on_found (found_or_missing (v.find_dir dir name)) (λ node.
      if follow then follow_links resolve (suc maximum_symlink_amount) node dir else found node)

  -- A component that is not the last: the directory that it leads to.
  pub walk_step : (List ℕ → ℕ → Walk) → ℕ → List ℕ → Walk
  unfolding on_found follow_link
  walk_step resolve dir name = on_found (found_or_missing (v.find_dir dir name)) (λ node.
      on_found (if v.is_symlink node then follow_link resolve node dir else found node)
        (λ n. if v.is_directory n then found n else missing))

  pub walk : (List ℕ → ℕ → Walk) → Bool → ℕ → List (List ℕ) → Walk
  unfolding walk_step walk_last on_found
  walk resolve follow dir [] = found dir
  walk resolve follow dir (name ∷ []) = walk_last resolve follow dir name
  walk resolve follow dir (name ∷ (next ∷ names)) =
      on_found (walk_step resolve dir name) (λ n. walk resolve follow n (next ∷ names))

  -- where the walk starts: in the working directory, if there is one, unless the path starts with `/`
  pub start : List ℕ → Option ℕ → ℕ
  start path none = v.root
  start path (some dir) = if get_or path 0 0 == slash then v.root else dir

  -- no component: the path is `/`, or the null pointer is returned
  pub no_component : List ℕ → Walk
  no_component path = if length path == 1 && get_or path 0 0 == slash then found v.root else missing

  pub walk_from : (List ℕ → ℕ → Walk) → Bool → List ℕ → Option ℕ → List (List ℕ) → Walk
  unfolding walk no_component start
  walk_from resolve follow path dir [] = no_component path
  walk_from resolve follow path dir (name ∷ names) =
      walk resolve follow (start path dir) (name ∷ names)

  -- `ResolvePath`, with the depth of calls that the stack has room for
  pub resolve_path : ℕ → List ℕ → Option ℕ → Bool → Walk
  unfolding walk_from
  resolve_path zero path dir follow = overflow
  resolve_path (suc depth) path dir follow =
      let resolve : List ℕ → ℕ → Walk = λ text node. resolve_path depth text (some node) false in
      if length path == 0 then missing else walk_from resolve follow path dir (split path slash)

  -- `ResolveParent` with a working directory as a node. The byte in front of the last name is made 0.
  pub resolve_parent : ℕ → List ℕ → ℕ → Walk
  unfolding resolve_path
  resolve_parent depth path dir =
      let copy = without_slash path in
      elim (strrchr copy slash) [
        | none ↦ found dir
        | some name ↦ resolve_path depth (take (length copy - length name - 1) copy) (some dir) true
      ]
