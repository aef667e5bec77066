-- ===== src/Path/Nodes/Tests.antt =====
-- Walks along short paths, and a rename between two volumes.
use lori_os.Prelude.{
  ℕ, ◌≡◌, ◌≢◌, refl, List, [], ◌∷◌, ◌++◌, true, false, ◌&&◌, ◌||◌, Option, none, some, arith, ◌==◌,
  ltb, if◌then◌else◌, length, set, get_or, take,
}
use mathlib.Core.Logic.{inr}
use lori_os.CString.{strrchr, strrchr_from}
use lori_os.CString.Tokens.{fields}
use lori_os.Path.{split, split_from, slash, without_slash, base_name}
use lori_os.Path.Split.{IsPart}
use lori_os.Path.Nodes.{
  Nodes, found, overflow, on_found, follow_link, follow_links, walk_last, walk_step, walk, start,
  no_component, walk_from, resolve_path, resolve_parent,
}
use lori_os.Path.Nodes.LastName.{last_in, resolve_path-resolve_parent}
use lori_os.Path.Nodes.Loops.{resolve_path_loops}
use lori_os.Path.Nodes.Rename.{
  enotdir, other, move, Methods, returns, or_return, or_enoent, asserted, perhaps, refuse, choose,
  resolve, copy, write_back, is_dir_at, checked, rename_to, rename,
}

-- The names are single letters: the first byte tells which.
abbrev first : List ℕ → ℕ
first name = get_or name 0 0

-- "/a/f" is node 3, in "/a", node 1; "l" there is a link to "l/f". "/b" is node 2.
abbrev look_up : ℕ → List ℕ → Option ℕ
look_up dir name =
    if dir == 0 && first name == 97
    then some 1
    else if dir == 0 && first name == 98
    then some 2
    else if dir == 1 && first name == 102
    then some 3
    else if dir == 1 && first name == 108
    then some 5
    else none

abbrev tree : Nodes
tree = record {
  root = 0;
  find_dir = look_up;
  read_link = λ (n : ℕ). if n == 5 then some (108 ∷ 47 ∷ 102 ∷ []) else none;
  is_symlink = λ (n : ℕ). n == 5;
  is_directory = λ (n : ℕ). ltb n 3;
}

abbrev plain_tree : Nodes
plain_tree = record tree { is_symlink = λ (n : ℕ). false }

-- "/a/f"
abbrev path : List ℕ
path = 47 ∷ 97 ∷ 47 ∷ 102 ∷ []

resolve_path_test : resolve_path tree 1 path none true ≡ found 3
unfolding resolve_path walk_from walk walk_step walk_last follow_links follow_link on_found start
    no_component split split_from
resolve_path_test = refl

f-IsPart : IsPart slash (102 ∷ [])
f-IsPart = record { some_byte = omega arith; apart = omega arith }

a-parts : fields slash [] (47 ∷ 97 ∷ []) ≢ []
unfolding fields
a-parts e = cc

resolve_path-resolve_parent_example :
    resolve_path plain_tree 1 path (some 0) true
    ≡ last_in plain_tree (base_name path) (resolve_parent plain_tree 1 path 0)
resolve_path-resolve_parent_example =
    resolve_path-resolve_parent plain_tree 0 0 true (47 ∷ 97 ∷ []) (102 ∷ []) (λ n. refl) f-IsPart
      a-parts

link-parts : split (108 ∷ 47 ∷ 102 ∷ []) slash ≡ (108 ∷ []) ∷ ((102 ∷ []) ∷ [])
unfolding split split_from
link-parts = refl

resolve_path_loops_example : resolve_path tree 1000 (108 ∷ 47 ∷ 102 ∷ []) (some 1) true ≡ overflow
resolve_path_loops_example =
    resolve_path_loops tree 1 5 108 (47 ∷ 102 ∷ []) (108 ∷ []) (102 ∷ []) [] 1000 true (omega arith)
      link-parts refl refl refl

-- The state of the file systems is the content of the nodes 0 to 3, and of 4, which is created as "g"
-- in the volume of "/b".
abbrev files : Methods (List (List ℕ))
files = record {
  view = λ (s : List (List ℕ)). record plain_tree {
    find_dir = λ (dir : ℕ) (name : List ℕ).
        if dir == 2 && first name == 103 && ltb 4 (length s) then some 4 else look_up dir name;
  };
  volume = λ (s : List (List ℕ)) (n : ℕ). if n == 2 || n == 4 then 2 else 1;
  size = λ (s : List (List ℕ)) (n : ℕ). length (get_or s n []);
  link = λ (s : List (List ℕ)) (dir file : ℕ) (name : List ℕ). (none, s);
  unlink = λ (s : List (List ℕ)) (dir : ℕ) (name : List ℕ). (none, s);
  create = λ (s : List (List ℕ)) (dir : ℕ) (name : List ℕ). (none, s ++ ([] ∷ []));
  read = λ (s : List (List ℕ)) (n size : ℕ). inr (take size (get_or s n []));
  write = λ (s : List (List ℕ)) (n : ℕ) (buffer : List ℕ). (none, set s n buffer);
}

abbrev contents : List (List ℕ)
contents = [] ∷ ([] ∷ ([] ∷ ((1 ∷ 2 ∷ []) ∷ [])))

-- "/b/g"
abbrev new_path : List ℕ
new_path = 47 ∷ 98 ∷ 47 ∷ 103 ∷ []

rename_test : rename files 1 contents 0 path 0 new_path ≡ returns none (contents ++ ([] ∷ []))
unfolding rename rename_to checked copy write_back resolve refuse choose or_return or_enoent
    asserted perhaps is_dir_at resolve_path resolve_parent walk_from walk walk_step walk_last
    follow_links follow_link on_found start no_component split split_from without_slash base_name
    strrchr strrchr_from
rename_test = refl

-- "/a" and "/b" are volumes of their own, "/a/g" is not there, and no name can be removed. A link is
-- recorded behind the contents.
abbrev read_only : Methods (List (List ℕ))
read_only = record files {
  link = λ (s : List (List ℕ)) (dir file : ℕ) (name : List ℕ).
      if dir == 1 then (none, s ++ (name ∷ [])) else (some enotdir, s);
  unlink = λ (s : List (List ℕ)) (dir : ℕ) (name : List ℕ). (some (other 30), s);
}

abbrev other_path : List ℕ
other_path = 47 ∷ 97 ∷ 47 ∷ 103 ∷ []

-- The new name stays beside the old one.
rename_fails :
    rename read_only 1 contents 0 path 0 other_path
    ≡ returns (some (other 30)) (contents ++ ((103 ∷ []) ∷ []))
unfolding rename rename_to checked move resolve refuse choose or_return or_enoent asserted perhaps
    is_dir_at resolve_path resolve_parent walk_from walk walk_step walk_last follow_links
    follow_link on_found start no_component split split_from without_slash base_name strrchr
    strrchr_from
rename_fails = refl
