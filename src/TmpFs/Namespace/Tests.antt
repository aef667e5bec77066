-- ===== src/TmpFs/Namespace/Tests.antt =====
-- Tests of the directories of tmpfs, on a volume with one file `a`.
use lori_os.Prelude.{
  ◌<◌, ℕ, zero, suc, ◌≡◌, refl, List, [], ◌∷◌, ◌++◌, true, false, none, some, arith, some_eq,
  none-ne-some, subst, if◌then◌else◌, ◌==◌, ◌&&◌,
}
use mathlib.Core.Option
use lori_os.TmpFs.{Node, ok, eexist, enotdir}
use lori_os.CString.{strncmp_eq, strcmp_eq}
use lori_os.TmpFs.Namespace.{
  Volume, find, remove_entry, node_at, add_new, create, create_directory, link, unlink, open_node,
  close_node,
}
use lori_os.TmpFs.Namespace.Refs.{named, refs}
use lori_os.TmpFs.Namespace.Sound.{IsCounted, Sound}
use lori_os.TmpFs.Namespace.Entries.{Done, create-Sound, link-Sound}
use lori_os.TmpFs.Namespace.Unlink.{unlink-Sound, unlink_open}
use lori_os.TmpFs.Namespace.Handles.{open_node-Sound, close_node-Sound}

abbrev name_a : List ℕ
name_a = 97 ∷ []

abbrev name_b : List ℕ
name_b = 98 ∷ []

abbrev file_a : Node
file_a = record {
  is_dir = false;
  size = 0;
  nlink = 1;
  handles = 1;
  buffer = none;
  buffer_size = 0;
  children = [];
}

abbrev root : Node
root = record file_a {
  is_dir = true;
  handles = 0;
  children = record { name = name_a; target = 1 } ∷ [];
}

abbrev one_file : Volume
one_file = record { volume_id = 4; nodes = some root ∷ some file_a ∷ [] }

root-IsCounted : (c : ℕ) → IsCounted c root
root-IsCounted c = record {
  file_links = λ e. absurd (cc (e));
  file_children = λ e. absurd (cc (e));
  dir_links = λ e. refl;
  in_use = omega arith;
  small_links = omega arith;
  small_handles = omega arith;
}

file_a-IsCounted : IsCounted 1 file_a
file_a-IsCounted = record {
  file_links = λ e. refl;
  file_children = λ e. refl;
  dir_links = λ e. absurd (cc (e));
  in_use = omega arith;
  small_links = omega arith;
  small_handles = omega arith;
}

exists : (i : ℕ) → 0 < refs i one_file.nodes → (n : Node) × (node_at one_file.nodes i ≡ some n)
unfolding refs named
exists zero h = (root, refl)
exists (suc zero) h = (file_a, refl)
exists (suc (suc i)) h = absurd (ground arith)

counts :
    (i : ℕ) (n : Node) → node_at one_file.nodes i ≡ some n → IsCounted (refs i one_file.nodes) n
unfolding refs named
counts zero n h = subst (IsCounted (refs 0 one_file.nodes)) (some_eq h) (root-IsCounted _)
counts (suc zero) n h = subst (IsCounted 1) (some_eq h) file_a-IsCounted
counts (suc (suc i)) n h = none-ne-some h

one_file-Sound : Sound one_file.nodes
one_file-Sound = record { live = exists; counted = counts }

-- The file has a second name, loses both, and goes with its last handle.
abbrev two_names : Volume
two_names = record one_file {
  nodes =
      some (record root { children = root.children ++ (record { name = name_b; target = 1 } ∷ []) })
      ∷ some (record file_a { nlink = 2 })
      ∷ [];
}

link_test : link one_file 0 4 1 name_b ≡ some (ok 0, two_names)
unfolding link find strncmp_eq Option.bind
link_test = refl

exists_test :
    (create one_file 0 name_a ≡ some (eexist, one_file))
    × (create one_file 1 name_b ≡ some (enotdir, one_file))
unfolding create add_new find strncmp_eq Option.bind
exists_test = (refl, refl)

unlink_test : unlink two_names 0 name_b ≡ some (ok 0, one_file)
unfolding unlink find remove_entry strncmp_eq strcmp_eq Option.bind
unlink_test = refl

create-Sound_test : Done (create one_file 0 name_b) × Done (create_directory one_file 0 name_b)
create-Sound_test = create-Sound one_file 0 name_b root one_file-Sound refl

link-Sound_test : Done (link one_file 0 4 1 name_b)
link-Sound_test =
    link-Sound one_file 0 4 1 name_b root file_a one_file-Sound refl refl (omega arith)

unlink-Sound_example : Done (unlink one_file 0 name_a)
unlink-Sound_example = unlink-Sound one_file 0 name_a root one_file-Sound refl (omega arith)

found_a : find root.children name_a ≡ some 1
unfolding find strncmp_eq
found_a = refl

unlink_open_test :
    (w : Volume) × (unlink one_file 0 name_a ≡ some (ok 0, w))
    × (node_at w.nodes 1 ≡ some (record file_a { nlink = 0 }))
unlink_open_test =
    unlink_open one_file 0 1 name_a root file_a one_file-Sound refl refl (omega arith) found_a refl
      refl (omega arith)

open_node-Sound_test :
    (w : Volume) × (open_node one_file 1 ≡ some w)
    × Sound w.nodes
    × (node_at w.nodes 1 ≡ some (record file_a { handles = 2 }))
open_node-Sound_test = open_node-Sound one_file 1 file_a one_file-Sound refl (omega arith)

close_node-Sound_example :
    (w : Volume) × (close_node one_file 1 ≡ some w)
    × Sound w.nodes
    × (node_at w.nodes 1 ≡ (
        if refs 1 one_file.nodes == 0 && 1 == 1
        then none
        else some (record file_a { handles = 0 })))
close_node-Sound_example = close_node-Sound one_file 1 file_a one_file-Sound refl refl (omega arith)
