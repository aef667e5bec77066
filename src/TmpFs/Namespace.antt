-- ===== src/TmpFs/Namespace.antt =====
-- The directories of tmpfs: nodes are shared by their entries and by open handles. A node is named by
-- its place in the list of all nodes; a deleted one leaves `none`, and to use it is a fault.
pub mod Refs
pub mod Sound
pub mod Entries
pub mod Unlink
pub mod Handles
mod Tests
use lori_os.Prelude.{
  ℕ, zero, suc, ◌+◌, ◌^◌, List, [], ◌∷◌, ◌++◌, Bool, true, false, not, ◌&&◌, ◌||◌, Option, none,
  some, leb, ltb, ◌==◌, if◌then◌else◌, length, take, get_elem?, set, add32, sub32,
}
use mathlib.Core.Option
use lori_os.CString.{strncmp_eq, strcmp_eq}
use lori_os.TmpFs.{Node, Entry, Status, ok, eisdir, enotdir, eexist, enoent, eperm, exdev}

pub record Volume : Type 0 where
  pub volume_id : ℕ
  pub nodes : List (Option Node)

abbrev pub name_max : ℕ
name_max = 255

-- `Find`
pub find : List Entry → List ℕ → Option ℕ
unfolding strncmp_eq
find [] name = none
find (e ∷ es) name =
    let further = find es name in if strncmp_eq name_max e.name name then some e.target else further

-- the loop of `Unlink` that removes the entry
pub remove_entry : List ℕ → List Entry → List Entry
unfolding strcmp_eq
remove_entry name [] = []
remove_entry name (e ∷ es) =
    let rest = remove_entry name es in if strcmp_eq name e.name then es else e ∷ rest

-- the node at a pointer, unless it was deleted
abbrev pub deref : Option (Option Node) → Option Node
deref none = none
deref (some o) = o

abbrev pub node_at : List (Option Node) → ℕ → Option Node
node_at ns i = deref (get_elem? ns i)

pub new_node : Bool → Node
new_node is_dir = record {
  is_dir = is_dir;
  size = 0;
  nlink = 1;
  handles = 0;
  buffer = none;
  buffer_size = 0;
  children = [];
}

abbrev pub entry : List ℕ → ℕ → Entry
entry name i = record { name = take name_max name; target = i }

abbrev pub add_child : Node → Entry → Node
add_child d e = record d { children = d.children ++ (e ∷ []) }

-- `Create` and `CreateDirectory`, which differ in the kind of the new node
pub add_new : Bool → Volume → ℕ → List ℕ → Option (Status × Volume)
unfolding find new_node
add_new is_dir v dir name = Option.bind (node_at v.nodes dir) (λ d.
    let there = find d.children name in
    let i = length v.nodes in
    if not d.is_dir then some (enotdir, v) else elim there [
      | some t ↦ some (eexist, v)
      | none ↦ some (
        ok 0,
        record v {
          nodes =
              set v.nodes dir (some (add_child d (entry name i))) ++ (some (new_node is_dir) ∷ []);
        },
      )
    ])

pub create : Volume → ℕ → List ℕ → Option (Status × Volume)
unfolding add_new
create v dir name = add_new false v dir name

pub create_directory : Volume → ℕ → List ℕ → Option (Status × Volume)
unfolding add_new
create_directory v dir name = add_new true v dir name

-- `Link` to node `i` of the volume `file_volume`
pub link : Volume → ℕ → ℕ → ℕ → List ℕ → Option (Status × Volume)
unfolding find
link v dir file_volume i name = Option.bind (node_at v.nodes dir) (λ d.
    let there = find d.children name in
    if not d.is_dir
    then some (enotdir, v)
    else if not (file_volume == v.volume_id)
    then some (exdev, v)
    else elim there [
      | some t ↦ some (eexist, v)
      | none ↦ Option.bind (node_at v.nodes i) (λ file.
          if file.is_dir
          then some (eperm, v)
          else some (
            ok 0,
            record v {
              nodes =
                  set (set v.nodes i (some (record file { nlink = add32 file.nlink 1 }))) dir
                    (some (add_child d (entry name i)));
            },
          ))
    ])

-- `nlink <= 0` of an `int`
abbrev pub no_links : Node → Bool
no_links n = n.nlink == 0 || leb (2 ^ 31) n.nlink

-- a node with the counts of `n`, unless these have run out and it is deleted
abbrev pub released : Node → Option Node
released n = if no_links n && n.handles == 0 then none else some n

-- `Unlink` with its default argument, which refuses directories
pub unlink : Volume → ℕ → List ℕ → Option (Status × Volume)
unfolding find remove_entry
unlink v dir name = Option.bind (node_at v.nodes dir) (λ d.
    let there = find d.children name in
    if not d.is_dir then some (enotdir, v) else elim there [
      | none ↦ some (enoent, v)
      | some i ↦ Option.bind (node_at v.nodes i) (λ node.
          if node.is_dir
          then some (eisdir, v)
          else some (
            ok 0,
            record v {
              nodes =
                  set
                    (set v.nodes dir (some (record d { children = remove_entry name d.children })))
                    i (released (record node { nlink = sub32 node.nlink 1 }));
            },
          ))
    ])

-- `Open` and `Close`
pub open_node : Volume → ℕ → Option Volume
open_node v i =
    Option.map
      (λ n. record v { nodes = set v.nodes i (some (record n { handles = add32 n.handles 1 })) })
      (node_at v.nodes i)

pub close_node : Volume → ℕ → Option Volume
close_node v i =
    Option.map
      (λ n. record v {
        nodes = set v.nodes i (released (record n { handles = sub32 n.handles 1 }));
      })
      (node_at v.nodes i)
