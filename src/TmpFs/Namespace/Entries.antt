-- ===== src/TmpFs/Namespace/Entries.antt =====
-- Entries are made and removed.
use lori_os.Prelude.{
  ℕ, suc, ◌+◌, ◌^◌, ◌≤◌, ◌<◌, ◌≡◌, refl, sym, ap, ◌∙◌, subst, List, [], ◌∷◌, ◌++◌, Bool, true,
  false, Option, some, ◌==◌, if◌then◌else◌, length, set, length-set, arith, Bool-cases,
  Option-cases, inl, inr, some_eq, none-ne-some, ==_iff, add32,
}
use mathlib.Core.Option
use lori_os.TmpFs.{Node, Entry, Status, ok, enotdir, eexist, eperm, exdev}
use lori_os.TmpFs.Namespace.{
  Volume, find, node_at, new_node, entry, add_child, add_new, create, create_directory, link,
}
use lori_os.TmpFs.Namespace.Refs.{
  named, named-append, named_one, refs, refs-append, refs_one, refs-set, node_at-slot,
  node_at-below, node_at-set,
}
use lori_os.TmpFs.Namespace.Sound.{IsCounted, Linked, Sound, Linked-same, Linked-set, Linked-append}

-- The count of `i` is one more.
abbrev plus_one : ℕ → (ℕ → ℕ) → ℕ → ℕ
plus_one j c i = if i == j then suc (c i) else c i

named-add_child :
    (d : Node) (name : List ℕ) (t i : ℕ)
    → named i (add_child d (entry name t)).children ≡ named i d.children + (if i == t then 1 else 0)
named-add_child d name t i =
    named-append i d.children (entry name t ∷ []) ∙ ground (arith, named_one i (entry name t))

-- A directory with an entry more is counted as before.
pub grown_dir :
    (c : ℕ) (d : Node) (es : List Entry)
    → d.is_dir ≡ true
    → IsCounted c d
    → IsCounted c (record d { children = es })
grown_dir c d es dir k = record {
  file_links = k.file_links;
  file_children = λ f. cc (f, dir);
  dir_links = k.dir_links;
  in_use = k.in_use;
  small_links = k.small_links;
  small_handles = k.small_handles;
}

new_node-IsCounted : (is_dir : Bool) → IsCounted 1 (new_node is_dir)
unfolding new_node
new_node-IsCounted is_dir = record {
  file_links = λ f. refl;
  file_children = λ f. refl;
  dir_links = λ f. refl;
  in_use = omega arith;
  small_links = omega arith;
  small_handles = omega arith;
}

new_node-named : (is_dir : Bool) (i : ℕ) → named i (new_node is_dir).children ≡ 0
unfolding new_node named
new_node-named is_dir i = refl

-- No entry names a node that was never made.
unnamed : (ns : List (Option Node)) (i : ℕ) → Sound ns → length ns ≤ i → refs i ns ≡ 0
unnamed ns i s past = elim (Bool-cases (refs i ns == 0)) [
  | inl e ↦ (==_iff (refs i ns) 0).0 e
  | inr e ↦ let (n, at) = s.live i (ground arith) in absurd (omega (arith, node_at-below ns i n at))
]

-- The entries of a directory with a node after it.
add_new-refs :
    (ns : List (Option Node)) (dir i t : ℕ) (d m : Node) (name : List ℕ)
    → node_at ns dir ≡ some d
    → named i m.children ≡ 0
    → refs i (set ns dir (some (add_child d (entry name t))) ++ (some m ∷ []))
      ≡ refs i ns + (if i == t then 1 else 0)
add_new-refs ns dir i t d m name at empty = omega (
  arith,
  refs-append i (set ns dir (some (add_child d (entry name t)))) (some m ∷ []),
  refs_one i (some m),
  refs-set i ns dir (some d) (some (add_child d (entry name t))) (node_at-slot ns dir d at),
  named-add_child d name t i,
)

-- The outcome of a call on a sound volume: no fault, and a sound volume again.
abbrev pub Done : Option (Status × Volume) → Type 0
Done r = (s : Status) × (w : Volume) × (r ≡ some (s, w)) × Sound w.nodes

add_new-Sound :
    (is_dir : Bool) (v : Volume) (dir : ℕ) (name : List ℕ) (d : Node)
    → Sound v.nodes
    → node_at v.nodes dir ≡ some d
    → Done (add_new is_dir v dir name)
unfolding add_new Option.bind
add_new-Sound is_dir v dir name d s at = elim (Bool-cases d.is_dir) [
  | inr file ↦ (enotdir, v, rw (at, file) refl, s)
  | inl is_dir' ↦ elim (Option-cases (find d.children name)) [
    | inr (t, there) ↦ (eexist, v, rw (at, is_dir', there) refl, s)
    | inl new ↦
        let i : ℕ = length v.nodes in
        let c : ℕ → ℕ = λ k. refs k v.nodes in
        let grown : Node = add_child d (entry name i) in
        (
          ok 0,
          record v { nodes = set v.nodes dir (some grown) ++ (some (new_node is_dir) ∷ []) },
          ground (arith, at, is_dir', new),
          Linked-same (plus_one i c) _ _
              (λ k. ground (
                arith,
                add_new-refs v.nodes dir k i d (new_node is_dir) name at (new_node-named is_dir k),
              ))
              (Linked-append c (plus_one i c) (set v.nodes dir (some grown)) (new_node is_dir)
                (Linked-set c c v.nodes dir d (some grown) s at (λ k e. refl)
                  (λ m e.
                    subst (IsCounted (c dir)) (some_eq e)
                      (grown_dir (c dir) d grown.children is_dir' (s.counted dir d at)))
                  (λ e. none-ne-some (sym e)))
                (λ k e. ground (arith, length-set v.nodes dir (some grown)))
                (subst (λ x. IsCounted x (new_node is_dir))
                  (ground (
                    arith,
                    length-set v.nodes dir (some grown),
                    unnamed v.nodes (length v.nodes) s (omega arith),
                  ))
                  (new_node-IsCounted is_dir))),
        )
  ]
]

-- `Create` and `CreateDirectory` in a node that exists: no fault, and the volume stays sound.
pub create-Sound :
    (v : Volume) (dir : ℕ) (name : List ℕ) (d : Node)
    → Sound v.nodes
    → node_at v.nodes dir ≡ some d
    → Done (create v dir name) × Done (create_directory v dir name)
unfolding create create_directory
create-Sound v dir name d s at =
    (add_new-Sound false v dir name d s at, add_new-Sound true v dir name d s at)

-- A file is not the directory that it is linked in.
pub apart :
    (ns : List (Option Node)) (i j : ℕ) (n m : Node)
    → node_at ns i ≡ some n
    → node_at ns j ≡ some m
    → n.is_dir ≡ false
    → m.is_dir ≡ true
    → (j == i) ≡ false
apart ns i j n m at at' file dir = elim (Bool-cases (j == i)) [
  | inl e ↦
      let same : n ≡ m = some_eq (sym at ∙ ap (node_at ns) (sym ((==_iff j i).0 e)) ∙ at') in
      absurd (cc (ap (λ x. x.is_dir) same, file, dir))
  | inr e ↦ e
]

-- Slot `j` is not the one that was set.
pub node_at-set_other :
    (ns : List (Option Node)) (i j : ℕ) (n m : Node) (o : Option Node)
    → node_at ns i ≡ some n
    → node_at ns j ≡ some m
    → (j == i) ≡ false
    → node_at (set ns i o) j ≡ some m
node_at-set_other ns i j n m o at at' e = node_at-set ns i j o (node_at-below ns i n at) ∙ rw e at'

one_link_more :
    (ns : List (Option Node)) (i : ℕ) (f : Node)
    → Sound ns
    → node_at ns i ≡ some f
    → f.is_dir ≡ false
    → f.nlink + 1 < 2 ^ 31
    → Linked (plus_one i (λ k. refs k ns)) (set ns i (some (record f { nlink = add32 f.nlink 1 })))
one_link_more ns i f s at file small =
    let c = s.counted i f at in
    let one_more : plus_one i (λ k. refs k ns) i ≡ add32 f.nlink 1 =
      ground (arith, c.file_links file) in
    Linked-set (λ k. refs k ns) (plus_one i (λ k. refs k ns)) ns i f
      (some (record f { nlink = add32 f.nlink 1 })) s at (λ k e. ground (arith, e))
      (λ m e. subst (IsCounted (plus_one i (λ k. refs k ns) i)) (some_eq e) (record {
        file_links = λ x. sym one_more;
        file_children = c.file_children;
        dir_links = λ x. cc (x, file);
        in_use = omega arith;
        small_links = omega arith;
        small_handles = c.small_handles;
      }))
      (λ e. none-ne-some (sym e))

-- `Link` in a directory, to a file of any volume, below the limit on links: no fault, and the volume
-- stays sound.
pub link-Sound :
    (v : Volume) (dir file_volume i : ℕ) (name : List ℕ) (d f : Node)
    → Sound v.nodes
    → node_at v.nodes dir ≡ some d
    → node_at v.nodes i ≡ some f
    → f.nlink + 1 < 2 ^ 31
    → Done (link v dir file_volume i name)
unfolding link Option.bind
link-Sound v dir file_volume i name d f s at at' small = elim (Bool-cases d.is_dir) [
  | inr file ↦ (enotdir, v, ground (arith, at, file), s)
  | inl is_dir ↦ elim (Bool-cases (file_volume == v.volume_id)) [
    | inr other ↦ (exdev, v, ground (arith, at, is_dir, other), s)
    | inl same ↦ elim (Option-cases (find d.children name)) [
      | inr (t, there) ↦ (eexist, v, ground (arith, at, is_dir, same, there), s)
      | inl new ↦ elim (Bool-cases f.is_dir) [
        | inl also_dir ↦ (eperm, v, ground (arith, at, is_dir, same, new, at', also_dir), s)
        | inr file ↦
            let c : ℕ → ℕ = plus_one i (λ k. refs k v.nodes) in
            let more : Node = record f { nlink = add32 f.nlink 1 } in
            let mid : List (Option Node) = set v.nodes i (some more) in
            let grown : Node = add_child d (entry name i) in
            let l = one_link_more v.nodes i f s at' file small in
            let at_mid =
              node_at-set_other v.nodes i dir f d (some more) at' at
                (apart v.nodes i dir f d at' at file is_dir) in
            (
              ok 0,
              record v { nodes = set mid dir (some grown) },
              ground (arith, at, is_dir, same, new, at', file),
              Linked-same c _ _
                  (λ k. ground (
                    arith,
                    refs-set k v.nodes i (some f) (some more) (node_at-slot v.nodes i f at'),
                    refs-set k mid dir (some d) (some grown) (node_at-slot mid dir d at_mid),
                    named-add_child d name i k,
                  ))
                  (Linked-set c c mid dir d (some grown) l at_mid (λ k e. refl)
                    (λ m e.
                      subst (IsCounted (c dir)) (some_eq e)
                        (grown_dir (c dir) d grown.children is_dir (l.counted dir d at_mid)))
                    (λ e. none-ne-some (sym e))),
            )
      ]
    ]
  ]
]
