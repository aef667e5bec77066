-- ===== src/TmpFs/Namespace/Unlink.antt =====
-- Removing an entry releases its file.
use lori_os.Prelude.{
  ℕ, ◌-◌, ◌≤◌, ◌<◌, ◌≡◌, refl, sym, ap, ◌∙◌, subst, List, [], true, false, ◌&&◌, Option, none, some,
  ◌==◌, if◌then◌else◌, length, set, length-set, arith, Bool-cases, Option-cases, inl, inr, some_eq,
  none-ne-some, sub32,
}
use mathlib.Core.Option
use lori_os.TmpFs.{Node, ok, eisdir, enotdir, enoent}
use lori_os.TmpFs.Namespace.{
  Volume, find, remove_entry, name_max, node_at, unlink, released, no_links,
}
use lori_os.TmpFs.Namespace.Refs.{
  named, slot, refs, refs-set, node_at-slot, node_at-below, node_at-set, named-remove_entry,
}
use lori_os.TmpFs.Namespace.Sound.{IsCounted, Sound, Linked-same, Linked-set, Linked-released}
use lori_os.TmpFs.Namespace.Entries.{Done, grown_dir, apart, node_at-set_other}

-- The count of `i` is one less.
abbrev minus_one : ℕ → (ℕ → ℕ) → ℕ → ℕ
minus_one j c i = if i == j then c i - 1 else c i

slot-le-refs :
    (ns : List (Option Node)) (j i : ℕ) (n : Node)
    → node_at ns j ≡ some n
    → named i n.children ≤ refs i ns
slot-le-refs ns j i n at = omega (arith, refs-set i ns j (some n) none (node_at-slot ns j n at))

released-slot : (n : Node) (i : ℕ) → n.children ≡ [] → slot i (released n) ≡ 0
unfolding named
released-slot n i empty = elim (Bool-cases (no_links n && n.handles == 0)) [
  | inl out ↦ rw out refl
  | inr used ↦ rw (used, empty) refl
]

no_slot : (n : Node) (i : ℕ) → n.children ≡ [] → named i n.children ≡ 0
unfolding named
no_slot n i empty = rw empty refl

-- An entry that is found names a node that exists.
find_exists :
    (v : Volume) (dir i : ℕ) (name : List ℕ) (d : Node)
    → Sound v.nodes
    → node_at v.nodes dir ≡ some d
    → length name < name_max
    → find d.children name ≡ some i
    → (n : Node) × (node_at v.nodes i ≡ some n) × (0 < refs i v.nodes)
find_exists v dir i name d s at short there =
    let some_entry : 0 < refs i v.nodes = ground (
      arith,
      named-remove_entry d.children name i i short there,
      slot-le-refs v.nodes dir i d at,
    ) in
    let (n, at') = s.live i some_entry in (n, at', some_entry)

-- `Unlink` in a directory that exists, of a name that fits in an entry: no fault, and the volume
-- stays sound.
pub unlink-Sound :
    (v : Volume) (dir : ℕ) (name : List ℕ) (d : Node)
    → Sound v.nodes
    → node_at v.nodes dir ≡ some d
    → length name < name_max
    → Done (unlink v dir name)
unfolding unlink Option.bind
unlink-Sound v dir name d s at short = elim (Bool-cases d.is_dir) [
  | inr file ↦ (enotdir, v, ground (arith, at, file), s)
  | inl is_dir ↦ elim (Option-cases (find d.children name)) [
    | inl missing ↦ (enoent, v, ground (arith, at, is_dir, missing), s)
    | inr (i, there) ↦
        let (n, at', some_entry) = find_exists v dir i name d s at short there in
        elim (Bool-cases n.is_dir) [
          | inl also_dir ↦ (eisdir, v, ground (arith, at, is_dir, there, at', also_dir), s)
          | inr file ↦
              let c : ℕ → ℕ = λ k. refs k v.nodes in
              let cut : Node = record d { children = remove_entry name d.children } in
              let mid : List (Option Node) = set v.nodes dir (some cut) in
              let less : Node = record n { nlink = sub32 n.nlink 1 } in
              let k' = s.counted i n at' in
              let at_mid =
                node_at-set_other v.nodes dir i d n (some cut) at at'
                  (ground (arith, apart v.nodes i dir n d at' at file is_dir)) in
              (
                ok 0,
                record v { nodes = set mid i (released less) },
                ground (arith, at, is_dir, there, at', file),
                Linked-same (minus_one i c) _ _
                    (λ k. ground (
                      arith,
                      refs-set k v.nodes dir (some d) (some cut) (node_at-slot v.nodes dir d at),
                      refs-set k mid i (some n) (released less) (node_at-slot mid i n at_mid),
                      released-slot less k (k'.file_children file),
                      no_slot n k (k'.file_children file),
                      named-remove_entry d.children name i k short there,
                    ))
                    (Linked-released c (minus_one i c) mid i n less
                      (Linked-set c c v.nodes dir d (some cut) s at (λ k e. refl)
                        (λ m e.
                          subst (IsCounted (c dir)) (some_eq e)
                            (grown_dir (c dir) d cut.children is_dir (s.counted dir d at)))
                        (λ e. none-ne-some (sym e)))
                      at_mid (λ k e. ground (arith, e)) file
                      (ground (arith, k'.file_links file, k'.small_links)) (k'.file_children file)
                      (omega (arith, k'.small_links, k'.file_links file)) k'.small_handles),
              )
        ]
  ]
]

-- A file that is open survives the removal of its entry, with the same bytes.
pub unlink_open :
    (v : Volume) (dir i : ℕ) (name : List ℕ) (d n : Node)
    → Sound v.nodes
    → node_at v.nodes dir ≡ some d
    → d.is_dir ≡ true
    → length name < name_max
    → find d.children name ≡ some i
    → node_at v.nodes i ≡ some n
    → n.is_dir ≡ false
    → 0 < n.handles
    → (w : Volume) × (unlink v dir name ≡ some (ok 0, w))
      × (node_at w.nodes i ≡ some (record n { nlink = n.nlink - 1 }))
unfolding unlink Option.bind
unlink_open v dir i name d n s at is_dir short there at' file held =
    let cut : Node = record d { children = remove_entry name d.children } in
    let mid : List (Option Node) = set v.nodes dir (some cut) in
    let less : Node = record n { nlink = sub32 n.nlink 1 } in
    let k = s.counted i n at' in
    let (n', at_n, some_entry) = find_exists v dir i name d s at short there in
    let one : sub32 n.nlink 1 ≡ n.nlink - 1 = omega (arith, k.file_links file, k.small_links) in
    (
      record v { nodes = set mid i (released less) },
      ground (arith, at, is_dir, there, at', file),
      node_at-set mid i i (released less)
            (omega (arith, length-set v.nodes dir (some cut), node_at-below v.nodes i n at'))
          ∙ ground (arith, ap (λ x. some (record n { nlink = x })) one),
    )
