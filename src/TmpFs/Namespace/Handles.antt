-- ===== src/TmpFs/Namespace/Handles.antt =====
-- Open handles keep a node.
use lori_os.Prelude.{
  ℕ, ◌+◌, ◌-◌, ◌^◌, ◌<◌, ◌≡◌, refl, sym, ap, ◌∙◌, subst, List, [], false, ◌&&◌, Option, none, some,
  ◌==◌, if◌then◌else◌, set, arith, Bool-cases, inl, inr, some_eq, none-ne-some, add32, sub32,
}
use lori_os.TmpFs.{Node}
use lori_os.TmpFs.Namespace.{Volume, node_at, open_node, close_node, released, no_links}
use lori_os.TmpFs.Namespace.Refs.{
  named, slot, refs, refs-set, node_at-slot, node_at-below, node_at-set,
}
use lori_os.TmpFs.Namespace.Sound.{IsCounted, Sound, Linked-same, Linked-set, Linked-released}

-- The same entries are left in a slot.
same_entries :
    (ns : List (Option Node)) (j : ℕ) (n : Node) (o : Option Node)
    → node_at ns j ≡ some n
    → ((i : ℕ) → slot i o ≡ named i n.children)
    → (i : ℕ) → refs i (set ns j o) ≡ refs i ns
same_entries ns j n o at same i =
    omega (arith, refs-set i ns j (some n) o (node_at-slot ns j n at), same i)

-- `Open` of a node that exists, below the limit on handles: no fault, the volume stays sound, and
-- the node has a handle more.
pub open_node-Sound :
    (v : Volume) (j : ℕ) (n : Node)
    → Sound v.nodes
    → node_at v.nodes j ≡ some n
    → n.handles + 1 < 2 ^ 32
    → (w : Volume) × (open_node v j ≡ some w)
      × Sound w.nodes
      × (node_at w.nodes j ≡ some (record n { handles = n.handles + 1 }))
unfolding open_node
open_node-Sound v j n s at small =
    let c = s.counted j n at in
    let more : Node = record n { handles = add32 n.handles 1 } in
    (
      record v { nodes = set v.nodes j (some more) },
      rw at refl,
      Linked-same (λ i. refs i v.nodes) _ _
          (λ i. sym (same_entries v.nodes j n (some more) at (λ i. refl) i))
          (Linked-set (λ i. refs i v.nodes) (λ i. refs i v.nodes) v.nodes j n (some more) s at
            (λ i e. refl)
            (λ m e. subst (IsCounted (refs j v.nodes)) (some_eq e) (record {
              file_links = c.file_links;
              file_children = c.file_children;
              dir_links = c.dir_links;
              in_use = omega (arith, c.in_use);
              small_links = c.small_links;
              small_handles = omega arith;
            }))
            (λ e. none-ne-some (sym e))),
      node_at-set v.nodes j j (some more) (node_at-below v.nodes j n at)
          ∙ ground (
            arith,
            ap (λ h. some (record n { handles = h })) {x = add32 n.handles 1} {y = n.handles + 1}
                (omega arith),
          ),
    )

-- A node that is released and deleted had no entries to lose.
slot-released : (n : Node) (i : ℕ) → n.children ≡ [] → slot i (released n) ≡ named i n.children
unfolding named
slot-released n i empty = elim (Bool-cases (no_links n && n.handles == 0)) [
  | inl out ↦ rw (out, empty) refl
  | inr used ↦ rw used refl
]

-- `Close` of a handle of a file: no fault, and the volume stays sound; the file is gone where no
-- handle and no entry is left, and else has a handle less.
pub close_node-Sound :
    (v : Volume) (j : ℕ) (n : Node)
    → Sound v.nodes
    → node_at v.nodes j ≡ some n
    → n.is_dir ≡ false
    → 0 < n.handles
    → (w : Volume) × (close_node v j ≡ some w)
      × Sound w.nodes
      × (node_at w.nodes j ≡ (
          if refs j v.nodes == 0 && n.handles == 1
          then none
          else some (record n { handles = n.handles - 1 })))
unfolding close_node
close_node-Sound v j n s at file held =
    let c = s.counted j n at in
    let less : Node = record n { handles = sub32 n.handles 1 } in
    (
      record v { nodes = set v.nodes j (released less) },
      rw at refl,
      Linked-same (λ i. refs i v.nodes) _ _
          (λ i. sym (
            same_entries v.nodes j n (released less) at
              (λ k. slot-released less k (c.file_children file)) i))
          (Linked-released (λ i. refs i v.nodes) (λ i. refs i v.nodes) v.nodes j n less s at
            (λ i e. refl) file (c.file_links file) (c.file_children file) c.small_links
            (omega arith)),
      node_at-set v.nodes j j (released less) (node_at-below v.nodes j n at)
          ∙ ground (
            arith,
            c.file_links file,
            c.small_links,
            ap (λ h. some (record n { handles = h })) {x = sub32 n.handles 1} {y = n.handles - 1}
                (omega (arith, c.small_handles)),
          ),
    )
