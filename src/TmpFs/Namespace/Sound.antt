-- ===== src/TmpFs/Namespace/Sound.antt =====
-- No operation leaves an entry without its node, and link counts are exact: so none uses a deleted
-- node.
use lori_os.Prelude.{
  ℕ, ◌+◌, ◌^◌, ◌<◌, ◌≡◌, ◌⊎◌, refl, sym, ap, ◌∙◌, subst, List, [], ◌∷◌, ◌++◌, true, false, ◌&&◌,
  Option, none, some, ◌==◌, if◌then◌else◌, length, set, arith, Bool-cases, Option-cases, inl, inr,
  some_eq, none-ne-some, ==_iff,
}
use lori_os.TmpFs.{Node}
use lori_os.TmpFs.Namespace.{node_at, released, no_links}
use lori_os.TmpFs.Namespace.Refs.{refs, node_at-below, node_at-set, node_at-append}

-- The counts of a node that `c` entries name. A directory is named once and never linked again.
pub record IsCounted (c : ℕ) (n : Node) : Type 0 where
  pub file_links : n.is_dir ≡ false → n.nlink ≡ c
  pub file_children : n.is_dir ≡ false → n.children ≡ []
  pub dir_links : n.is_dir ≡ true → n.nlink ≡ 1
  pub in_use : 0 < n.nlink + n.handles
  pub small_links : n.nlink < 2 ^ 31
  pub small_handles : n.handles < 2 ^ 32

-- Node `i` exists if `c i` entries name it, and has their count.
pub record Linked (c : ℕ → ℕ) (ns : List (Option Node)) : Type 0 where
  pub live : (i : ℕ) → 0 < c i → (n : Node) × (node_at ns i ≡ some n)
  pub counted : (i : ℕ) (n : Node) → node_at ns i ≡ some n → IsCounted (c i) n

-- Every entry names a node that exists, and every node has the count of the entries that name it.
abbrev pub Sound : List (Option Node) → Type 0
Sound ns = Linked (λ i. refs i ns) ns

pub Linked-same :
    (c c' : ℕ → ℕ) (ns : List (Option Node)) → ((i : ℕ) → c i ≡ c' i) → Linked c ns → Linked c' ns
Linked-same c c' ns same s = record {
  live = λ i h. s.live i (omega (arith, same i));
  counted = λ i n e. subst (λ x. IsCounted x n) (same i) (s.counted i n e);
}

-- One slot changes, and with it the count of its node.
pub Linked-set :
    (c c' : ℕ → ℕ) (ns : List (Option Node)) (j : ℕ) (n : Node) (o : Option Node)
    → Linked c ns
    → node_at ns j ≡ some n
    → ((i : ℕ) → (i == j) ≡ false → c' i ≡ c i)
    → ((m : Node) → o ≡ some m → IsCounted (c' j) m)
    → (o ≡ none → c' j ≡ 0)
    → Linked c' (set ns j o)
Linked-set c c' ns j n o s at off new gone =
    let at_set = λ (i : ℕ). node_at-set ns j i o (node_at-below ns j n at) in
    record {
      live = λ i h. elim (Bool-cases (i == j)) [
        | inl e ↦ elim (Option-cases o) [
          | inl empty ↦ absurd (omega (arith, gone empty, ap c' ((==_iff i j).0 e)))
          | inr (m, full) ↦ (m, at_set i ∙ rw e full)
        ]
        | inr e ↦ let (m, old) = s.live i (omega (arith, off i e)) in (m, at_set i ∙ rw e old)
      ];
      counted = λ i m at'. elim (Bool-cases (i == j)) [
        | inl e ↦
            subst (λ k. IsCounted (c' k) m) (sym ((==_iff i j).0 e))
              (new m (
                let h : (if i == j then o else node_at ns i) ≡ some m = sym (at_set i) ∙ at' in
                rw e at h))
        | inr e ↦
            let h : (if i == j then o else node_at ns i) ≡ some m = sym (at_set i) ∙ at' in
            subst (λ x. IsCounted x m) (sym (off i e)) (s.counted i m (rw e at h))
      ];
    }

-- A new node comes last.
pub Linked-append :
    (c c' : ℕ → ℕ) (ns : List (Option Node)) (m : Node)
    → Linked c ns
    → ((i : ℕ) → (i == length ns) ≡ false → c' i ≡ c i)
    → IsCounted (c' (length ns)) m
    → Linked c' (ns ++ (some m ∷ []))
Linked-append c c' ns m s off new =
    let at = node_at-append ns (some m) in
    record {
      live = λ i h. elim (Bool-cases (i == length ns)) [
        | inl e ↦ (m, at i ∙ rw e refl)
        | inr e ↦ let (n, old) = s.live i (omega (arith, off i e)) in (n, at i ∙ rw e old)
      ];
      counted = λ i n at'. elim (Bool-cases (i == length ns)) [
        | inl e ↦
            let h : (if i == length ns then some m else node_at ns i) ≡ some n = sym (at i) ∙ at' in
            let same : m ≡ n = some_eq (rw e at h) in
            subst (λ k. IsCounted (c' k) n) (sym ((==_iff i (length ns)).0 e))
              (subst (IsCounted (c' (length ns))) same new)
        | inr e ↦
            let h : (if i == length ns then some m else node_at ns i) ≡ some n = sym (at i) ∙ at' in
            subst (λ x. IsCounted x n) (sym (off i e)) (s.counted i n (rw e at h))
      ];
    }

-- Counts that have run out delete the node.
pub released_lem :
    (n : Node)
    → n.nlink < 2 ^ 31
    → ((released n ≡ some n) × (0 < n.nlink + n.handles))
      ⊎ ((released n ≡ none) × (n.nlink ≡ 0) × (n.handles ≡ 0))
released_lem n small = elim (Bool-cases (no_links n && n.handles == 0)) [
  | inl out ↦ inr (rw out refl, ground arith, ground arith)
  | inr used ↦ inl (rw used refl, ground arith)
]

-- A node whose counts are as they should be but that both may have run out: releasing it keeps the
-- volume linked.
pub Linked-released :
    (c c' : ℕ → ℕ) (ns : List (Option Node)) (j : ℕ) (n m : Node)
    → Linked c ns
    → node_at ns j ≡ some n
    → ((i : ℕ) → (i == j) ≡ false → c' i ≡ c i)
    → m.is_dir ≡ false
    → m.nlink ≡ c' j
    → m.children ≡ []
    → m.nlink < 2 ^ 31
    → m.handles < 2 ^ 32
    → Linked c' (set ns j (released m))
Linked-released c c' ns j n m s at off file links children small small' =
    elim (released_lem m small) [
      | inl (kept, used) ↦ rw kept (
          Linked-set c c' ns j n (some m) s at off
            (λ k e. subst (IsCounted (c' j)) (some_eq e) (record {
              file_links = λ d. links;
              file_children = λ d. children;
              dir_links = λ d. cc (file, d);
              in_use = used;
              small_links = small;
              small_handles = small';
            }))
            (λ e. none-ne-some (sym e)))
      | inr (gone, none_left, closed) ↦ rw gone (
          Linked-set c c' ns j n none s at off (λ k e. none-ne-some e) (λ e. sym links ∙ none_left))
    ]
