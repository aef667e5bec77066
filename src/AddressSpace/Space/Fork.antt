-- ===== src/AddressSpace/Space/Fork.antt =====
-- `Fork`: the objects of the parent after its regions were copied.
use lori_os.Prelude.{
  ℕ, ◌+◌, ◌<◌, ◌^◌, ◌≡◌, ◌≢◌, refl, List, [], ◌∷◌, none, some, true, false, arith, ◌∙◌, dec_lt,
  Option-cases, inl, inr,
}
use lori_os.AddressSpace.{Region}
use lori_os.AddressSpace.Space.{VmObject, Space, update, fork, fork_objects, fork_object}
use lori_os.AddressSpace.Space.Count.{holds, refs}

abbrev pub Attached : List Region → Type 0
Attached [] = Unit {0}
Attached (r ∷ rs) = (r.object ≢ none) × Attached rs

-- What an object became after the regions `rs` were copied.
pub record Forked (rs : List Region) (f g : ℕ → VmObject) (o : ℕ) : Type 0 where
  pub counted : (g o).ref_count ≡ (f o).ref_count + refs o rs
  pub same_sharing : (g o).shared ≡ (f o).shared
  pub copied : (f o).shared ≡ false → 0 < refs o rs → (g o).copy_on_write ≡ true
  pub sticky : (f o).copy_on_write ≡ true → (g o).copy_on_write ≡ true
  pub shared_kept : (f o).shared ≡ true → (g o).copy_on_write ≡ (f o).copy_on_write

fork_one-Forked :
    (r : Region) (p o : ℕ) (f : ℕ → VmObject)
    → r.object ≡ some p
    → (f o).ref_count + 1 < 2 ^ 64
    → Forked (r ∷ []) f (update f p (fork_object (f p))) o
fork_one-Forked r p o f e h = record {
  counted = ground arith;
  same_sharing = ground arith;
  copied = ground arith;
  sticky = ground arith;
  shared_kept = ground arith;
}

Forked-trans :
    (r : Region) (rs : List Region) (f g k : ℕ → VmObject) (o : ℕ)
    → Forked (r ∷ []) f g o
    → Forked rs g k o
    → Forked (r ∷ rs) f k o
Forked-trans r rs f g k o a b = record {
  counted = omega (arith, a.counted, b.counted);
  same_sharing = b.same_sharing ∙ a.same_sharing;
  copied = λ s h. elim (dec_lt 0 (holds o r)) [
    | yes held ↦ b.sticky (a.copied s (omega arith))
    | no free ↦ b.copied (a.same_sharing ∙ s) (omega arith)
  ];
  sticky = λ s. b.sticky (a.sticky s);
  shared_kept = λ s. b.shared_kept (a.same_sharing ∙ s) ∙ a.shared_kept s;
}

fork_objects-Forked :
    (rs : List Region) (f : ℕ → VmObject)
    → Attached rs
    → ((o : ℕ) → (f o).ref_count + refs o rs + 1 < 2 ^ 64)
    → (g : ℕ → VmObject) × (fork_objects rs f ≡ some g) × ((o : ℕ) → Forked rs f g o)
unfolding fork_objects
fork_objects-Forked [] f a h = (
  f,
  refl,
  λ o. record {
    counted = omega arith;
    same_sharing = refl;
    copied = λ s k. absurd (omega arith);
    sticky = λ s. s;
    shared_kept = λ s. refl;
  },
)
fork_objects-Forked (r ∷ rs) f a h = elim (Option-cases r.object) [
  | inl null ↦ absurd (a.0 null)
  | inr (p, e) ↦
      let f' : ℕ → VmObject = update f p (fork_object (f p)) in
      let first : (o : ℕ) → Forked (r ∷ []) f f' o =
        λ o. fork_one-Forked r p o f e (omega (arith, h o)) in
      let (g, done, later) =
        fork_objects-Forked rs f' a.1 (λ o. omega (arith, (first o).counted, h o)) in
      (g, rw (e, fork_objects) done, λ o. Forked-trans r rs f f' g o (first o) (later o))
]

-- `Fork` of a space whose regions all have objects copies every region as it is, and each object
-- then counts one more reference for each region that holds it. An object that is not shared and is
-- held by a region becomes copy-on-write; a shared one keeps its mark.
pub fork-Forked :
    (s : Space)
    → Attached s.regions
    → ((o : ℕ) → (s.objects o).ref_count + refs o s.regions + 1 < 2 ^ 64)
    → (g : ℕ → VmObject) × (fork s ≡ some (s.regions, g))
      × ((o : ℕ) → Forked s.regions s.objects g o)
unfolding fork
fork-Forked s a h =
    let (g, done, forked) = fork_objects-Forked s.regions s.objects a h in (g, rw done, forked)
