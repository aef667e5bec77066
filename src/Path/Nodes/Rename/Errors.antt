-- ===== src/Path/Nodes/Rename/Errors.antt =====
-- The errors of `Rename` of Kernel/src/FileSystem/Fs.cpp.
use lori_os.Prelude.{ℕ, ◌≡◌, refl, List, Bool, true, false, Option, none, some}
use mathlib.Core.Logic.{◌⊎◌}
use lori_os.Path.Nodes.{Walk, found, missing, overflow}
use lori_os.Path.Nodes.Rename.{
  Errno, enoent, Methods, Result, fault, returns, or_return, or_enoent, asserted, perhaps, refuse,
  choose,
}

-- What a call returns satisfies `P`.
pub data Ends {σ : Type 0} (P : Option Errno → σ → Type 0) : Result σ → Type 0 where
  faults : Ends P fault
  ended : (o : Option Errno) (s : σ) → P o s → Ends P (returns o s)

module _ {σ : Type 0} (P : Option Errno → σ → Type 0) where
  pub Ends-or_return :
      (r : Option Errno × σ) (next : σ → Result σ)
      → ((e : Errno) → r.0 ≡ some e → Ends P (returns (some e) r.1))
      → (r.0 ≡ none → Ends P (next r.1))
      → Ends P (or_return r next)
  unfolding or_return
  Ends-or_return (none, s) next failed passed = passed refl
  Ends-or_return (some e, s) next failed passed = failed e refl

  pub Ends-or_enoent :
      (w : Walk) (s : σ) (next : ℕ → Result σ)
      → Ends P (returns (some enoent) s)
      → ((n : ℕ) → w ≡ found n → Ends P (next n))
      → Ends P (or_enoent w s next)
  unfolding or_enoent
  Ends-or_enoent (found n) s next failed passed = passed n refl
  Ends-or_enoent missing s next failed passed = failed
  Ends-or_enoent overflow s next failed passed = faults

  pub Ends-asserted :
      (w : Walk) (next : ℕ → Result σ)
      → ((n : ℕ) → w ≡ found n → Ends P (next n))
      → Ends P (asserted w next)
  unfolding asserted
  Ends-asserted (found n) next passed = passed n refl
  Ends-asserted missing next passed = faults
  Ends-asserted overflow next passed = faults

  pub Ends-perhaps :
      (w : Walk) (next : Option ℕ → Result σ)
      → ((n : ℕ) → w ≡ found n → Ends P (next (some n)))
      → (w ≡ missing → Ends P (next none))
      → Ends P (perhaps w next)
  unfolding perhaps
  Ends-perhaps (found n) next there none_there = there n refl
  Ends-perhaps missing next there none_there = none_there refl
  Ends-perhaps overflow next there none_there = faults

  pub Ends-refuse :
      (b : Bool) (e : Errno) (s : σ) (next : Result σ)
      → Ends P (returns (some e) s)
      → (b ≡ false → Ends P next)
      → Ends P (refuse b e s next)
  unfolding refuse
  Ends-refuse true e s next failed passed = failed
  Ends-refuse false e s next failed passed = passed refl

  pub Ends-choose :
      (b : Bool) (x y : Result σ)
      → (b ≡ true → Ends P x)
      → (b ≡ false → Ends P y)
      → Ends P (choose b x y)
  unfolding choose
  Ends-choose true x y p q = p refl
  Ends-choose false x y p q = q refl

-- An operation of the nodes that returns an error changed nothing.
pub record KeepsOnError {σ : Type 0} (m : Methods σ) : Type 0 where
  pub link_keeps :
      (s : σ) (dir file : ℕ) (name : List ℕ) (e : Errno)
      → (m.link s dir file name).0 ≡ some e
      → (m.link s dir file name).1 ≡ s
  pub unlink_keeps :
      (s : σ) (dir : ℕ) (name : List ℕ) (e : Errno)
      → (m.unlink s dir name).0 ≡ some e
      → (m.unlink s dir name).1 ≡ s

module _ {σ : Type 0} (m : Methods σ) where
  -- The file got its new name, and then its old one could not be removed.
  pub record BothNames (s : σ) (e : Errno) (s' : σ) : Type 0 where
    pub parent : ℕ
    pub file : ℕ
    pub name : List ℕ
    pub old_parent : ℕ
    pub old_name : List ℕ
    pub linked : (m.link s parent file name).0 ≡ none
    pub state : (m.link s parent file name).1 ≡ s'
    pub not_unlinked : (m.unlink s' old_parent old_name).0 ≡ some e

  abbrev pub Unchanged : σ → Option Errno → σ → Type 0
  Unchanged s none s' = Unit
  Unchanged s (some e) s' = (s' ≡ s) ⊎ BothNames s e s'
