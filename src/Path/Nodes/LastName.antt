-- ===== src/Path/Nodes/LastName.antt =====
-- The last name of a path in Kernel/src/FileSystem/Fs.cpp: `BaseName` and `ResolveParent` against
-- `ResolvePath`.
use lori_os.Prelude.{
  ℕ, zero, suc, ◌+◌, ◌-◌, ◌≡◌, ◌≢◌, refl, ap, ap₂, sym, ◌∙◌, List, [], ◌∷◌, ◌++◌, Bool, Bool-cases,
  inl, inr, Option, none, some, true, false, arith, if◌then◌else◌, length, take, get_or,
  length-append, append-nil,
}
use lori_os.CString.{strrchr}
use lori_os.CString.Search.{Avoids, strrchr-append}
use lori_os.CString.Tokens.{fields, keep}
use lori_os.Path.{slash, without_slash, base_name}
use lori_os.Path.Split.{IsPart, fields-append, kept}
use lori_os.Path.Nodes.{
  Nodes, Walk, missing, on_found, found_or_missing, start, resolve_path, resolve_parent,
}
use lori_os.Path.Nodes.Plain.{plain, resolve_path-plain}

keep-append : (cur : List ℕ) (r u : List (List ℕ)) → keep cur (r ++ u) ≡ keep cur r ++ u
keep-append [] r u = refl
keep-append (c ∷ cur) r u = refl

fields-behind :
    (d : ℕ) (cur s t : List ℕ) → fields d cur (s ++ (d ∷ t)) ≡ fields d cur s ++ fields d [] t
unfolding fields
fields-behind d cur [] t = ground (arith, keep-append cur [] (fields d [] t))
fields-behind d cur (x ∷ s) t = ground (
  arith,
  fields-behind d [] s t,
  fields-behind d (cur ++ (x ∷ [])) s t,
  keep-append cur (fields d [] s) (fields d [] t),
)

fields_end : (t : List ℕ) → length t ≢ 0 → fields slash t [] ≡ t ∷ []
unfolding fields
fields_end t h = kept t [] h

fields_name : (t : List ℕ) → IsPart slash t → fields slash [] t ≡ t ∷ []
fields_name t p =
    ap (fields slash []) (sym (append-nil t))
    ∙ fields-append slash [] t [] p.apart
    ∙ fields_end t p.some_byte

-- The last byte of a part is not `/`.
last_byte : (t : List ℕ) → length t ≢ 0 → Avoids slash t → get_or t (length t - 1) 0 ≢ slash
last_byte [] h a = absurd (h refl)
last_byte (x ∷ []) h (ne, a) = ne
last_byte (x ∷ (y ∷ t)) h (ne, a) =
    let further = last_byte (y ∷ t) (λ e. omega arith) a in
    let there : get_or (x ∷ (y ∷ t)) (suc (suc (length t)) - 1) 0
        ≡ get_or (y ∷ t) (suc (length t) - 1) 0 =
      ap (λ n. get_or (x ∷ (y ∷ t)) n 0) {x = suc (suc (length t)) - 1}
        {y = suc (suc (length t) - 1)} (omega arith) in
    ground arith

get_or-behind : (s t : List ℕ) (i : ℕ) → get_or (s ++ t) (length s + i) 0 ≡ get_or t i 0
get_or-behind [] t i = ap (λ n. get_or t n 0) {x = 0 + i} {y = i} (omega arith)
get_or-behind (x ∷ s) t i =
    ap (λ n. get_or (x ∷ (s ++ t)) n 0) {x = suc (length s) + i} {y = suc (length s + i)}
      (omega arith)
    ∙ get_or-behind s t i

take-front : (s t : List ℕ) (n : ℕ) → n ≡ length s → take n (s ++ t) ≡ s
take-front [] t n e = ap (λ m. take m t) e
take-front (x ∷ s) t zero e = absurd (omega arith)
take-front (x ∷ s) t (suc n) e = ap (x ∷◌) (take-front s t n (omega arith))

module _ (pre name : List ℕ) (p : IsPart slash name) where
  without_slash_name : without_slash (pre ++ (slash ∷ name)) ≡ pre ++ (slash ∷ name)
  unfolding without_slash
  without_slash_name =
      let path = pre ++ (slash ∷ name) in
      let some_byte = p.some_byte in
      let other = last_byte name p.some_byte p.apart in
      let at_end : get_or path (length path - 1) 0 ≡ get_or name (length name - 1) 0 =
        ap (λ n. get_or path n 0) {x = length path - 1} {y = length pre + suc (length name - 1)}
          (omega (arith, length-append pre (slash ∷ name)))
        ∙ get_or-behind pre (slash ∷ name) (suc (length name - 1)) in
      ground arith

  -- `BaseName` returns the last name of a path.
  pub base_name_last : base_name (pre ++ (slash ∷ name)) ≡ name
  unfolding base_name
  base_name_last =
      let found_name : strrchr (without_slash (pre ++ (slash ∷ name))) slash ≡ some name =
        ap (λ s. strrchr s slash) without_slash_name ∙ strrchr-append pre name slash p.apart in
      ground arith

  -- `ResolveParent` resolves what stands in front of the last name.
  resolve_parent_front :
      (v : Nodes) (depth dir : ℕ)
      → resolve_parent v depth (pre ++ (slash ∷ name)) dir
        ≡ resolve_path v depth pre (some dir) true
  unfolding resolve_parent
  resolve_parent_front v depth dir =
      let path = pre ++ (slash ∷ name) in
      let found_name : strrchr (without_slash path) slash ≡ some name =
        ap (λ s. strrchr s slash) without_slash_name ∙ strrchr-append pre name slash p.apart in
      let front : take (length (without_slash path) - length name - 1) (without_slash path) ≡ pre =
        ap (λ s. take (length s - length name - 1) s) without_slash_name
        ∙ take-front pre (slash ∷ name) (length path - length name - 1)
            (omega (arith, length-append pre (slash ∷ name))) in
      ground (arith, ap (λ s. resolve_path v depth s (some dir) true) front)

-- The look-up of a name in the node that a walk comes to.
pub last_in : Nodes → List ℕ → Walk → Walk
last_in v name w = on_found w (λ n.
    let there = found_or_missing (v.find_dir n name) in if v.is_directory n then there else missing)

last_on :
    (v : Nodes) (name : List ℕ) (o : Option ℕ) (k k' : ℕ → Walk)
    → ((n : ℕ) → k n ≡ last_in v name (k' n))
    → on_found (found_or_missing o) (λ n. if v.is_directory n then k n else missing)
      ≡ last_in v name
          (on_found (found_or_missing o) (λ n. if v.is_directory n then k' n else missing))
unfolding last_in on_found
last_on v name none k k' h = refl
last_on v name (some n) k k' h = elim (Bool-cases (v.is_directory n)) [
  | inl e ↦ rw e (h n)
  | inr e ↦ rw e refl
]

some_part_behind : (ts : List (List ℕ)) (t : List ℕ) → ts ++ (t ∷ []) ≢ []
some_part_behind [] t e = cc
some_part_behind (u ∷ ts) t e = cc

some_byte_of : (s : List ℕ) → fields slash [] s ≢ [] → length s ≢ 0
unfolding fields
some_byte_of [] h e = h refl
some_byte_of (x ∷ s) h e = omega arith

plain_last :
    (v : Nodes) (name : List ℕ) (dir : ℕ) (names : List (List ℕ))
    → names ≢ []
    → plain v dir (names ++ (name ∷ [])) ≡ last_in v name (plain v dir names)
unfolding plain on_found last_in
plain_last v name dir [] h = absurd (h refl)
plain_last v name dir (t ∷ []) h = refl
plain_last v name dir (t ∷ (u ∷ names)) h =
    last_on v name (v.find_dir dir t) _ _ (λ n. plain_last v name n (u ∷ names) (λ e. cc))

start-append :
    (v : Nodes) (pre t : List ℕ) (dir : Option ℕ)
    → length pre ≢ 0
    → start v (pre ++ t) dir ≡ start v pre dir
unfolding start
start-append v [] t dir h = absurd (h refl)
start-append v (x ∷ pre) t none h = refl
start-append v (x ∷ pre) t (some d) h = refl

-- Where no node is a symbolic link, `ResolvePath` of a path that ends in a name looks up the name that
-- `BaseName` returns in the node that `ResolveParent` returns, which must be a directory. It holds if the
-- path has another part in front of the name.
pub resolve_path-resolve_parent :
    (v : Nodes) (depth dir : ℕ) (follow : Bool) (pre name : List ℕ)
    → ((n : ℕ) → v.is_symlink n ≡ false)
    → IsPart slash name
    → fields slash [] pre ≢ []
    → resolve_path v (suc depth) (pre ++ (slash ∷ name)) (some dir) follow
      ≡ last_in v
          (base_name (pre ++ (slash ∷ name)))
          (resolve_parent v (suc depth) (pre ++ (slash ∷ name)) dir)
resolve_path-resolve_parent v depth dir follow pre name no_links p some_part =
    let path = pre ++ (slash ∷ name) in
    let parts : fields slash [] path ≡ fields slash [] pre ++ (name ∷ []) =
      fields-behind slash [] pre name ∙ ap (fields slash [] pre ++◌) (fields_name name p) in
    resolve_path-plain v no_links depth path (some dir) follow
      (λ e. some_part_behind (fields slash [] pre) name (sym parts ∙ e))
    ∙ ap₂ (plain v) (start-append v pre (slash ∷ name) (some dir) (some_byte_of pre some_part))
        parts
    ∙ plain_last v name (start v pre (some dir)) (fields slash [] pre) some_part
    ∙ ap₂ (last_in v) (sym (base_name_last pre name p)) (
        sym (resolve_path-plain v no_links depth pre (some dir) true some_part)
        ∙ sym (resolve_parent_front pre name p v (suc depth) dir))
