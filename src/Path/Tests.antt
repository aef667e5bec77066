-- ===== src/Path/Tests.antt =====
-- Runs of the operations on paths.
use lori_os.Prelude.{ℕ, ◌≡◌, refl, List, [], ◌∷◌, none, some, arith}
use lori_os.CString.{strcmp_eq, strrchr, strrchr_from, strspn, strcspn, strchr, strtok_r}
use lori_os.CString.Search.{Avoids}
use lori_os.CString.Tokens.{fields, tokens, tokens_from}
use lori_os.Path.{
  split, remove_at, canonical_round, canonical_loop, canonical_tokens, out_path, full_path,
  canonicalize_path, without_slash, base_name, slash, dotdot,
}
use lori_os.Path.Split.{split-tokens}
use lori_os.Path.Canonical.{enter, resolved, Stays, canonicalize_path-resolved}
use lori_os.Path.Canonical.Names.{Names, IsName, canonicalize_path-Names, canonical_tokens_above}

-- "/a/./b/../c"
abbrev path : List ℕ
path = 47 ∷ 97 ∷ 47 ∷ 46 ∷ 47 ∷ 98 ∷ 47 ∷ 46 ∷ 46 ∷ 47 ∷ 99 ∷ []

path-Stays : Stays [] (fields slash [] (full_path path none))
unfolding fields full_path strcmp_eq enter
path-Stays =
    ((λ e. refl), ((λ e. refl), ((λ e. refl), ((λ e. absurd (omega arith)), ((λ e. refl), tt)))))

path-Avoids : Avoids 0 (full_path path none)
unfolding full_path
path-Avoids = omega arith

canonicalize_path_test : canonicalize_path path none ≡ 47 ∷ 97 ∷ 47 ∷ 99 ∷ []
unfolding canonicalize_path canonical_tokens canonical_loop canonical_round remove_at full_path
    strcmp_eq tokens tokens_from strtok_r strspn strcspn strchr
canonicalize_path_test = refl

-- "a" in "/b"
full_path_test : full_path (97 ∷ []) (some (47 ∷ 98 ∷ [])) ≡ 47 ∷ 98 ∷ 47 ∷ 97 ∷ []
unfolding full_path
full_path_test = refl

-- "/a/b/"
base_name_test : base_name (47 ∷ 97 ∷ 47 ∷ 98 ∷ 47 ∷ []) ≡ 98 ∷ []
unfolding base_name without_slash strrchr strrchr_from
base_name_test = refl

split-tokens_example : split path slash ≡ tokens path (slash ∷ [])
split-tokens_example = split-tokens path slash (omega arith)

canonicalize_path-resolved_example :
    canonicalize_path path none ≡ out_path (resolved [] (fields slash [] (full_path path none)))
canonicalize_path-resolved_example = canonicalize_path-resolved path none path-Avoids path-Stays

canonicalize_path-Names_example :
    Names (split (canonicalize_path path none) slash)
    × (canonicalize_path (canonicalize_path path none) none ≡ canonicalize_path path none)
canonicalize_path-Names_example = canonicalize_path-Names path none path-Avoids path-Stays

a-IsName : IsName (97 ∷ [])
unfolding strcmp_eq
a-IsName = record {
  part = record { some_byte = omega arith; apart = omega arith };
  text = omega arith;
  not_dot = refl;
  not_dotdot = refl;
}

canonical_tokens_above_example :
    canonical_tokens (dotdot ∷ (dotdot ∷ ((97 ∷ []) ∷ []))) ≡ dotdot ∷ ((97 ∷ []) ∷ [])
canonical_tokens_above_example = canonical_tokens_above ((97 ∷ []) ∷ []) (a-IsName, tt)
