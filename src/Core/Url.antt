-- ===== src/Core/Url.antt =====
-- fox-core/src/util.rs: path variables, the joining of a base URL and a path, and the test for JSON.
pub mod Joined
use rust_fox.Prelude.{
  ℕ, zero, suc, ◌-◌, Bool, false, ◌||◌, List, [], ◌∷◌, ◌++◌, Option, none, some, length, leb, eqb,
  if◌then◌else◌, ◌==◌, list_eq, nat_eq,
}
use rust_fox.Prelude.Dict.{Dict}
use rust_fox.Prelude.Sort.{sort_by}
use rust_fox.Prelude.Text.{
  Text, codes, is_empty, utf8_len, trim, trim_start_matches, trim_end_matches, starts_with,
  ends_with, split,
}

unfoldable pub is_absolute_url : Text → Bool
unfolding trim
is_absolute_url s =
    let t = trim s in starts_with t (codes "http://") || starts_with t (codes "https://")

-- `s.replace(pat, value)` for a pattern that is not empty: occurrences from left to right that do
-- not overlap. `skipped` characters of the occurrence before are still to be passed over.
unfoldable pub replace_from : (skipped : ℕ) (pat value : Text) → Text → Text
replace_from skipped pat value [] = []
replace_from (suc k) pat value (c ∷ s) = replace_from k pat value s
replace_from zero pat value (c ∷ s) =
    let behind = replace_from (length pat - 1) pat value s in
    let further = replace_from zero pat value s in
    if starts_with (c ∷ s) pat then value ++ behind else c ∷ further

abbrev pub replace : (pat value : Text) → Text → Text
replace = replace_from 0

-- `{{key}}` and `{key}`
abbrev pub double_braced : Text → Text
double_braced key = codes "{{" ++ (key ++ codes "}}")

abbrev pub single_braced : Text → Text
single_braced key = codes "{" ++ (key ++ codes "}")

-- The loop over the keys, each with its value.
unfoldable pub replace_all : List (Text × Text) → Text → Text
unfolding replace_from
replace_all [] result = result
replace_all ((key, value) ∷ vars) result =
    replace_all vars (replace (single_braced key) value (replace (double_braced key) value result))

-- `sort_by_key(|k| Reverse(k.len()))`
abbrev pub longer_first : Text × Text → Text × Text → Bool
longer_first p q = leb (utf8_len q.0) (utf8_len p.0)

unfoldable pub replace_path_variables : (path : Text) → Dict Text Text → Text
unfolding sort_by replace_all
replace_path_variables path path_vars = replace_all (sort_by longer_first path_vars) path

-- The text before the slash: nothing without a base.
unfoldable pub base_part : Option Text → Text
unfolding trim trim_end_matches
base_part none = []
base_part (some base) = trim_end_matches (λ c. eqb c b'/') (trim base)

unfoldable pub build_url : (base_url : Option Text) (path : Text) → Dict Text Text → Text
unfolding replace_path_variables is_absolute_url base_part trim trim_start_matches
build_url base_url path path_vars =
    let rendered = replace_path_variables path path_vars in
    let p = trim_start_matches (λ c. eqb c b'/') (trim rendered) in
    if is_absolute_url rendered then rendered else base_part base_url ++ b'/' ∷ p

abbrev first_part : List Text → Text
first_part [] = []
first_part (p ∷ ps) = p

unfoldable pub is_json_content_type : Text → Bool
unfolding split trim
is_json_content_type content_type =
    let ct = trim (first_part (split b';' content_type)) in
    ct == codes "application/json" || ct == codes "text/json" || ends_with ct (codes "+json")
