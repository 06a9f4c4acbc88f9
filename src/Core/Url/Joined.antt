-- ===== src/Core/Url/Joined.antt =====
-- The URL that is built, and the paths without variables.
use mathlib.Core.List.{reverse, reverse-reverse, reverse-append, reverse-cons}
use rust_fox.Prelude.{
  ℕ, ◌≡◌, refl, sym, ap, ◌∙◌, inl, inr, ◌⊎◌, All, All-append, Option-cases, Bool, true, false, [],
  ◌∷◌, ◌++◌, Option, none, some, eqb, if◌then◌else◌, Bool-cases, arith, list_eq, nat_eq,
}
use rust_fox.Prelude.Dict.{Dict}
use rust_fox.Prelude.Text.{
  Text, codes, trim, trim_start_matches, trim_end_matches, starts_with, ends_with, strip_prefix,
  strip_suffix,
}
use rust_fox.Core.Url.{is_absolute_url, replace_path_variables, base_part, build_url}

starts_with-trim_start_matches :
    (c : ℕ) (s : Text) → starts_with (trim_start_matches (λ d. eqb d c) s) (c ∷ []) ≡ false
unfolding trim_start_matches strip_prefix
starts_with-trim_start_matches c [] = refl
starts_with-trim_start_matches c (d ∷ s) = ground (arith, starts_with-trim_start_matches c s)

ends_with-starts_with : (s p : Text) → ends_with s p ≡ starts_with (reverse s) (reverse p)
unfolding strip_suffix
ends_with-starts_with s p = elim (Option-cases (strip_prefix (reverse p) (reverse s))) [
  | inl e ↦ rw (e, ends_with, starts_with) refl
  | inr (r, e) ↦ rw (e, ends_with, starts_with) refl
]

ends_with-trim_end_matches :
    (c : ℕ) (s : Text) → ends_with (trim_end_matches (λ d. eqb d c) s) (c ∷ []) ≡ false
unfolding trim_end_matches
ends_with-trim_end_matches c s =
    ends_with-starts_with (reverse (trim_start_matches (λ d. eqb d c) (reverse s))) (c ∷ [])
    ∙ rw reverse-reverse (starts_with-trim_start_matches c (reverse s))

abbrev pub IsSlashes : Text → Type 0
IsSlashes = All (λ c. c ≡ b'/')

reverse-IsSlashes : (s : Text) → IsSlashes s → IsSlashes (reverse s)
reverse-IsSlashes [] h = tt
reverse-IsSlashes (c ∷ s) (p, h) =
    rw reverse-cons (All-append _ (reverse s) (c ∷ []) (reverse-IsSlashes s h) (p, tt))

abbrev is_slash : ℕ → Bool
is_slash c = eqb c b'/'

trim_start_matches-IsSlashes :
    (s : Text) → (lead : Text) × (s ≡ lead ++ trim_start_matches is_slash s) × IsSlashes lead
unfolding trim_start_matches
trim_start_matches-IsSlashes [] = ([], refl, tt)
trim_start_matches-IsSlashes (c ∷ s) = elim (Bool-cases (is_slash c)) [
  | inl same ↦
      let (lead, e, h) = trim_start_matches-IsSlashes s in
      (c ∷ lead, rw (same, if◌then◌else◌) (ap (◌∷◌ c) e), (ground arith, h))
  | inr apart ↦ ([], rw apart refl, tt)
]

trim_end_matches-IsSlashes :
    (s : Text) → (trail : Text) × (s ≡ trim_end_matches is_slash s ++ trail) × IsSlashes trail
unfolding trim_end_matches
trim_end_matches-IsSlashes s =
    let (lead, e, h) = trim_start_matches-IsSlashes (reverse s) in
    (
      reverse lead,
      sym (reverse-reverse s)
          ∙ ap reverse e
          ∙ reverse-append lead (trim_start_matches is_slash (reverse s)),
      reverse-IsSlashes lead h,
    )

abbrev trimmed_base : Option Text → Text
trimmed_base none = []
trimmed_base (some base) = trim base

-- One slash stands between what is left of the base and of the path, which do not end and begin
-- with another: they are the trimmed base and path without the slashes at the joint.
pub record IsJoined (base_url : Option Text) (rendered url : Text) : Type 0 where
  pub head : Text
  pub tail : Text
  pub trail : Text
  pub lead : Text
  pub is_split : url ≡ head ++ b'/' ∷ tail
  pub from_base : trimmed_base base_url ≡ head ++ trail
  pub from_path : trim rendered ≡ lead ++ tail
  pub only_slashes : IsSlashes trail × IsSlashes lead
  pub head_end : ends_with head (codes "/") ≡ false
  pub tail_start : starts_with tail (codes "/") ≡ false

base_part-IsSlashes :
    (base_url : Option Text)
    → (trail : Text) × (trimmed_base base_url ≡ base_part base_url ++ trail) × IsSlashes trail
unfolding base_part
base_part-IsSlashes none = ([], refl, tt)
base_part-IsSlashes (some base) = trim_end_matches-IsSlashes (trim base)

ends_with-base_part : (base_url : Option Text) → ends_with (base_part base_url) (codes "/") ≡ false
unfolding base_part strip_suffix strip_prefix
ends_with-base_part none = refl
ends_with-base_part (some base) = ends_with-trim_end_matches b'/' (trim base)

-- A rendered path that is an absolute URL is taken as it is, whatever the base is; any other is
-- joined to the base by exactly one slash, and nothing but white space at the ends and slashes at
-- the joint is dropped.
pub build_url-IsJoined :
    (base_url : Option Text) (path : Text) (path_vars : Dict Text Text)
    → ((is_absolute_url (replace_path_variables path path_vars) ≡ true)
        × (build_url base_url path path_vars ≡ replace_path_variables path path_vars))
      ⊎ IsJoined base_url
          (replace_path_variables path path_vars)
          (build_url base_url path path_vars)
unfolding build_url
build_url-IsJoined base_url path path_vars =
    let rendered = replace_path_variables path path_vars in
    elim (Bool-cases (is_absolute_url rendered)) [
      | inl absolute ↦ inl (absolute, rw absolute refl)
      | inr other ↦
          let (trail, e, h) = base_part-IsSlashes base_url in
          let (lead, f, k) = trim_start_matches-IsSlashes (trim rendered) in
          inr (record {
            head = base_part base_url;
            tail = trim_start_matches is_slash (trim rendered);
            trail = trail;
            lead = lead;
            is_split = rw other refl;
            from_base = e;
            from_path = f;
            only_slashes = (h, k);
            head_end = ends_with-base_part base_url;
            tail_start = starts_with-trim_start_matches b'/' (trim rendered);
          })
    ]
