-- ===== src/Http/Cookie/Expiry.antt =====
-- `Max-Age` of zero or less, and the domain that a cookie is stored under.
use rust_fox.Prelude.{
  ℕ, zero, suc, ◌≡◌, refl, inl, inr, List, [], ◌∷◌, ◌++◌, Option, none, some, Bool-cases,
  Option-cases, list_eq, nat_eq, arith,
}
use rust_fox.Prelude.Int.{ℤ, pos, negsuc, pos_part}
use rust_fox.Prelude.Number.{parse_i64}
use rust_fox.Prelude.Text.{Text, codes, is_empty, split, split_once, trim}
use rust_fox.Core.External.{CaseMaps}
use rust_fox.Http.Cookie.{
  StoredCookie, Jar, set_attribute, set_attributes, attribute, set_max_age, parse_set_cookie, store,
}

module _ (cases : CaseMaps) (parse_date : Text → Option ℕ) (now : ℕ) where
  set_max_age-expired :
      (z : ℤ) (c : StoredCookie)
      → pos_part z ≡ 0
      → set_max_age cases parse_date now (some z) c ≡ none
  set_max_age-expired (negsuc n) c h = refl
  set_max_age-expired (pos zero) c h = refl
  set_max_age-expired (pos (suc n)) c h = absurd (omega arith)

  set_attribute-max_age :
      (v : Text) (z : ℤ) (c : StoredCookie)
      → parse_i64 v ≡ some z
      → pos_part z ≡ 0
      → set_attribute cases parse_date now (codes "max-age") v c ≡ none
  unfolding set_attribute
  set_attribute-max_age v z c p h = rw p (set_max_age-expired z c h)

  set_attributes-max_age :
      (before after : List Text) (attr v : Text) (z : ℤ) (c : StoredCookie)
      → attribute cases parse_date now attr ≡ (codes "max-age", v)
      → parse_i64 v ≡ some z
      → pos_part z ≡ 0
      → set_attributes cases parse_date now (before ++ attr ∷ after) c ≡ none
  unfolding set_attributes
  set_attributes-max_age [] after attr v z c a p h =
      rw (a, set_attribute-max_age v z c p h, set_attributes) refl
  set_attributes-max_age (b ∷ before) after attr v z c a p h =
      elim (Option-cases (
        set_attribute cases parse_date now (attribute cases parse_date now b).0
          (attribute cases parse_date now b).1 c)) [
            | inl e ↦ rw (e, set_attributes) refl
            | inr (c', e) ↦
                rw (e, set_attributes) (set_attributes-max_age before after attr v z c' a p h)
          ]

  -- A `Set-Cookie` line with a `Max-Age` of zero or less, wherever it stands among the attributes,
  -- changes nothing: a cookie of that name that the jar already holds stays there and goes on to
  -- be sent.
  pub store-max_age :
      (line first : Text) (before after : List Text) (attr v : Text) (z : ℤ) (host : Option Text)
      (jar : Jar)
      → split b';' line ≡ first ∷ (before ++ attr ∷ after)
      → attribute cases parse_date now attr ≡ (codes "max-age", v)
      → parse_i64 v ≡ some z
      → pos_part z ≡ 0
      → store cases parse_date now line host jar ≡ jar
  unfolding store parse_set_cookie
  store-max_age line first before after attr v z host jar s a p h =
      elim (Option-cases (split_once (codes "=") (trim first))) [
        | inl e ↦ rw (s, e, store, parse_set_cookie) refl
        | inr ((name, value), e) ↦ elim (Bool-cases (is_empty (trim name))) [
          | inl blank ↦ rw (s, e, blank, store, parse_set_cookie) refl
          | inr named ↦
              rw
                (
                  s,
                  e,
                  named,
                  set_attributes-max_age before after attr v z _ a p h,
                  store,
                  parse_set_cookie,
                )
                refl
        ]
      ]
