-- ===== src/Oauth/Fresh.antt =====
-- The access token that a request gets is valid or has just been issued; and an expired token's refresh.
use rust_fox.Prelude.{
  ℕ, ◌≡◌, ◌⊎◌, refl, sym, inl, inr, true, Option, none, some, Bool-cases, list_eq, nat_eq, pair_eq,
}
use mathlib.Core.Path.{subst}
use rust_fox.Prelude.Dict.{get-insert_self}
use rust_fox.Prelude.Text.{Text}
use rust_fox.Core.Model.{OAuth2Token, AuthSpec}
use rust_fox.Oauth.{
  Cache, cached_token, store_token, is_valid, OAuth2Fields, Result, ok, err, oauth2_fields,
  embedded, Exchange, exchanged, refresh, rechecked, refresh_with_dedupe, seeded, decided,
  with_fields, access_token_for,
}

-- A token of the cache that is valid at one of the two times, or one that the endpoint has just issued; the
-- cache holds it either way.
pub record IsFresh (exchange : Exchange) (now locked : ℕ) (fields : OAuth2Fields) (access : Text)
    (cache : Cache) : Type 0 where
  pub token : OAuth2Token
  pub handed : token.access_token ≡ access
  pub held : cached_token fields.client_id fields.token_url cache ≡ some token
  pub reason :
      (is_valid now token ≡ true)
      ⊎ (is_valid locked token ≡ true)
      ⊎ ((refresh_token : Text) × (exchange fields refresh_token ≡ ok token))

-- What a result of the call stands for.
abbrev pub IsJustified :
    (exchange : Exchange) (now locked : ℕ) (fields : OAuth2Fields) → Result Text × Cache → Type 0
IsJustified exchange now locked fields (ok access, cache) =
    IsFresh exchange now locked fields access cache
IsJustified exchange now locked fields (err e, cache) = Unit

module _ (exchange : Exchange) (now locked : ℕ) where
  refresh-IsJustified :
      (fields : OAuth2Fields) (r : Option Text) (cache : Cache)
      → IsJustified exchange now locked fields (refresh exchange fields r cache)
  refresh-IsJustified fields none cache = tt
  refresh-IsJustified fields (some r) cache = answered (exchange fields r) refl
    where
      answered :
          (a : Result OAuth2Token)
          → exchange fields r ≡ a
          → IsJustified exchange now locked fields (exchanged exchange fields a cache)
      answered (err e) h = tt
      answered (ok t) h = record {
        token = t;
        handed = refl;
        held =
            unfold cached_token store_token in
            get-insert_self (fields.client_id, fields.token_url) t cache;
        reason = inr (inr (r, h));
      }

  refresh_with_dedupe-IsJustified :
      (fields : OAuth2Fields) (expired : OAuth2Token) (cache : Cache)
      → IsJustified exchange now locked fields
          (refresh_with_dedupe exchange locked fields expired cache)
  unfolding refresh_with_dedupe
  refresh_with_dedupe-IsJustified fields expired cache =
      looked_up (cached_token fields.client_id fields.token_url cache) refl
    where
      looked_up :
          (o : Option OAuth2Token)
          → cached_token fields.client_id fields.token_url cache ≡ o
          → IsJustified exchange now locked fields
              (rechecked exchange locked fields expired o cache)
      looked_up none h = refresh-IsJustified fields expired.refresh_token cache
      looked_up (some t) h = elim (Bool-cases (is_valid locked t)) [
        | inl valid ↦
            rw valid (record { token = t; handed = refl; held = h; reason = inr (inl valid) })
        | inr stale ↦ rw stale (refresh-IsJustified fields expired.refresh_token cache)
      ]

  decided-IsJustified :
      (others : Cache → Cache) (fields : OAuth2Fields) (o : Option OAuth2Token) (cache : Cache)
      → cached_token fields.client_id fields.token_url cache ≡ o
      → IsJustified exchange now locked fields (decided exchange now locked others fields o cache)
  decided-IsJustified others fields none cache h = tt
  decided-IsJustified others fields (some t) cache h = elim (Bool-cases (is_valid now t)) [
    | inl valid ↦ rw valid (record { token = t; handed = refl; held = h; reason = inl valid })
    | inr stale ↦ rw stale (refresh_with_dedupe-IsJustified fields t (others cache))
  ]

  -- An access token that a call gives to a request whose OAuth2 settings are complete is that of a token that
  -- the cache then holds, and this token is neither expired nor about to expire, at the time of the call or when
  -- the call gets the lock, or the endpoint has just issued it for a refresh token; whatever other callers do to
  -- the cache meanwhile.
  pub access_token_for-IsJustified :
      (others : Cache → Cache) (auth : AuthSpec) (fields : OAuth2Fields) (cache : Cache)
      → oauth2_fields auth ≡ ok fields
      → IsJustified exchange now locked fields
          (access_token_for exchange now locked others auth cache)
  unfolding access_token_for
  access_token_for-IsJustified others auth fields cache h =
      let cache' = seeded exchange fields (embedded auth) cache in
      subst
        (λ r.
          IsJustified exchange now locked fields
            (with_fields exchange now locked others auth r cache))
        (sym h)
        (decided-IsJustified others fields (cached_token fields.client_id fields.token_url cache')
          cache' refl)
