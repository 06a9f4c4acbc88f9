-- ===== src/Oauth.antt =====
-- fox-oauth/src/cache.rs and client.rs: the cache of tokens, and the access token of a request. Times are
-- in milliseconds. The network is a parameter; the callers that run while a call waits for the lock of its
-- key may change the cache in any way. A mutex that is poisoned is left out.
pub mod Fresh
mod Tests
use rust_fox.Prelude.{
  ℕ, ◌+◌, ◌*◌, Bool, true, false, not, ◌&&◌, List, [], ◌∷◌, Option, none, some, leb, if◌then◌else◌,
  list_eq, nat_eq, pair_eq,
}
use rust_fox.Prelude.Dict.{Dict, get, insert, remove}
use rust_fox.Prelude.Text.{Text, codes, is_empty, trim}
use rust_fox.Core.Model.{OAuth2Token, AuthSpec, oauth2}

abbrev pub Key : Type 0
Key = Text × Text

abbrev pub Cache : Type 0
Cache = Dict Key OAuth2Token

unfoldable pub cached_token : (client_id token_url : Text) → Cache → Option OAuth2Token
unfolding get
cached_token client_id token_url cache = get (client_id, token_url) cache

unfoldable pub store_token : (client_id token_url : Text) → OAuth2Token → Cache → Cache
unfolding insert
store_token client_id token_url token cache = insert (client_id, token_url) token cache

unfoldable pub clear_token : (client_id token_url : Text) → Cache → Cache
unfolding remove
clear_token client_id token_url cache = remove (client_id, token_url) cache

unfoldable pub is_expired : (now : ℕ) → OAuth2Token → Bool
is_expired now t = leb t.expires_at now

unfoldable pub expires_within : (threshold now : ℕ) → OAuth2Token → Bool
expires_within threshold now t = leb t.expires_at (now + threshold)

abbrev pub refresh_ahead : ℕ
refresh_ahead = 60 * 1000

-- Neither expired nor about to.
abbrev pub is_valid : (now : ℕ) → OAuth2Token → Bool
is_valid now t = not (is_expired now t) && not (expires_within refresh_ahead now t)

pub record OAuth2Fields : Type 0 where
  pub client_id : Text
  pub client_secret : Text
  pub auth_url : Text
  pub token_url : Text
  pub scope : Text
  pub redirect_uri : Text

-- `OAuth2Error`, without the texts but for those of the network.
pub data OAuth2Error : Type 0 where
  no_oauth2 no_client_id no_token_url : OAuth2Error
  unauthorized no_refresh_token : OAuth2Error
  network : Text → OAuth2Error

pub data Result (A : Type 0) : Type 0 where
  ok : A → Result A
  err : OAuth2Error → Result A

abbrev pub default_redirect_uri : Text
default_redirect_uri = codes "http://127.0.0.1:9090/callback"

unfoldable pub oauth2_fields : AuthSpec → Result OAuth2Fields
unfolding trim
oauth2_fields (oauth2 client_id client_secret auth_url token_url scope redirect_uri token) =
    if is_empty (trim client_id)
    then err no_client_id
    else if is_empty (trim token_url)
    then err no_token_url
    else ok (record {
      client_id = client_id;
      client_secret = client_secret;
      auth_url = auth_url;
      token_url = token_url;
      scope = scope;
      redirect_uri = if is_empty (trim redirect_uri) then default_redirect_uri else redirect_uri;
    })
oauth2_fields _ = err no_oauth2

abbrev pub embedded : AuthSpec → Option OAuth2Token
embedded (oauth2 client_id client_secret auth_url token_url scope redirect_uri token) = token
embedded _ = none

-- `exchange_refresh`: the answer of the token endpoint to a refresh token.
abbrev pub Exchange : Type 0
Exchange = OAuth2Fields → (refresh_token : Text) → Result OAuth2Token

module _ (exchange : Exchange) where
  -- A refresh that worked is stored.
  abbrev pub exchanged : OAuth2Fields → Result OAuth2Token → Cache → Result Text × Cache
  exchanged fields (err e) cache = (err e, cache)
  exchanged fields (ok fresh) cache =
      (ok fresh.access_token, store_token fields.client_id fields.token_url fresh cache)

  abbrev pub refresh : OAuth2Fields → (refresh_token : Option Text) → Cache → Result Text × Cache
  refresh fields none cache = (err no_refresh_token, cache)
  refresh fields (some r) cache = exchanged fields (exchange fields r) cache

  -- With the lock held, at the time `now`: another caller may have refreshed the token meanwhile.
  abbrev pub rechecked :
      (now : ℕ)
      → OAuth2Fields
      → (expired : OAuth2Token) → Option OAuth2Token
      → Cache
      → Result Text × Cache
  rechecked now fields expired none cache = refresh fields expired.refresh_token cache
  rechecked now fields expired (some t) cache =
      if is_valid now t
      then (ok t.access_token, cache)
      else refresh fields expired.refresh_token cache

  unfoldable pub refresh_with_dedupe :
      (now : ℕ) → OAuth2Fields → (expired : OAuth2Token) → Cache → Result Text × Cache
  unfolding store_token is_expired expires_within
  refresh_with_dedupe now fields expired cache =
      rechecked now fields expired (cached_token fields.client_id fields.token_url cache) cache

  -- The embedded token goes to a cache that has none.
  abbrev pub seeded : OAuth2Fields → Option OAuth2Token → Cache → Cache
  seeded fields none cache = cache
  seeded fields (some t) cache = elim (cached_token fields.client_id fields.token_url cache) [
    | none ↦ store_token fields.client_id fields.token_url t cache
    | some _ ↦ cache
  ]

  -- `now` is the time of the call, `locked` that at which it gets the lock, and `others` what the other callers
  -- did to the cache in between.
  abbrev pub decided :
      (now locked : ℕ) (others : Cache → Cache)
      → OAuth2Fields
      → Option OAuth2Token
      → Cache
      → Result Text × Cache
  decided now locked others fields none cache = (err unauthorized, cache)
  decided now locked others fields (some t) cache =
      if is_valid now t
      then (ok t.access_token, cache)
      else refresh_with_dedupe locked fields t (others cache)

  abbrev pub with_fields :
      (now locked : ℕ) (others : Cache → Cache)
      → AuthSpec
      → Result OAuth2Fields
      → Cache
      → Result Text × Cache
  with_fields now locked others auth (err e) cache = (err e, cache)
  with_fields now locked others auth (ok fields) cache =
      let cache' = seeded fields (embedded auth) cache in
      decided now locked others fields (cached_token fields.client_id fields.token_url cache')
        cache'

  unfoldable pub access_token_for :
      (now locked : ℕ) (others : Cache → Cache) → AuthSpec → Cache → Result Text × Cache
  unfolding oauth2_fields refresh_with_dedupe
  access_token_for now locked others auth cache =
      with_fields now locked others auth (oauth2_fields auth) cache
