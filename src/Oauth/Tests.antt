-- ===== src/Oauth/Tests.antt =====
-- A token that expired and is refreshed.
use rust_fox.Prelude.{ℕ, ◌≡◌, refl, [], some, list_eq, nat_eq, pair_eq}
use rust_fox.Prelude.Text.{Text, codes, trim}
use rust_fox.Core.Model.{OAuth2Token, AuthSpec, oauth2}
use rust_fox.Oauth.{
  Cache, OAuth2Fields, Exchange, ok, oauth2_fields, cached_token, access_token_for,
}
use rust_fox.Oauth.Fresh.{IsJustified, access_token_for-IsJustified}

abbrev token : (access : Text) (expires : ℕ) → OAuth2Token
token access expires = record {
  access_token = access;
  token_type = codes "Bearer";
  refresh_token = some (codes "r1");
  expires_at = expires;
}

abbrev issue : Exchange
issue fields r = ok (token (codes "new") 900000)

abbrev auth : AuthSpec
auth =
    oauth2 (codes "id") (codes "secret") [] (codes "https://t") [] []
      (some (token (codes "old") 1000))

abbrev fields : OAuth2Fields
fields = record {
  client_id = codes "id";
  client_secret = codes "secret";
  auth_url = [];
  token_url = codes "https://t";
  scope = [];
  redirect_uri = codes "http://127.0.0.1:9090/callback";
}

complete : oauth2_fields auth ≡ ok fields
unfolding oauth2_fields trim
complete = refl

abbrev untouched : Cache → Cache
untouched cache = cache

refreshed : (access_token_for issue 2000 2001 untouched auth []).0 ≡ ok (codes "new")
unfolding access_token_for trim cached_token
refreshed = refl

access_token_for-IsJustified_example :
    IsJustified issue 2000 2001 fields (access_token_for issue 2000 2001 untouched auth [])
access_token_for-IsJustified_example =
    access_token_for-IsJustified issue 2000 2001 untouched auth fields [] complete
