-- ===== src/Http/Tests.antt =====
-- Runs of the cookie jar on concrete inputs.
use rust_fox.Prelude.{
  ℕ, ◌+◌, ◌≡◌, refl, true, false, [], ◌∷◌, Option, none, some, keep, map, length, list_eq, nat_eq,
}
use rust_fox.Prelude.Dict.{get}
use rust_fox.Prelude.Int.{pos}
use rust_fox.Prelude.Number.{parse_i64}
use rust_fox.Prelude.Text.{Text, codes, split, split_once, trim}
use rust_fox.Core.Samples.{ascii}
use rust_fox.Http.Cookie.Expiry.{store-max_age}
use rust_fox.Http.Cookie.Jar.{IsJar, cookies, store-IsJar}
use rust_fox.Http.Cookie.Refines.{
  sendable, remains, survives, collect-sendable, clear_domain-survives,
}
use rust_fox.Http.Cookie.{StoredCookie, Jar, store, attribute, collect, clear_domain, pair_text}

abbrev no_date : Text → Option ℕ
no_date s = none

abbrev session : StoredCookie
session = record {
  name = codes "sid";
  value = codes "abc";
  domain = codes "example.com";
  path = codes "/";
  expires_at = some 50;
  secure = false;
  http_only = true;
}

abbrev theme : StoredCookie
theme = record {
  name = codes "theme";
  value = codes "dark";
  domain = codes "example.com";
  path = codes "/";
  expires_at = none;
  secure = false;
  http_only = false;
}

abbrev jar : Jar
jar = (codes "example.com", session ∷ theme ∷ []) ∷ []

jar-IsJar : IsJar jar
unfolding get
jar-IsJar = ((refl, tt), (((refl, (refl, tt)), ((refl, tt), (tt, tt))), tt))

store-IsJar_example :
    IsJar
      (store ascii no_date 10 (codes "sid=new; Path=/; Secure") (some (codes "example.com")) jar)
store-IsJar_example =
    store-IsJar ascii no_date 10 (codes "sid=new; Path=/; Secure") (some (codes "example.com")) jar
      jar-IsJar

-- At second 60 the session cookie has expired.
collect-sendable_example :
    ((collect 60 (codes "api.example.com") jar).0
      ≡ map pair_text (keep (sendable 60 (codes "api.example.com")) (cookies jar)))
    × (cookies (collect 60 (codes "api.example.com") jar).1
        ≡ keep (remains 60 (codes "api.example.com")) (cookies jar))
collect-sendable_example = collect-sendable 60 (codes "api.example.com") jar jar-IsJar

clear_domain-survives_example :
    (cookies (clear_domain (codes "example.com") jar).1
      ≡ keep (survives (codes "example.com")) (cookies jar))
    × ((clear_domain (codes "example.com") jar).0
          + length (cookies (clear_domain (codes "example.com") jar).1)
        ≡ length (cookies jar))
clear_domain-survives_example = clear_domain-survives (codes "example.com") jar jar-IsJar

-- The server asks for the session cookie to be dropped, and the jar keeps it.
store-max_age_example :
    store ascii no_date 10
      (codes "sid=; Path=/; Max-Age=0; Secure")
      (some (codes "example.com"))
      jar
    ≡ jar
unfolding split split_once trim parse_i64 attribute
store-max_age_example =
    store-max_age ascii no_date 10 (codes "sid=; Path=/; Max-Age=0; Secure") (codes "sid=")
      (codes " Path=/" ∷ []) (codes " Secure" ∷ []) (codes " Max-Age=0") (codes "0") (pos 0)
      (some (codes "example.com")) jar refl refl refl refl
