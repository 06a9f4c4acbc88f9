-- ===== src/Sign/Digest/Tests.antt =====
-- Tests of the reading of a challenge.
use rust_fox.Prelude.{◌≡◌, refl, [], ◌∷◌, ◌++◌, map, none, some, true, false, arith}
use rust_fox.Prelude.Text.{codes, split_once, ascii_lower}
use rust_fox.Sign.Digest.{DigestChallenge, unquote, is_token_char, parse_www_authenticate}
use rust_fox.Sign.Digest.Scanned.{is_name_char}
use rust_fox.Sign.Digest.Parts.{IsPost, scheme}
use rust_fox.Sign.Digest.Fields.{IsChallenge}
use rust_fox.Sign.Digest.RoundTrip.{write_challenge, parse_www_authenticate-write_challenge}

abbrev challenge : DigestChallenge
challenge = record {
  realm = codes "a, b=c";
  nonce = codes "n1";
  opaque = some (codes "o");
  qop = codes "auth" ∷ codes "auth-int" ∷ [];
  algorithm = codes "SHA-256";
  userhash = true;
}

challenge-IsChallenge : IsChallenge challenge
unfolding is_name_char
challenge-IsChallenge = record {
  realm = refl;
  nonce = refl;
  algorithm = refl;
  opaque = λ o e. ground arith;
  qop = (record { word = refl; named = refl }, (record { word = refl; named = refl }, tt));
}

basic_behind : IsPost (codes ", Basic realm=\"x\"")
unfolding is_token_char
basic_behind = scheme b'B' (codes "asic") (codes "realm=\"x\"") refl

written :
    parse_www_authenticate (codes "Digest realm=\"r\", nonce=n, qop=\"auth\"")
    ≡ some (record {
      realm = codes "r";
      nonce = codes "n";
      opaque = none;
      qop = codes "auth" ∷ [];
      algorithm = codes "MD5";
      userhash = false;
    })
unfolding parse_www_authenticate
written = refl

found :
    split_once (codes "digest") (map ascii_lower (codes "Basic realm=\"y\", " ++ codes "Digest"))
    ≡ some (map ascii_lower (codes "Basic realm=\"y\", "), [])
unfolding split_once
found = refl

parse_www_authenticate-write_challenge_example :
    parse_www_authenticate
      (write_challenge (codes "Basic realm=\"y\", ") challenge (codes ", Basic realm=\"x\""))
    ≡ some challenge
parse_www_authenticate-write_challenge_example =
    parse_www_authenticate-write_challenge (codes "Basic realm=\"y\", ")
      (codes ", Basic realm=\"x\"") challenge found basic_behind challenge-IsChallenge

-- The word in the realm of another scheme hides the challenge.
hidden :
    parse_www_authenticate (codes "Basic realm=\"digest\", Digest realm=\"r\", nonce=\"n\"") ≡ none
unfolding parse_www_authenticate
hidden = refl

-- A scheme without parameters at the end spoils the challenge.
spoiled : parse_www_authenticate (codes "Digest realm=\"r\", nonce=\"n\", Negotiate") ≡ none
unfolding parse_www_authenticate
spoiled = refl

-- An escaped backslash stays doubled.
backslash : unquote (codes "\"a\\\\b\"") ≡ codes "a\\\\b"
unfolding unquote
backslash = refl
