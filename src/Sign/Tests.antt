-- ===== src/Sign/Tests.antt =====
-- Tests of the signatures.
use mathlib.Core.List.Perm
use rust_fox.Prelude.{◌≡◌, refl, [], ◌∷◌, map, none, some, ◌==◌, list_eq, nat_eq, if◌then◌else◌}
use rust_fox.Prelude.Result.{ok, err}
use rust_fox.Prelude.Text.{Text, codes, split, split_once, to_ascii_uppercase}
use rust_fox.Core.Samples.{hashes}
use rust_fox.Sign.{Url, UrlParser, FormParser, missing_field}
use rust_fox.Sign.Aws.{AwsV4Params, sign_aws_v4, get_bytes, canonical_query}
use rust_fox.Sign.Aws.Order.{sign_aws_v4-perm}
use rust_fox.Sign.Keyed.{AkSkParams, aksk_canonical, aksk_headers}
use rust_fox.Sign.Keyed.Injective.{IsLines, aksk_canonical_injective}

abbrev url : Url
url = record {
  host_str = some (codes "Example.org");
  port = none;
  port_or_known_default = some 443;
  path = codes "/";
  query = some (codes "b=2&a=1");
}

abbrev parse : UrlParser
parse s =
    if s == codes "https://example.org/?b=2&a=1"
    then ok url
    else ok (record url { query = some (codes "a=1&b=2") })

-- The pairs between the ampersands, without decoding.
abbrev form : FormParser
unfolding split_once
form s =
    map (λ part. elim (split_once (codes "=") part) [ none ↦ (part, []) | some p ↦ p ])
      (split b'&' s)

abbrev params : AwsV4Params
params = record {
  access_key = codes "AKID";
  secret_key = codes "secret";
  session_token = none;
  region = codes "us-east-1";
  service = codes "s3";
  method = codes "get";
  url = codes "https://example.org/?b=2&a=1";
  payload_hash = codes "UNSIGNED-PAYLOAD";
  amz_date = codes "20150830T123600Z";
}

abbrev other_url : Text
other_url = codes "https://example.org/?a=1&b=2"

sign_aws_v4-perm_example :
    sign_aws_v4 hashes form parse params
    ≡ sign_aws_v4 hashes form parse (record params { url = other_url })
unfolding form split
sign_aws_v4-perm_example =
    sign_aws_v4-perm hashes form parse params other_url url (some (codes "a=1&b=2")) refl refl
      (Perm.swap _ _ _)

without_region :
    sign_aws_v4 hashes form parse (record params { region = [] })
    ≡ err (missing_field (codes "region"))
unfolding sign_aws_v4
without_region = refl

queried :
    canonical_query ((codes "b c", codes "2") ∷ (codes "a", codes "/") ∷ []) ≡ codes "a=%2F&b%20c=2"
unfolding canonical_query
queried = refl

short_date : get_bytes 8 (codes "2015") ≡ none
unfolding get_bytes
short_date = refl

abbrev request : AkSkParams
request = record {
  access_key = codes "ak";
  secret_key = codes "sk";
  method = codes "post";
  path_query = codes "/a?b=1";
  timestamp = codes "1700000000";
  nonce = codes "00ff";
}

request-IsLines : IsLines request
request-IsLines = record {
  access_key = refl;
  timestamp = refl;
  nonce = refl;
  method = refl;
  path_query = refl;
}

abbrev upper : AkSkParams
upper = record request { method = codes "POST" }

upper-IsLines : IsLines upper
upper-IsLines = record {
  access_key = refl;
  timestamp = refl;
  nonce = refl;
  method = refl;
  path_query = refl;
}

same_text : aksk_canonical request ≡ aksk_canonical upper
unfolding aksk_canonical
same_text = refl

aksk_canonical_injective_example :
    (codes "ak" ≡ codes "ak")
    × ((codes "1700000000" ≡ codes "1700000000")
        × ((codes "00ff" ≡ codes "00ff")
            × ((to_ascii_uppercase (codes "post") ≡ to_ascii_uppercase (codes "POST"))
                × (codes "/a?b=1" ≡ codes "/a?b=1"))))
aksk_canonical_injective_example =
    aksk_canonical_injective request upper request-IsLines upper-IsLines same_text

without_secret :
    aksk_headers hashes (record request { secret_key = [] })
    ≡ err (missing_field (codes "secret_key"))
unfolding aksk_headers
without_secret = refl
