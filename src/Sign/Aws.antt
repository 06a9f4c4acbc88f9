-- ===== src/Sign/Aws.antt =====
-- fox-sign/src/lib.rs: AWS Signature V4.
pub mod Order
use rust_fox.Prelude.{
  ℕ, ◌+◌, ◌-◌, Bool, List, [], ◌∷◌, ◌++◌, map, Option, none, some, leb, if◌then◌else◌,
}
use rust_fox.Prelude.Compare.{text_le, on, then_by}
use rust_fox.Prelude.Result.{Result, ok, err, ◌>>=◌, ◌>>◌, reject_if}
use rust_fox.Prelude.Sort.{sort_by}
use rust_fox.Prelude.Text.{Text, codes, is_empty, utf8_len, trim, join, show, to_ascii_uppercase}
use rust_fox.Prelude.Utf8.{as_bytes}
use rust_fox.Codegen.Escape.{encode_component}
use rust_fox.Core.External.{Hashes}
use rust_fox.Sign.{
  SignError, missing_field, Url, UrlParser, FormParser, query_pairs, parsed, host_of, path_of,
}

pub record AwsV4Params : Type 0 where
  pub access_key : Text
  pub secret_key : Text
  pub session_token : Option Text
  pub region : Text
  pub service : Text
  pub method : Text
  pub url : Text
  pub payload_hash : Text
  pub amz_date : Text

pub record AwsV4Signature : Type 0 where
  pub authorization : Text
  pub amz_date : Text

-- The same rule as `encode_component` of the code generation.
unfoldable pub aws_encode : Text → Text
unfolding encode_component
aws_encode = encode_component

-- `<(String, String)>::le`
abbrev pub pair_le : Text × Text → Text × Text → Bool
pair_le = then_by (on (λ p. p.0) text_le) (on (λ p. p.1) text_le)

abbrev encoded_pair : Text × Text → Text
unfolding aws_encode
encoded_pair (k, v) = aws_encode k ++ (b'=' ∷ aws_encode v)

unfoldable pub canonical_query : List (Text × Text) → Text
unfolding sort_by encoded_pair join
canonical_query pairs = join (codes "&") (map encoded_pair (sort_by pair_le pairs))

-- `s.get(..n)`: nothing if the text is shorter or a character lies across.
unfoldable pub get_bytes : ℕ → Text → Option Text
get_bytes n [] = if leb n 0 then some [] else none
get_bytes n (c ∷ s) =
    let width = utf8_len (c ∷ []) in
    let rest = get_bytes (n - width) s in
    if leb n 0
    then some []
    else if leb width n
    then elim rest [ none ↦ none | some t ↦ some (c ∷ t) ]
    else none

abbrev or_empty : Option Text → Text
or_empty none = []
or_empty (some s) = s

-- The Host header: an explicit port that is not the default is written.
unfoldable pub host_header : Text → Option ℕ → Text
unfolding show
host_header host none = host
host_header host (some port) = host ++ (b':' ∷ show port)

abbrev newline : Text
newline = 10 ∷ []

-- The headers that are signed, and their names.
unfoldable pub canonical_headers : (host amz_date session_token : Text) → Text × Text
canonical_headers host amz_date session_token =
    let headers = codes "host:" ++ host ++ codes "\nx-amz-date:" ++ amz_date ++ codes "\n" in
    if is_empty session_token then (headers, codes "host;x-amz-date") else (
      headers ++ codes "x-amz-security-token:" ++ session_token ++ codes "\n",
      codes "host;x-amz-date;x-amz-security-token",
    )

module _ (hashes : Hashes) (form : FormParser) where
  unfoldable pub sha256_hex : List ℕ → Text
  sha256_hex data_ = hashes.hex (hashes.sha256 data_)

  -- Behind the checks, given the canonical query.
  unfoldable pub signed_with : AwsV4Params → Url → (host query : Text) → AwsV4Signature
  unfolding get_bytes host_header canonical_headers sha256_hex as_bytes to_ascii_uppercase trim join
  signed_with p url host query =
      let date_stamp = or_empty (get_bytes 8 p.amz_date) in
      let headers =
        canonical_headers (host_header host url.port) p.amz_date
          (trim (or_empty p.session_token)) in
      let canonical_request = join newline (
        to_ascii_uppercase p.method
        ∷ path_of url
        ∷ query
        ∷ headers.0
        ∷ headers.1
        ∷ p.payload_hash
        ∷ []) in
      let scope =
        join (codes "/") (date_stamp ∷ p.region ∷ p.service ∷ codes "aws4_request" ∷ []) in
      let string_to_sign = join newline (
        codes "AWS4-HMAC-SHA256"
        ∷ p.amz_date
        ∷ scope
        ∷ sha256_hex (as_bytes canonical_request)
        ∷ []) in
      let k_date =
        hashes.hmac_sha256 (as_bytes (codes "AWS4" ++ p.secret_key)) (as_bytes date_stamp) in
      let k_region = hashes.hmac_sha256 k_date (as_bytes p.region) in
      let k_service = hashes.hmac_sha256 k_region (as_bytes p.service) in
      let k_signing = hashes.hmac_sha256 k_service (as_bytes (codes "aws4_request")) in
      let signature = hashes.hex (hashes.hmac_sha256 k_signing (as_bytes string_to_sign)) in
      record {
        authorization =
            codes "AWS4-HMAC-SHA256 Credential="
            ++ p.access_key
            ++ (b'/' ∷ scope)
            ++ codes ", SignedHeaders="
            ++ headers.1
            ++ codes ", Signature="
            ++ signature;
        amz_date = p.amz_date;
      }

  unfoldable pub signed : AwsV4Params → Url → (host : Text) → AwsV4Signature
  unfolding canonical_query signed_with
  signed p url host = signed_with p url host (canonical_query (query_pairs form url))

  -- With the result of parsing the URL.
  unfoldable pub sign_parsed : AwsV4Params → Result Text Url → Result SignError AwsV4Signature
  unfolding signed
  sign_parsed p url_result = do
    reject_if (is_empty p.access_key) (missing_field (codes "access_key"))
    reject_if (is_empty p.secret_key) (missing_field (codes "secret_key"))
    reject_if (is_empty p.region) (missing_field (codes "region"))
    reject_if (is_empty p.service) (missing_field (codes "service"))
    url ← parsed url_result
    host ← host_of url
    ok (signed p url host)

  unfoldable pub sign_aws_v4 : UrlParser → AwsV4Params → Result SignError AwsV4Signature
  unfolding sign_parsed
  sign_aws_v4 parse p = sign_parsed p (parse p.url)
