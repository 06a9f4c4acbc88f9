-- ===== src/Sign/Keyed.antt =====
-- fox-sign/src/lib.rs: the signatures with an access key, and Hawk.
pub mod Injective
use rust_fox.Prelude.{
  ℕ, Bool, true, false, List, [], ◌∷◌, ◌++◌, map, Option, none, some, if◌then◌else◌,
}
use rust_fox.Prelude.Result.{Result, ok, err, ◌>>=◌, ◌>>◌, reject_if}
use rust_fox.Prelude.Text.{Text, codes, is_empty, trim, join, show, to_ascii_uppercase, ascii_lower}
use rust_fox.Prelude.Utf8.{as_bytes}
use rust_fox.Core.External.{Hashes}
use rust_fox.Sign.{SignError, missing_field, Url, UrlParser, parsed, host_of, path_of}

pub record AkSkParams : Type 0 where
  pub access_key : Text
  pub secret_key : Text
  pub method : Text
  pub path_query : Text
  pub timestamp : Text
  pub nonce : Text

-- The text that is signed.
unfoldable pub aksk_canonical : AkSkParams → Text
unfolding join to_ascii_uppercase
aksk_canonical p =
    join (10 ∷ [])
      (p.access_key ∷ p.timestamp ∷ p.nonce ∷ to_ascii_uppercase p.method ∷ p.path_query ∷ [])

-- The headers and the signature.
unfoldable pub aksk_headers : Hashes → AkSkParams → Result SignError (List (Text × Text) × Text)
unfolding aksk_canonical as_bytes
aksk_headers hashes p = do
  reject_if (is_empty p.access_key) (missing_field (codes "access_key"))
  reject_if (is_empty p.secret_key) (missing_field (codes "secret_key"))
  let signature =
      hashes.hex (hashes.hmac_sha256 (as_bytes p.secret_key) (as_bytes (aksk_canonical p)))
  ok (
    (codes "X-Access-Key", p.access_key)
        ∷ (codes "X-Timestamp", p.timestamp)
        ∷ (codes "X-Nonce", p.nonce)
        ∷ (codes "X-Signature", signature)
        ∷ [],
    signature,
  )

-- The body is a content type with bytes.
pub record HawkParams : Type 0 where
  pub id : Text
  pub key : Text
  pub method : Text
  pub url : Text
  pub body : Option (Text × List ℕ)
  pub ts : ℕ
  pub nonce : Text

abbrev pub is_empty_bytes : List ℕ → Bool
is_empty_bytes [] = true
is_empty_bytes (b ∷ bs) = false

-- The path with its query.
unfoldable pub resource_of : Url → Text
resource_of url = elim url.query [ none ↦ path_of url | some q ↦ path_of url ++ (b'?' ∷ q) ]

-- `url.port_or_known_default().unwrap_or(80)`
abbrev pub port_of : Url → ℕ
port_of url = elim url.port_or_known_default [ none ↦ 80 | some port ↦ port ]

-- The text that is signed, with an empty line at its end.
unfoldable pub hawk_canonical :
    (ts : ℕ) → (nonce method resource host : Text) → (port : ℕ) → (hash : Text) → Text
unfolding join to_ascii_uppercase show
hawk_canonical ts nonce method resource host port hash = join (10 ∷ []) (
    codes "hawk.1.header"
    ∷ show ts
    ∷ nonce
    ∷ to_ascii_uppercase method
    ∷ resource
    ∷ host
    ∷ show port
    ∷ hash
    ∷ []
    ∷ []
    ∷ [])

module _ (hashes : Hashes) (from_utf8_lossy : List ℕ → Text) where
  -- The hash of a body that is not empty.
  unfoldable pub payload_hash : Option (Text × List ℕ) → Text
  unfolding trim join as_bytes
  payload_hash none = []
  payload_hash (some (content_type, bytes)) =
      if is_empty_bytes bytes
      then []
      else hashes.base64 (
          hashes.sha256 (
            as_bytes (
              join (10 ∷ []) (
                codes "hawk.1.payload"
                ∷ trim (map ascii_lower content_type)
                ∷ from_utf8_lossy bytes
                ∷ []
                ∷ []))))

  -- The value of the header.
  unfoldable pub hawk_header : HawkParams → (hash mac : Text) → Text
  unfolding show
  hawk_header p hash mac =
      codes "Hawk id=\""
      ++ p.id
      ++ codes "\", ts=\""
      ++ show p.ts
      ++ codes "\", nonce=\""
      ++ p.nonce
      ++ codes "\""
      ++ (if is_empty hash then [] else codes ", hash=\"" ++ hash ++ codes "\"")
      ++ codes ", mac=\""
      ++ mac
      ++ codes "\""

  unfoldable pub hawk_authorization : UrlParser → HawkParams → Result SignError Text
  unfolding payload_hash resource_of hawk_canonical hawk_header as_bytes
  hawk_authorization parse p = do
    reject_if (is_empty p.id) (missing_field (codes "id"))
    reject_if (is_empty p.key) (missing_field (codes "key"))
    url ← parsed (parse p.url)
    host ← host_of url
    let hash = payload_hash p.body
    let normalized = hawk_canonical p.ts p.nonce p.method (resource_of url) host (port_of url) hash
    let mac = hashes.base64 (hashes.hmac_sha256 (as_bytes p.key) (as_bytes normalized))
    ok (hawk_header p hash mac)
