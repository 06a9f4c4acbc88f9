-- ===== src/Sign.antt =====
-- The crate fox-sign: signatures of requests. The hash functions are parameters, and so is the URL
-- parser, of whose results the source reads the parts below.
pub mod Aws
pub mod Digest
pub mod Keyed
mod Tests
use rust_fox.Prelude.{ℕ, Bool, List, [], ◌∷◌, ◌++◌, map, Option, none, some, if◌then◌else◌}
use rust_fox.Prelude.Result.{Result, ok, err}
use rust_fox.Prelude.Text.{Text, codes, is_empty, ascii_lower}

pub data SignError : Type 0 where
  invalid_url : (message : Text) → SignError
  bad_challenge : SignError
  unsupported_algorithm : (name : Text) → SignError
  unsupported_qop : SignError
  missing_field : (field : Text) → SignError

-- What is read of a `url::Url`.
pub record Url : Type 0 where
  pub host_str : Option Text
  pub port : Option ℕ
  pub port_or_known_default : Option ℕ
  pub path : Text
  pub query : Option Text

-- `form_urlencoded::parse`, which `url::Url::query_pairs` applies to the query, or to an empty text.
abbrev pub FormParser : Type 0
FormParser = Text → List (Text × Text)

abbrev pub query_pairs : FormParser → Url → List (Text × Text)
query_pairs form url = elim url.query [ none ↦ form [] | some q ↦ form q ]

-- `Url::parse`, with the text of its error.
abbrev pub UrlParser : Type 0
UrlParser = Text → Result Text Url

-- `.map_err(..)` behind `Url::parse`
abbrev pub parsed : Result Text Url → Result SignError Url
parsed (ok url) = ok url
parsed (err message) = err (invalid_url message)

-- `url.host_str().ok_or(..)?.to_ascii_lowercase()`
abbrev pub host_of : Url → Result SignError Text
host_of url = elim url.host_str [
  | none ↦ err (missing_field (codes "host"))
  | some host ↦ ok (map ascii_lower host)
]

-- The path, or `/` for an empty one.
abbrev pub path_of : Url → Text
path_of url = if is_empty url.path then codes "/" else url.path
