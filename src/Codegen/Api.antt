-- ===== src/Codegen/Api.antt =====
-- fox-codegen/src/model.rs: what the generators consume; and the headers of a request (util.rs).
pub mod Headers
use rust_fox.Prelude.{
  ℕ, Bool, true, false, not, ◌&&◌, List, [], ◌∷◌, ◌++◌, Option, none, some, map, any, if◌then◌else◌,
  ◌==◌, list_eq, nat_eq,
}
use rust_fox.Prelude.Compare.{text_le, on}
use rust_fox.Prelude.Dict.{Dict, get}
use rust_fox.Prelude.Sort.{sort_by}
use rust_fox.Prelude.Text.{Text, codes, is_empty, trim, join, contains, eq_ignore_ascii_case}
use rust_fox.Core.Method.{HttpMethod}
use rust_fox.Codegen.Escape.{encode_component}

pub record KeyValuePair : Type 0 where
  pub key : Text
  pub value : Text

pub data ApiBody : Type 0 where
  no_body : ApiBody
  json : (raw : Text) → ApiBody
  form_data : (fields : List KeyValuePair) → ApiBody
  raw : (raw : Text) → ApiBody

pub data AuthInfo : Type 0 where
  no_auth : AuthInfo
  bearer : (token : Text) → AuthInfo
  basic : (username password : Text) → AuthInfo
  api_key : (key value : Text) → AuthInfo

pub record ApiDefinition : Type 0 where
  pub url : Text
  pub method : HttpMethod
  pub headers : Dict Text Text
  pub query_params : Dict Text Text
  pub body : ApiBody
  pub auth : AuthInfo

-- `format!("{}={}", …)`
abbrev pub query_pair : Text × Text → Text
query_pair (key, value) = encode_component key ++ b'=' ∷ encode_component value

abbrev with_params : (base params : Text) → Text
with_params base params =
    if contains base (codes "?") then base ++ b'&' ∷ params else base ++ b'?' ∷ params

unfoldable pub build_url : (base : Text) (query : Dict Text Text) → Text
unfolding sort_by join
build_url base [] = base
build_url base (p ∷ query) =
    with_params base
      (join (codes "&") (map query_pair (sort_by (on (λ q. q.0) text_le) (p ∷ query))))

-- `base64::engine::general_purpose::STANDARD.encode`, on the text.
module _ (encode : Text → Text) where
  unfoldable pub auth_headers : AuthInfo → List (Text × Text)
  unfolding trim
  auth_headers (bearer token) =
      if is_empty token then [] else (codes "Authorization", codes "Bearer " ++ token) ∷ []
  auth_headers (basic username password) =
      (codes "Authorization", codes "Basic " ++ encode (username ++ b':' ∷ password)) ∷ []
  auth_headers (api_key key value) =
      if not (is_empty (trim key)) && not (is_empty value) then (key, value) ∷ [] else []
  auth_headers no_auth = []

-- One explicit header: it takes the place of the value of its name, or is put behind.
unfoldable pub merge_header : (key value : Text) → List (Text × Text) → List (Text × Text)
unfolding eq_ignore_ascii_case
merge_header key value [] = (key, value) ∷ []
merge_header key value ((k, v) ∷ merged) =
    let rest = merge_header key value merged in
    if eq_ignore_ascii_case k key then (k, value) ∷ merged else (k, v) ∷ rest

unfoldable pub merge_all : Dict Text Text → List (Text × Text) → List (Text × Text)
unfolding merge_header
merge_all [] merged = merged
merge_all ((key, value) ∷ headers) merged = merge_all headers (merge_header key value merged)

unfoldable pub merged_headers : (encode : Text → Text) → ApiDefinition → List (Text × Text)
unfolding merge_all auth_headers sort_by
merged_headers encode api =
    sort_by (on (λ h. h.0) text_le) (merge_all api.headers (auth_headers encode api.auth))

unfoldable pub has_header : List (Text × Text) → (name : Text) → Bool
unfolding eq_ignore_ascii_case
has_header headers name = any (λ h. eq_ignore_ascii_case h.0 name) headers
