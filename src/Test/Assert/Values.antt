-- ===== src/Test/Assert/Values.antt =====
-- What the assertions and the extractions read of a response, and JSON values as texts, numbers and lengths:
-- fox-test/src/assert.rs and extract.rs.
use rust_fox.Prelude.{
  ℕ, ◌+◌, Bool, true, false, List, [], ◌∷◌, Option, none, some, length, if◌then◌else◌, ◌==◌,
  list_eq, nat_eq,
}
use rust_fox.Prelude.Int.{ℤ}
use rust_fox.Prelude.Text.{Text, codes, is_empty, utf8_len, eq_ignore_ascii_case}
use rust_fox.Core.Json.{
  Json, null, bool, integer, float, string, array, object, Items, nil, cons, Members, none_left,
  member,
}

-- What the assertions read of an `HttpResponseData`; `body` is `body_text()`.
pub record Response (F : Type 0) : Type 0 where
  pub status : ℕ
  pub headers : List (Text × Text)
  pub body : Text
  pub duration_ms : F

-- The foreign code: `f64`, `Value::to_string`, `json.query(path)` with `none` for an invalid path, and
-- `Regex::new` with `is_match`.
pub record Foreign (F : Type 0) : Type 0 where
  pub parse_f64 : Text → Option F
  pub as_f64 : ℤ → F
  pub is_finite : F → Bool
  pub le : F → F → Bool
  pub lt : F → F → Bool
  pub print : Json F → Text
  pub query : Json F → (path : Text) → Option (List (Json F))
  pub regex : (pattern : Text) → Option (Text → Bool)

abbrev pub first {ℓ} : {A : Type ℓ} → Option (List A) → Option A
first none = none
first (some []) = none
first (some (x ∷ xs)) = some x

-- The first header of the name.
unfoldable pub find_header : (name : Text) → List (Text × Text) → Option Text
unfolding eq_ignore_ascii_case
find_header name [] = none
find_header name ((k, v) ∷ headers) =
    let rest = find_header name headers in if eq_ignore_ascii_case k name then some v else rest

abbrev pub or_default : Option Text → Text → Text
or_default none d = d
or_default (some t) d = t

module _ {F : Type 0} where
  -- `v.get(key)`, and `as_array`
  unfoldable pub get_member : (key : Text) → Members F → Option (Json F)
  get_member key none_left = none
  get_member key (member k v members) =
      let rest = get_member key members in if k == key then some v else rest

  abbrev pub array_or_empty : Option (Json F) → Json F
  array_or_empty (some (array items)) = array items
  array_or_empty _ = array nil

  abbrev pub errors_of : Option (Json F) → Json F
  errors_of (some (object members)) = array_or_empty (get_member (codes "errors") members)
  errors_of _ = array nil

  abbrev pub count_items : Items F → ℕ
  count_items nil = 0
  count_items (cons x items) = count_items items + 1

  abbrev pub count_members : Members F → ℕ
  count_members none_left = 0
  count_members (member k v members) = count_members members + 1

  unfoldable pub is_empty_value : Json F → Bool
  is_empty_value null = true
  is_empty_value (string s) = is_empty s
  is_empty_value (array nil) = true
  is_empty_value (object none_left) = true
  is_empty_value _ = false

module _ {F : Type 0} (foreign : Foreign F) where
  unfoldable pub v_to_text : Json F → Text
  v_to_text (string s) = s
  v_to_text null = []
  v_to_text v = foreign.print v

  unfoldable pub to_f64 : Json F → Option F
  to_f64 (integer n) = some (foreign.as_f64 n)
  to_f64 (float x) = some x
  to_f64 (string s) = foreign.parse_f64 s
  to_f64 v = none

  unfoldable pub value_eq : Json F → Text → Bool
  value_eq (string s) t = s == t
  value_eq (integer n) t = foreign.print (integer n) == t
  value_eq (float x) t = foreign.print (float x) == t
  value_eq (bool b) t = (if b then codes "true" else codes "false") == t
  value_eq v t = false

  unfoldable pub json_len : Json F → ℕ
  json_len (string s) = length s
  json_len (array items) = count_items items
  json_len (object members) = count_members members
  json_len null = 0
  json_len v = utf8_len (foreign.print v)

  abbrev pub first_text : Option (Json F) → Option Text
  first_text none = none
  first_text (some null) = none
  first_text (some (string s)) = some s
  first_text (some v) = some (foreign.print v)

  unfoldable pub extract_body_json : (body_value : Option (Json F)) → (path : Text) → Option Text
  extract_body_json none path = none
  extract_body_json (some json) path = first_text (first (foreign.query json path))
