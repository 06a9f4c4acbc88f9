-- ===== src/Test/Assert.antt =====
-- fox-test/src/assert.rs: assertions on a response. JSONPath, regular expressions, the texts of JSON values
-- and floating-point numbers are parameters.
pub mod Values
pub mod Extract
pub mod Decided
mod Tests
use rust_fox.Prelude.{
  ℕ, ◌+◌, Bool, true, false, not, ◌&&◌, ◌||◌, List, [], ◌∷◌, ◌++◌, Option, none, some, length,
  if◌then◌else◌, ◌==◌, list_eq, nat_eq,
}
use rust_fox.Prelude.Dict.{Dict, insert}
use rust_fox.Prelude.Int.{ℤ, pos}
use rust_fox.Prelude.Text.{Text, codes, is_empty, utf8_len, contains, eq_ignore_ascii_case}
use rust_fox.Core.Json.{
  Json, null, bool, integer, float, string, array, object, Items, nil, cons, Members, none_left,
  member,
}
use rust_fox.Test.Assert.Values.{
  Response, Foreign, first, find_header, or_default, get_member, errors_of, is_empty_value,
  v_to_text, to_f64, value_eq, json_len, first_text, extract_body_json,
}

-- `type` is `kind`.
pub record AssertionSpec (F : Type 0) : Type 0 where
  pub name : Option Text
  pub kind : Text
  pub path : Option Text
  pub op : Option Text
  pub expected : Option (Json F)

-- Why an assertion fails; the texts are left out.
pub data Reason : Type 0 where
  value_missing nothing_found : Reason
  not_equal is_equal lacks includes : Reason
  not_satisfied no_number bad_expected : Reason
  is_present no_match matched bad_pattern not_blank blank unsupported : Reason

pub record Outcome : Type 0 where
  pub description : Text
  pub passed : Bool
  pub reason : Option Reason

abbrev pub pass : Text → Outcome
pass description = record { description = description; passed = true; reason = none }

abbrev pub fail : Text → Reason → Outcome
fail description reason = record { description = description; passed = false; reason = some reason }

module _ {F : Type 0} (foreign : Foreign F) where
  abbrev pub expected_text : Option (Json F) → Text
  expected_text none = []
  expected_text (some v) = v_to_text foreign v

  abbrev written : AssertionSpec F → Text
  written a =
      let expected = expected_text a.expected in
      a.kind
      ++ (b' '
          ∷ (or_default a.op (codes "eq")
              ++ (b' ' ∷ (if is_empty expected then or_default a.path [] else expected))))

  unfoldable pub describe : AssertionSpec F → Text
  unfolding v_to_text
  describe a = elim a.name [
    | none ↦ written a
    | some name ↦ if is_empty name then written a else name
  ]

  abbrev pub as_string : Option Text → Option (Json F)
  as_string none = none
  as_string (some s) = some (string s)

  abbrev pub as_length : Option (Json F) → Option (Json F)
  as_length none = none
  as_length (some v) = some (integer (pos (json_len foreign v)))

  -- The length of the whole body.
  abbrev pub body_len : Option (Json F) → ℕ
  body_len none = 0
  body_len (some (string s)) = length s
  body_len (some v) = utf8_len (foreign.print v)

  abbrev pub length_of : Option (Json F) → (path : Option Text) → Option (Json F)
  length_of body_value none = some (integer (pos (body_len body_value)))
  length_of none (some path) = none
  length_of (some json) (some path) = as_length (first (foreign.query json path))

  abbrev pub by_path : Option (Json F) → (path : Option Text) → Option Text
  by_path body_value none = none
  by_path body_value (some path) = extract_body_json foreign body_value path

  unfoldable pub actual :
      AssertionSpec F → Response F → (body_value : Option (Json F)) → Option (Json F)
  unfolding find_header extract_body_json json_len get_member
  actual a resp body_value =
      if a.kind == codes "status"
      then some (integer (pos resp.status))
      else if a.kind == codes "header"
      then as_string (find_header (or_default a.path []) resp.headers)
      else if a.kind == codes "response_time_ms"
      then some (if foreign.is_finite resp.duration_ms then float resp.duration_ms else null)
      else if a.kind == codes "body"
      then some (string resp.body)
      else if a.kind == codes "jsonpath"
      then as_string (by_path body_value a.path)
      else if a.kind == codes "graphql_errors"
      then some (errors_of body_value)
      else if a.kind == codes "length"
      then length_of body_value a.path
      else body_value

  unfoldable pub cmp_ops : (op : Text) (got want : F) → Bool
  cmp_ops op got want =
      if op == codes "gt"
      then foreign.lt want got
      else if op == codes "gte"
      then foreign.le want got
      else if op == codes "lt"
      then foreign.lt got want
      else foreign.le got want

  -- `none` is `Ok(())`.
  abbrev pub unless : Bool → Reason → Option Reason
  unless ok reason = if ok then none else some reason

  abbrev pub compared : (op : Text) → (got want : Option F) → Option Reason
  compared op (some g) (some w) = unless (cmp_ops op g w) not_satisfied
  compared op none want = some no_number
  compared op (some g) none = some bad_expected

  abbrev pub searched : Option (Text → Bool) → (content : Text) (wanted : Bool) → Option Reason
  searched none content wanted = some bad_pattern
  searched (some is_match) content true = unless (is_match content) no_match
  searched (some is_match) content false = unless (not (is_match content)) matched

  -- The `match` on the operator, for a value that is there.
  unfoldable pub check : (op : Text) → Json F → (expected : Text) → Option Reason
  unfolding v_to_text to_f64 value_eq is_empty_value cmp_ops
  check op v expected =
      if op == codes "eq"
      then unless (value_eq foreign v expected) not_equal
      else if op == codes "neq"
      then unless (not (value_eq foreign v expected)) is_equal
      else if op == codes "contains"
      then unless (contains (v_to_text foreign v) expected) lacks
      else if op == codes "not_contains"
      then unless (not (contains (v_to_text foreign v) expected)) includes
      else if op == codes "gt" || op == codes "gte" || op == codes "lt" || op == codes "lte"
      then compared op (to_f64 foreign v) (foreign.parse_f64 expected)
      else if op == codes "exists"
      then none
      else if op == codes "not_exists"
      then some is_present
      else if op == codes "matches"
      then searched (foreign.regex expected) (v_to_text foreign v) true
      else if op == codes "not_matches"
      then searched (foreign.regex expected) (v_to_text foreign v) false
      else if op == codes "empty"
      then unless (is_empty_value v) not_blank
      else if op == codes "not_empty"
      then unless (not (is_empty_value v)) blank
      else some unsupported

  abbrev pub outcome : Text → Option Reason → Outcome
  outcome description none = pass description
  outcome description (some reason) = fail description reason

  abbrev pub without_value : (op description : Text) → Outcome
  without_value op description =
      if op == codes "not_exists"
      then pass description
      else if op == codes "exists"
      then fail description value_missing
      else fail description nothing_found

  abbrev pub conclude : (description op expected : Text) → Option (Json F) → Outcome
  conclude description op expected none = without_value op description
  conclude description op expected (some v) = outcome description (check op v expected)

  unfoldable pub evaluate : AssertionSpec F → Response F → (body_value : Option (Json F)) → Outcome
  evaluate a resp body_value =
      conclude (describe a) (or_default a.op (codes "eq")) (expected_text a.expected)
        (actual a resp body_value)
