-- ===== src/Test/Assert/Tests.antt =====
-- Assertions and extractions on a concrete response.
use rust_fox.Prelude.{
  ℕ, ◌≡◌, refl, true, List, [], ◌∷◌, Option, none, some, leb, ltb, list_eq, nat_eq,
}
use rust_fox.Prelude.Dict.{get}
use rust_fox.Prelude.Int.{pos_part, pos}
use rust_fox.Prelude.Text.{Text, codes, split_once, strip_prefix}
use rust_fox.Core.Json.{Json, integer, string, object, none_left, member}
use rust_fox.Test.Assert.{AssertionSpec, evaluate, actual, check}
use rust_fox.Test.Assert.Extract.{ExtractSpec, extract_variables}
use rust_fox.Test.Assert.Values.{Response, Foreign, get_member}
use rust_fox.Test.Assert.Decided.{passes}

-- `{"id": "u1", "n": 7}`
abbrev body : Json ℕ
body =
    object
      (member (codes "id") (string (codes "u1")) (member (codes "n") (integer (pos 7)) none_left))

abbrev all_of : Option (Json ℕ) → Option (List (Json ℕ))
all_of none = some []
all_of (some v) = some (v ∷ [])

abbrev members_of : Json ℕ → (path : Text) → Option (List (Json ℕ))
members_of (object members) path = all_of (get_member path members)
members_of v path = some []

-- Floating-point numbers are natural ones, and a path is the name of a member.
abbrev foreign : Foreign ℕ
foreign = record {
  parse_f64 = λ s. none;
  as_f64 = pos_part;
  is_finite = λ x. true;
  le = leb;
  lt = ltb;
  print = λ v. codes "7";
  query = members_of;
  regex = λ p. none;
}

abbrev resp : Response ℕ
resp = record {
  status = 200;
  headers = (codes "X-Trace", codes "t9") ∷ [];
  body = codes "{}";
  duration_ms = 5;
}

abbrev has_u : AssertionSpec ℕ
has_u = record {
  name = none;
  kind = codes "jsonpath";
  path = some (codes "id");
  op = none;
  expected = some (string (codes "u"));
}

found : actual foreign has_u resp (some body) ≡ some (string (codes "u1"))
unfolding actual
found = refl

contained : passes foreign has_u (codes "contains") resp (some body) ≡ true
unfolding evaluate actual split_once strip_prefix check
contained = refl

abbrev specs : List ExtractSpec
specs =
    record { name = codes "id"; source = codes "body"; path = codes "id" }
    ∷ record { name = codes "id"; source = codes "header"; path = codes "x-trace" }
    ∷ record { name = codes "id"; source = codes "body"; path = codes "gone" }
    ∷ []

traced : get (codes "id") (extract_variables foreign specs resp (some body) []) ≡ some (codes "t9")
unfolding extract_variables get get_member
traced = refl
