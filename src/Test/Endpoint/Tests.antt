-- ===== src/Test/Endpoint/Tests.antt =====
-- A test of an endpoint on a concrete answer.
use rust_fox.Prelude.{
  ℕ, ◌≡◌, refl, true, false, [], ◌∷◌, Option, none, some, leb, ltb, list_eq, nat_eq,
}
use rust_fox.Prelude.Dict.{get}
use rust_fox.Prelude.Int.{pos_part}
use rust_fox.Prelude.Result.{Result, ok, err}
use rust_fox.Prelude.Text.{Text, codes}
use rust_fox.Core.Json.{Json, bool, string}
use rust_fox.Core.Samples.{no_luck}
use rust_fox.Core.Variable.{World, VariableMap}
use rust_fox.Test.Assert.{actual, check}
use rust_fox.Test.Assert.Values.{Response, Foreign}
use rust_fox.Test.Endpoint.{EndpointInfo, TestSpec, Ran, run_endpoint}

-- Floating-point numbers are natural ones; no path and no pattern is valid.
abbrev foreign : Foreign ℕ
foreign = record {
  parse_f64 = λ s. none;
  as_f64 = pos_part;
  is_finite = λ x. true;
  le = leb;
  lt = ltb;
  print = λ v. codes "7";
  query = λ v path. none;
  regex = λ p. none;
}

abbrev resp : Response ℕ
resp = record {
  status = 200;
  headers = (codes "X-Trace", codes "t9") ∷ [];
  body = codes "{}";
  duration_ms = 5;
}

-- The header is the variable that is set before.
abbrev config : TestSpec ℕ
config = record {
  pre_request = record { name = codes "id"; value = codes "t{{n}}" } ∷ [];
  extract = record { name = codes "trace"; source = codes "header"; path = codes "x-trace" } ∷ [];
  assertions =
      record {
        name = none;
        kind = codes "header";
        path = some (codes "x-trace");
        op = none;
        expected = some (string (codes "{{id}}"));
      }
      ∷ [];
}

abbrev from_value : Json ℕ → Result Text (TestSpec ℕ)
from_value (bool true) = ok config
from_value v = err (codes "no configuration")

abbrev world : World
world = record { counters = []; dirty = false; draws = 0 }

abbrev endpoint : EndpointInfo
endpoint = record { id = codes "e1"; name = codes "Trace"; method = codes "GET"; path = codes "/t" }

abbrev table : VariableMap
table = (codes "n", codes "9") ∷ []

abbrev passed : Option (Ran ℕ) → Option (Option Text)
unfolding get
passed none = none
passed (some (result, resp', after, w, k)) = elim result.ok [
  | true ↦ some (get (codes "trace") after)
  | false ↦ none
]

traced :
    passed (
      run_endpoint no_luck foreign from_value
        (λ r. none)
        (λ n. ok resp)
        endpoint
        (some (bool true))
        table
        world
        0)
    ≡ some (some (codes "t9"))
unfolding passed run_endpoint actual check
traced = refl
