-- ===== src/Mock/Tests.antt =====
-- Runs of the mock server on concrete definitions and requests.
use mathlib.Core.Option
use rust_fox.Prelude.{
  ℕ, ◌≡◌, refl, Bool, true, List, [], ◌∷◌, none, some, eqb, ltb, list_eq, nat_eq,
}
use rust_fox.Prelude.Dict.{Dict}
use rust_fox.Prelude.Fallible.{returns}
use rust_fox.Prelude.Int.{pos}
use rust_fox.Prelude.Text.{Text, codes, split_once, strip_prefix}
use rust_fox.Core.Samples.{no_luck, ascii}
use rust_fox.Mock.Definition.{MockDefinition, rule, from_endpoint}
use rust_fox.Mock.Equivalence.{match_request-resolve}
use rust_fox.Mock.Match.{HeaderMap, parse_query}
use rust_fox.Mock.Priority.{Answers, resolve-IsFirstBest}
use rust_fox.Mock.Resolve.{resolve}
use rust_fox.Mock.Server.Faults.{mock_handler-Handles, Handles}
use rust_fox.Mock.Server.{HttpRules, Request, Handled, mock_handler, query_text}
use rust_fox.Mock.Store.{match_request, set_definitions}
use rust_fox.Mock.Template.Render.{render_template_with_query-write, write, fill, Pieces}
use rust_fox.Mock.Template.{render_template_with_query}

abbrev no_headers : HeaderMap
no_headers name = none

abbrev fallback : MockDefinition
fallback = from_endpoint (codes "GET") (codes "/users/{id}") none

abbrev by_rule : MockDefinition
by_rule = record {
  method = codes "GET";
  path = codes "/users/{name}";
  match_query = [];
  match_headers = [];
  status = 201;
  headers = [];
  body_template = codes "hi {{params.name}}!";
  delay_ms = 30;
  fault_rate_pct = 100;
  fault_status = 503;
  priority = pos 4;
  source = rule;
}

abbrev defs : List MockDefinition
defs = fallback ∷ by_rule ∷ []

match_request-resolve_example :
    match_request (set_definitions defs) (codes "get") (codes "/users/7") (codes "a=1") no_headers
    ≡ returns (
        Option.map
          (λ h. (h.0, h.1, parse_query (codes "a=1")))
          (resolve (codes "get") (codes "/users/7") (codes "a=1") no_headers defs))
match_request-resolve_example =
    match_request-resolve defs (codes "get") (codes "/users/7") (codes "a=1") no_headers

resolve-IsFirstBest_example :
    Answers
      (codes "get")
      (codes "/users/7")
      (codes "a=1")
      no_headers
      defs
      (resolve (codes "get") (codes "/users/7") (codes "a=1") no_headers defs)
resolve-IsFirstBest_example =
    resolve-IsFirstBest (codes "get") (codes "/users/7") (codes "a=1") no_headers defs

abbrev path_vars : Dict Text Text
path_vars = (codes "name", codes "ann") ∷ []

abbrev pieces : Pieces
pieces = (codes "hi ", codes " params.name ") ∷ (codes ", ", codes "uuid") ∷ []

render_template_with_query-write_example :
    render_template_with_query no_luck ascii path_vars [] no_headers (write pieces (codes "!")) 0
    ≡ some (fill no_luck ascii path_vars [] no_headers pieces (codes "!") 0)
unfolding split_once strip_prefix
render_template_with_query-write_example =
    render_template_with_query-write no_luck ascii path_vars [] no_headers pieces (codes "!") 0
      ((refl, refl), ((refl, refl), tt)) refl

abbrev rules : HttpRules
rules = record {
  status_ok = λ n. ltb n 1000;
  header_name = λ k. some (ascii.to_lowercase k);
  value_ok = λ v. true;
}

abbrev request : Request
request = record {
  method = codes "GET";
  path = codes "/users/ann";
  query = none;
  headers = no_headers;
}

mock_handler-Handles_example :
    (h : Handled) × (mock_handler rules no_luck ascii (set_definitions defs) request 0 ≡ returns h)
    × Handles rules no_luck ascii request 0
        (resolve request.method request.path (query_text request.query) request.headers defs)
        h
mock_handler-Handles_example = mock_handler-Handles rules no_luck ascii defs request 0

abbrev binds : ℕ → Bool
binds port = eqb port 4012
