-- ===== src/Test/Endpoint.antt =====
-- fox-test/src/runner.rs: the test of one endpoint, which meets variables, assertions and extractions.
-- The table of runtime variables is shared with other workers. Sending, the reading of the
-- configuration and of the body by serde are parameters; texts of errors from outside are kept.

pub mod Report
mod Tests
use rust_fox.Prelude.{
  ℕ, ◌+◌, Bool, true, false, ◌&&◌, List, [], ◌∷◌, Option, none, some, all, if◌then◌else◌, list_eq,
  nat_eq,
}
use rust_fox.Prelude.Dict.{Dict, insert, extend}
use rust_fox.Prelude.Result.{Result, ok, err}
use rust_fox.Prelude.Text.{Text, codes, contains, split_once}
use rust_fox.Core.External.{Sources}
use rust_fox.Core.Json.{Json, null, bool, integer, float, string, array, object}
use rust_fox.Core.Variable.{World, VariableMap, resolve_variables}
use rust_fox.Test.Assert.Values.{Response, Foreign}
use rust_fox.Test.Assert.{AssertionSpec, Outcome, evaluate}
use rust_fox.Test.Assert.Extract.{ExtractSpec, extract_variables}

pub record SetVariable : Type 0 where
  pub name : Text
  pub value : Text

pub record TestSpec (F : Type 0) : Type 0 where
  pub pre_request : List SetVariable
  pub extract : List ExtractSpec
  pub assertions : List (AssertionSpec F)

abbrev pub empty_list : {A : Type 0} → List A → Bool
empty_list [] = true
empty_list (x ∷ xs) = false

abbrev pub is_empty_spec : {F : Type 0} → TestSpec F → Bool
is_empty_spec spec =
    empty_list spec.pre_request && (empty_list spec.extract && empty_list spec.assertions)

abbrev pub default_spec : {F : Type 0} → TestSpec F
default_spec = record { pre_request = []; extract = []; assertions = [] }

-- What a result says of the endpoint.
pub record EndpointInfo : Type 0 where
  pub id : Text
  pub name : Text
  pub method : Text
  pub path : Text

-- Why a request was not made, or why it failed.
pub data RequestError : Type 0 where
  bad_config : (reason : Text) → RequestError
  no_config : RequestError
  request_failed : (message : Text) → RequestError

pub record EndpointResult (F : Type 0) : Type 0 where
  pub endpoint : EndpointInfo
  pub ok : Bool
  pub status : Option ℕ
  pub duration_ms : Option F
  pub request_error : Option RequestError
  pub outcomes : List Outcome

-- `EndpointResult::failed_fast`, and the result of a skipped endpoint, which is `ok`.
abbrev pub without_response : {F : Type 0} → EndpointInfo → Bool → RequestError → EndpointResult F
without_response endpoint passed reason = record {
  endpoint = endpoint;
  ok = passed;
  status = none;
  duration_ms = none;
  request_error = some reason;
  outcomes = [];
}

-- The result, the response, the table of runtime variables, the world and the number of requests sent
-- behind a run.
abbrev pub Ran : Type 0 → Type 0
Ran F = EndpointResult F × Option (Response F) × VariableMap × World × ℕ

-- `if !vars.is_empty() { runtime.extend(vars) }`
unfoldable pub write_back : Dict Text Text → VariableMap → VariableMap
unfolding extend
write_back [] table = table
write_back (v ∷ vs) table = extend table (v ∷ vs)

-- A string that holds an opening pair of braces is resolved, `a.expected` in both functions.
unfoldable pub needs_resolve : {F : Type 0} → AssertionSpec F → Option Text
unfolding split_once
needs_resolve a = elim a.expected [
  | none ↦ none
  | some v ↦ elim v [ string s ↦ if contains s (codes "{{") then some s else none | _ ↦ none ]
]

unfoldable pub from_request_value :
    {F : Type 0} → (Json F → Result Text (TestSpec F)) → Option (Json F) → Result Text (TestSpec F)
from_request_value from_value none = ok default_spec
from_request_value from_value (some null) = ok default_spec
from_request_value from_value (some v) = from_value v

module _ {F : Type 0} (src : Sources) (foreign : Foreign F) where
  abbrev with_expected : AssertionSpec F → Option (Text × World) → Option (AssertionSpec F × World)
  with_expected a none = none
  with_expected a (some (s, w)) = some (record a { expected = some (string s) }, w)

  unfoldable pub resolve_expected :
      AssertionSpec F → VariableMap → World → Option (AssertionSpec F × World)
  unfolding needs_resolve resolve_variables
  resolve_expected a vars w = elim (needs_resolve a) [
    | none ↦ some (a, w)
    | some s ↦ with_expected a (resolve_variables src s vars w)
  ]

  -- The variables that are set before the request, resolved on one snapshot.
  unfoldable pub inject :
      List SetVariable
      → (snapshot : VariableMap) → Dict Text Text
      → World
      → Option (Dict Text Text × World)
  unfolding resolve_variables insert
  inject [] snapshot injected w = some (injected, w)
  inject (p ∷ ps) snapshot injected w = elim (resolve_variables src p.value snapshot w) [
    | none ↦ none
    | some (value, w') ↦ inject ps snapshot (insert p.name value injected) w'
  ]

  abbrev push_outcome : Outcome → Option (List Outcome × World) → Option (List Outcome × World)
  push_outcome o none = none
  push_outcome o (some (os, w)) = some (o ∷ os, w)

  -- The assertions in their order, each resolved on the snapshot.
  unfoldable pub judge :
      List (AssertionSpec F)
      → (snapshot : VariableMap) → Response F
      → Option (Json F)
      → World
      → Option (List Outcome × World)
  unfolding resolve_expected evaluate
  judge [] snapshot resp body w = some ([], w)
  judge (a ∷ rest) snapshot resp body w = elim (resolve_expected a snapshot w) [
    | none ↦ none
    | some (a', w') ↦
        push_outcome (evaluate foreign a' resp body) (judge rest snapshot resp body w')
  ]

  module _ (from_value : Json F → Result Text (TestSpec F))
      (from_slice : Response F → Option (Json F)) (sent : ℕ → Result Text (Response F)) where
    -- `sent k` is what `send_request` gives for the request that is sent as number `k`.
    -- Behind the answer: the assertions on a snapshot, and the extractions.
    unfoldable pub conclude_run :
        (others : ℕ → VariableMap → VariableMap)
        → EndpointInfo
        → TestSpec F
        → Response F
        → VariableMap
        → World
        → (requests : ℕ) → Option (Ran F)
    unfolding judge extract_variables write_back
    conclude_run others endpoint config resp table w k =
        let snapshot = others 1 table in
        let body = from_slice resp in
        elim (judge config.assertions snapshot resp body w) [
          | none ↦ none
          | some (outcomes, w') ↦ some (
            record {
              endpoint = endpoint;
              ok = all (λ o. o.passed) outcomes;
              status = some resp.status;
              duration_ms = some resp.duration_ms;
              request_error = none;
              outcomes = outcomes;
            },
            some resp,
            write_back (extract_variables foreign config.extract resp body []) (others 2 snapshot),
            w',
            k,
          )
        ]

    abbrev answered :
        (others : ℕ → VariableMap → VariableMap)
        → EndpointInfo
        → TestSpec F
        → Result Text (Response F)
        → VariableMap
        → World
        → (requests : ℕ) → Option (Ran F)
    unfolding conclude_run
    answered others endpoint config (ok resp) table w k =
        conclude_run others endpoint config resp table w k
    answered others endpoint config (err message) table w k =
        some (without_response endpoint false (request_failed message), none, table, w, k)

    -- The run of a configuration that is not empty: the lock is held for the snapshot and for each
    -- write, and `others` tells what other workers do to the table before each next hold.
    unfoldable pub run_config :
        (others : ℕ → VariableMap → VariableMap)
        → EndpointInfo
        → TestSpec F
        → VariableMap
        → World
        → (requests : ℕ) → Option (Ran F)
    unfolding inject write_back answered
    run_config others endpoint config table w k = elim (inject config.pre_request table [] w) [
      | none ↦ none
      | some (injected, w') ↦
          answered others endpoint config (sent k) (write_back injected (others 0 table)) w' (k + 1)
    ]

    abbrev with_config :
        (others : ℕ → VariableMap → VariableMap)
        → EndpointInfo
        → Result Text (TestSpec F)
        → VariableMap
        → World
        → (requests : ℕ) → Option (Ran F)
    unfolding run_config
    with_config others endpoint (err reason) table w k =
        some (without_response endpoint false (bad_config reason), none, table, w, k)
    with_config others endpoint (ok config) table w k =
        if is_empty_spec config
        then some (without_response endpoint true no_config, none, table, w, k)
        else run_config others endpoint config table w k

    unfoldable pub run_one :
        (others : ℕ → VariableMap → VariableMap)
        → EndpointInfo
        → (tests : Option (Json F)) → VariableMap
        → World
        → (requests : ℕ) → Option (Ran F)
    unfolding from_request_value with_config
    run_one others endpoint tests table w k =
        with_config others endpoint (from_request_value from_value tests) table w k

    -- Alone with the table.
    unfoldable pub run_endpoint :
        EndpointInfo
        → (tests : Option (Json F)) → VariableMap
        → World
        → (requests : ℕ) → Option (Ran F)
    unfolding run_one
    run_endpoint = run_one (λ _ table. table)
