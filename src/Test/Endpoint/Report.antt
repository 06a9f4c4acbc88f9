-- ===== src/Test/Endpoint/Report.antt =====
-- What the test of an endpoint reports, and what it leaves in the table of runtime variables.
use rust_fox.Prelude.{
  ℕ, ◌+◌, inl, inr, ◌≡◌, inl, inr, true, false, List, [], Option, none, some, all, length, list_eq,
  nat_eq,
}
use rust_fox.Prelude.Dict.{Dict, get, or_else}
use rust_fox.Prelude.Result.{Result, ok, err}
use rust_fox.Prelude.Text.{Text}
use rust_fox.Core.External.{Sources}
use rust_fox.Core.Json.{Json}
use rust_fox.Core.Variable.{World, VariableMap}
use rust_fox.Test.Assert.Values.{Response, Foreign}
use rust_fox.Test.Assert.{Outcome}
use rust_fox.Test.Assert.Decided.{last_extracted}
use rust_fox.Test.Endpoint.{
  TestSpec, is_empty_spec, EndpointInfo, bad_config, no_config, request_failed, without_response,
  Ran, inject, judge, from_request_value,
}

module _ {F : Type 0} (src : Sources) (foreign : Foreign F) where
  module _ (from_value : Json F → Result Text (TestSpec F))
      (from_slice : Response F → Option (Json F)) (sent : ℕ → Result Text (Response F))
      (others : ℕ → VariableMap → VariableMap) (endpoint : EndpointInfo) (tests : Option (Json F))
      (table : VariableMap) (w : World) (k : ℕ) where
    -- The four ways in which a run ends.
    pub data IsRun : Ran F → Type 0 where
      misconfigured :
          (reason : Text)
          → from_request_value from_value tests ≡ err reason
          → IsRun (without_response endpoint false (bad_config reason), none, table, w, k)
      skipped :
          (config : TestSpec F)
          → from_request_value from_value tests ≡ ok config
          → is_empty_spec config ≡ true
          → IsRun (without_response endpoint true no_config, none, table, w, k)
      unsent :
          (config : TestSpec F) (message : Text) (injected written : VariableMap) (w' : World)
          → from_request_value from_value tests ≡ ok config
          → is_empty_spec config ≡ false
          → sent k ≡ err message
          → inject src foreign config.pre_request table [] w ≡ some (injected, w')
          → ((name : Text)
              → get name written ≡ or_else (get name injected) (get name (others 0 table)))
          → IsRun
              (without_response endpoint false (request_failed message), none, written, w', k + 1)
      judged :
          (config : TestSpec F) (resp : Response F) (injected written after : VariableMap)
          (outcomes : List Outcome) (w' w'' : World)
          → from_request_value from_value tests ≡ ok config
          → is_empty_spec config ≡ false
          → sent k ≡ ok resp
          → inject src foreign config.pre_request table [] w ≡ some (injected, w')
          → ((name : Text)
              → get name written ≡ or_else (get name injected) (get name (others 0 table)))
          → judge src foreign config.assertions (others 1 written) resp (from_slice resp) w'
            ≡ some (outcomes, w'')
          → length outcomes ≡ length config.assertions
          → ((name : Text)
              → get name after
                ≡ or_else
                    (last_extracted foreign resp (from_slice resp) name config.extract)
                    (get name (others 2 (others 1 written))))
          → IsRun (
            record {
              endpoint = endpoint;
              ok = all (λ o. o.passed) outcomes;
              status = some resp.status;
              duration_ms = some resp.duration_ms;
              request_error = none;
              outcomes = outcomes;
            },
            some resp,
            after,
            w'',
            k + 1,
          )
