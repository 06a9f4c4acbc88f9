-- ===== src/Mock/Server.antt =====
-- `mock_handler` and `start`. The `http` crate's checks of statuses, header names and values, the
-- random draws and the binding of ports are parameters.
pub mod Faults
use rust_fox.Prelude.{
  ℕ, zero, suc, ◌+◌, ◌-◌, ◌≡◌, Bool, true, false, not, ◌&&◌, List, [], ◌∷◌, ◌++◌, Option, none,
  some, any, if◌then◌else◌, ltb, ◌==◌, list_eq, nat_eq,
}
use rust_fox.Prelude.Dict.{Dict}
use rust_fox.Prelude.Fallible.{Fallible, returns, panics, ◌>>=◌}
use rust_fox.Prelude.Text.{Text, codes, contains, split_once, show}
use rust_fox.Core.External.{Sources, CaseMaps}
use rust_fox.Mock.Definition.{MockDefinition}
use rust_fox.Mock.Match.{HeaderMap}
use rust_fox.Mock.Store.{MockStore, MatchHit, match_request}
use rust_fox.Mock.Template.{render_template_with_query}

-- The `http` crate: which statuses, header names and header values it accepts.
pub record HttpRules : Type 0 where
  -- `StatusCode::from_u16`
  pub status_ok : ℕ → Bool
  -- `HeaderName::from_bytes`, which gives the name in its normal form
  pub header_name : Text → Option Text
  -- `parse::<HeaderValue>`
  pub value_ok : Text → Bool

pub record Request : Type 0 where
  pub method : Text
  pub path : Text
  pub query : Option Text
  pub headers : HeaderMap

pub record Response : Type 0 where
  pub status : ℕ
  pub headers : List (Text × Text)
  pub body : Text

-- What one request does: the time slept, the answer (`none` if the template ran out of fuel), and
-- the number of draws made.
pub record Handled : Type 0 where
  pub slept_ms : ℕ
  pub response : Option Response
  pub draws : ℕ

abbrev pub content_type : Text
content_type = codes "content-type"

abbrev pub not_found : Response
not_found = record {
  status = 404;
  headers = (content_type, codes "application/json") ∷ [];
  body = codes "{\"message\":\"未匹配到 Mock 规则\"}";
}

-- `StatusCode::INTERNAL_SERVER_ERROR.into_response()`
abbrev pub server_error : Response
server_error = record { status = 500; headers = []; body = [] }

-- `uri().query().unwrap_or("")`
abbrev pub query_text : Option Text → Text
query_text none = []
query_text (some q) = q

abbrev pub draws_after_fault : MockDefinition → ℕ → ℕ
draws_after_fault def n = if ltb 0 def.fault_rate_pct then n + 1 else n

module _ (rules : HttpRules) (src : Sources) (cases : CaseMaps) where
  -- The draw is made only if the rate is positive.
  unfoldable pub faults : MockDefinition → ℕ → Bool
  faults def n = ltb 0 def.fault_rate_pct && ltb (src.random n 100) def.fault_rate_pct

  unfoldable pub fault_response : MockDefinition → Response
  fault_response def = record {
    status = if rules.status_ok def.fault_status then def.fault_status else 500;
    headers = (content_type, codes "application/json") ∷ [];
    body = codes "{\"message\":\"Mock 故障注入（" ++ (show def.fault_rate_pct ++ codes "% 比例）\"}");
  }

  -- The loop over `def.headers`: a pair that the crate refuses is skipped.
  unfoldable pub own_headers : Dict Text Text → List (Text × Text)
  own_headers [] = []
  own_headers ((k, v) ∷ hs) =
      let later = own_headers hs in
      elim (rules.header_name k) [
        | none ↦ later
        | some name ↦ if rules.value_ok v then (name, v) ∷ later else later
      ]

  unfoldable pub is_html : Dict Text Text → Bool
  unfolding split_once
  is_html hs = any (λ h. contains (cases.to_lowercase h.1) (codes "html")) hs

  unfoldable pub response_headers : Dict Text Text → List (Text × Text)
  unfolding own_headers is_html
  response_headers hs =
      own_headers hs
      ++ (if not (is_html hs)
          then (content_type, codes "application/json; charset=utf-8") ∷ []
          else [])

  -- A refused status makes the builder fail as a whole.
  unfoldable pub build_response : MockDefinition → Text → Response
  unfolding response_headers
  build_response def body =
      if rules.status_ok def.status
      then record { status = def.status; headers = response_headers def.headers; body = body }
      else server_error

  unfoldable pub respond : MatchHit → HeaderMap → ℕ → Handled
  unfolding faults fault_response build_response render_template_with_query
  respond (def, params, query) headers n =
      if faults def n
      then record {
        slept_ms = def.delay_ms;
        response = some (fault_response def);
        draws = draws_after_fault def n;
      }
      else elim (render_template_with_query src cases params query headers def.body_template
          (draws_after_fault def n)) [
            | none ↦ record { slept_ms = def.delay_ms; response = none; draws = n }
            | some (body, n') ↦ record {
              slept_ms = def.delay_ms;
              response = some (build_response def body);
              draws = n';
            }
          ]

  abbrev pub answer : HeaderMap → ℕ → Option MatchHit → Handled
  answer headers n none = record { slept_ms = 0; response = some not_found; draws = n }
  answer headers n (some hit) = respond hit headers n

  unfoldable pub mock_handler : MockStore → Request → ℕ → Fallible Handled
  unfolding match_request respond
  mock_handler store req n = do
    hit ← match_request store req.method req.path (query_text req.query) req.headers
    returns (answer req.headers n hit)

abbrev pub default_mock_port : ℕ
default_mock_port = 4010

abbrev pub max_port_tries : ℕ
max_port_tries = 20

-- `TcpListener::bind` on a port of the loopback address, as the environment answers it.
module _ (binds : ℕ → Bool) where
  -- The loop over `port..port + tries`.
  unfoldable pub probe_ports : (tries port : ℕ) → Option ℕ
  probe_ports zero port = none
  probe_ports (suc tries) port =
      let later = probe_ports tries (suc port) in if binds port then some port else later

  -- The port of the server that `start` returns; `none` is the error that all are taken.
  unfoldable pub start_port : Option ℕ
  unfolding probe_ports
  start_port = probe_ports max_port_tries default_mock_port
