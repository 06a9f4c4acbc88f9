-- ===== src/Mock/Definition.antt =====
-- The mock definitions and how rules and endpoints become definitions.
use rust_fox.Prelude.{ℕ, Bool, List, [], ◌∷◌, Option, none, some, list_eq, nat_eq}
use rust_fox.Prelude.Dict.{Dict, or_insert}
use rust_fox.Prelude.Int.{ℤ, pos, negsuc}
use rust_fox.Prelude.Text.{Text, codes}
use rust_fox.Core.Method.{HttpMethod, as_str}

pub data MockSource : Type 0 where
  default example rule : MockSource

pub record MockMatchItem : Type 0 where
  pub key : Text
  pub value : Text

pub record MockRule : Type 0 where
  pub id : Text
  pub project_id : Text
  pub endpoint_id : Option Text
  pub name : Text
  pub method : HttpMethod
  pub path : Text
  pub match_query : List MockMatchItem
  pub match_headers : List MockMatchItem
  pub response_status : ℕ
  pub response_headers : Dict Text Text
  pub response_body_template : Text
  pub delay_ms : ℕ
  pub fault_rate_pct : ℕ
  pub fault_status : ℕ
  pub enabled : Bool
  pub priority : ℤ

pub record ResponseExample : Type 0 where
  pub id : Text
  pub endpoint_id : Text
  pub name : Text
  pub status : ℕ
  pub headers : Dict Text Text
  pub body : Text
  pub content_type : Text

pub record MockDefinition : Type 0 where
  pub method : Text
  pub path : Text
  pub match_query : List MockMatchItem
  pub match_headers : List MockMatchItem
  pub status : ℕ
  pub headers : Dict Text Text
  pub body_template : Text
  pub delay_ms : ℕ
  pub fault_rate_pct : ℕ
  pub fault_status : ℕ
  pub priority : ℤ
  pub source : MockSource

unfoldable pub from_rule : MockRule → MockDefinition
from_rule r = record {
  method = as_str r.method;
  path = r.path;
  match_query = r.match_query;
  match_headers = r.match_headers;
  status = r.response_status;
  headers = r.response_headers;
  body_template = r.response_body_template;
  delay_ms = r.delay_ms;
  fault_rate_pct = r.fault_rate_pct;
  fault_status = r.fault_status;
  priority = r.priority;
  source = rule;
}

unfoldable pub from_endpoint : Text → Text → Option ResponseExample → MockDefinition
from_endpoint method path (some ex) = record {
  method = method;
  path = path;
  match_query = [];
  match_headers = [];
  status = ex.status;
  headers = or_insert (codes "Content-Type") ex.content_type ex.headers;
  body_template = ex.body;
  delay_ms = 0;
  fault_rate_pct = 0;
  fault_status = 500;
  priority = pos 0;
  source = example;
}
from_endpoint method path none = record {
  method = method;
  path = path;
  match_query = [];
  match_headers = [];
  status = 200;
  headers = (codes "content-type", codes "application/json") ∷ [];
  body_template = codes "{\"message\":\"Mock 默认响应\"}";
  delay_ms = 0;
  fault_rate_pct = 0;
  fault_status = 500;
  priority = negsuc 9;
  source = default;
}
