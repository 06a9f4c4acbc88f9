-- ===== src/Mock/Store.antt =====
-- `MockStore`: definitions compiled once, with an index by method and number of segments.
use rust_fox.Prelude.{
  ℕ, not, List, [], ◌∷◌, ◌++◌, Option, none, some, length, get_elem?, if◌then◌else◌, nat_eq,
  list_eq, pair_eq,
}
use rust_fox.Prelude.Dict.{Dict, get, insert}
use rust_fox.Prelude.Fallible.{Fallible, returns, panics, ◌>>=◌}
use rust_fox.Prelude.Text.{Text, to_ascii_uppercase}
use rust_fox.Mock.Definition.{MockDefinition}
use rust_fox.Mock.Match.{
  HeaderMap, PathSeg, compile_path, segments, match_compiled, query_match_map, headers_match,
  parse_query,
}
use rust_fox.Mock.Resolve.{picks}

pub record CompiledRoute : Type 0 where
  pub def : MockDefinition
  pub method_upper : Text
  pub segs : List PathSeg

abbrev pub Key : Type 0
Key = Text × ℕ

pub record MockStore : Type 0 where
  pub routes : List CompiledRoute
  pub index : Dict Key (List ℕ)

abbrev pub empty_store : MockStore
empty_store = record { routes = []; index = [] }

unfoldable pub compile : MockDefinition → CompiledRoute
unfolding compile_path to_ascii_uppercase
compile d = record {
  def = d;
  method_upper = to_ascii_uppercase d.method;
  segs = compile_path d.path;
}

abbrev pub route_key : CompiledRoute → Key
route_key r = (r.method_upper, length r.segs)

abbrev pub bucket : Option (List ℕ) → List ℕ
bucket none = []
bucket (some ids) = ids

-- `index.entry(key).or_default().push(routes.len()); routes.push(route)`
unfoldable pub add_route : MockStore → CompiledRoute → MockStore
unfolding get insert
add_route s r = record {
  routes = s.routes ++ r ∷ [];
  index = insert (route_key r) (bucket (get (route_key r) s.index) ++ length s.routes ∷ []) s.index;
}

unfoldable pub add_all : MockStore → List MockDefinition → MockStore
unfolding add_route compile
add_all s [] = s
add_all s (d ∷ ds) = add_all (add_route s (compile d)) ds

-- The new inner value; the lock swaps it in whole, so the old one leaves nothing behind.
unfoldable pub set_definitions : List MockDefinition → MockStore
unfolding add_all
set_definitions defs = add_all empty_store defs

abbrev pub Best : Type 0
Best = Option (ℕ × Dict Text Text)

abbrev pub MatchHit : Type 0
MatchHit = MockDefinition × Dict Text Text × Dict Text Text

-- `routes[idx]`
abbrev pub route_at : List CompiledRoute → ℕ → Fallible CompiledRoute
route_at routes idx = elim (get_elem? routes idx) [ none ↦ panics | some r ↦ returns r ]

module _ (path : List Text) (query : Dict Text Text) (headers : HeaderMap) where
  unfoldable pub route_bindings : CompiledRoute → Option (Dict Text Text)
  unfolding match_compiled query_match_map headers_match
  route_bindings r = elim (match_compiled r.segs path) [
    | none ↦ none
    | some vars ↦
        if not (query_match_map r.def.match_query query)
        then none
        else if not (headers_match r.def.match_headers headers)
        then none
        else some vars
  ]

  module _ (routes : List CompiledRoute) where
    unfoldable pub improve_index : Best → ℕ → CompiledRoute → Dict Text Text → Fallible Best
    unfolding picks
    improve_index none idx r vars = returns (some (idx, vars))
    improve_index (some (b, w)) idx r vars = do
      held ← route_at routes b
      returns (if picks r.def held.def then some (idx, vars) else some (b, w))

    unfoldable pub consider : Best → ℕ → Fallible Best
    unfolding route_bindings improve_index
    consider best idx = do
      r ← route_at routes idx
      elim (route_bindings r) [ none ↦ returns best | some vars ↦ improve_index best idx r vars ]

    unfoldable pub consider_all : Best → List ℕ → Fallible Best
    unfolding consider
    consider_all best [] = returns best
    consider_all best (idx ∷ ids) = do best' ← consider best idx; consider_all best' ids

-- `best.map(|(idx, vars)| (routes[idx].def.clone(), vars, query_map))`
unfoldable pub take_hit : List CompiledRoute → Dict Text Text → Best → Fallible (Option MatchHit)
take_hit routes query none = returns none
take_hit routes query (some (idx, vars)) = do
  r ← route_at routes idx
  returns (some (r.def, vars, query))

unfoldable pub match_request :
    MockStore → (method path query : Text) → HeaderMap → Fallible (Option MatchHit)
unfolding segments parse_query get to_ascii_uppercase consider_all take_hit
match_request s method path query headers =
    let req_segs = segments path in
    let query_map = parse_query query in
    elim (get (to_ascii_uppercase method, length req_segs) s.index) [
      | none ↦ returns none
      | some candidates ↦
          consider_all req_segs query_map headers s.routes none candidates
          >>= take_hit s.routes query_map
    ]
