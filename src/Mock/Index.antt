-- ===== src/Mock/Index.antt =====
-- The index of `MockStore` against the scan of `resolve`: the lemmas behind their agreement.
use rust_fox.Prelude.{
  ℕ, suc, ◌+◌, ◌≡◌, refl, ap, false, ◌&&◌, List, [], ◌∷◌, ◌++◌, map, none, inl, inr, length,
  if◌then◌else◌, eqb, ◌==◌, list_eq, nat_eq, pair_eq, append-nil, append_assoc, Bool-cases,
  Option-cases, arith, pair_beq_iff,
}
use native.Mathlib.Nat.{zero-add}
use rust_fox.Prelude.Dict.{Dict, get, insert, get-insert}
use rust_fox.Prelude.Text.{Text, ascii_upper, ascii_lower, to_ascii_uppercase, eq_ignore_ascii_case}
use rust_fox.Mock.Definition.{MockDefinition}
use rust_fox.Mock.Match.{
  HeaderMap, PathSeg, seg_of, param_name, compile_path, segments, bind_compiled, bind_path,
  match_compiled, match_path, query_match, parse_query,
}
use rust_fox.Mock.Resolve.{bindings}
use rust_fox.Mock.Store.{
  CompiledRoute, Key, MockStore, empty_store, compile, route_key, bucket, add_route, add_all,
  set_definitions, route_bindings,
}

ascii_case-agree :
    (a b : ℕ) → eqb (ascii_lower a) (ascii_lower b) ≡ eqb (ascii_upper a) (ascii_upper b)
ascii_case-agree a b = ground arith

-- Comparing without case is comparing the upper-case forms.
pub eq_ignore_ascii_case-upper :
    (a b : Text) → eq_ignore_ascii_case a b ≡ (to_ascii_uppercase a == to_ascii_uppercase b)
unfolding eq_ignore_ascii_case to_ascii_uppercase
eq_ignore_ascii_case-upper [] [] = refl
eq_ignore_ascii_case-upper [] (y ∷ b) = refl
eq_ignore_ascii_case-upper (x ∷ a) [] = refl
eq_ignore_ascii_case-upper (x ∷ a) (y ∷ b) =
    rw (ascii_case-agree x y)
      (ap (λ t. eqb (ascii_upper x) (ascii_upper y) && t) (eq_ignore_ascii_case-upper a b))

length-compile : (f : Text → PathSeg) (ts : List Text) → length (map f ts) ≡ length ts
length-compile f [] = refl
length-compile f (t ∷ ts) = ap suc (length-compile f ts)

bind_compiled-bind_path :
    (ts path : List Text) (vars : Dict Text Text)
    → bind_compiled (map (λ s. seg_of s (param_name s)) ts) path vars ≡ bind_path ts path vars
unfolding bind_compiled bind_path
bind_compiled-bind_path [] path vars = refl
bind_compiled-bind_path (t ∷ ts) [] vars = refl
bind_compiled-bind_path (t ∷ ts) (p ∷ ps) vars = elim (Option-cases (param_name t)) [
  | inl e ↦ rw e (rw (bind_compiled-bind_path ts ps vars) refl)
  | inr (name, e) ↦ rw e (bind_compiled-bind_path ts ps (insert name p vars))
]

-- A compiled template matches as its source does.
pub match_compiled-match_path :
    (template path : Text)
    → match_compiled (compile_path template) (segments path) ≡ match_path template path
unfolding match_compiled match_path compile_path
match_compiled-match_path template path = rw (length-compile, bind_compiled-bind_path) refl

length-compile_path : (t : Text) → length (compile_path t) ≡ length (segments t)
unfolding compile_path
length-compile_path t = length-compile _ (segments t)

match_path-length :
    (t p : Text) → eqb (length (segments t)) (length (segments p)) ≡ false → match_path t p ≡ none
unfolding match_path
match_path-length t p h = rw h

-- The key under which the index holds a route, and the key of a request.
abbrev pub request_key : (method path : Text) → Key
request_key method path = (to_ascii_uppercase method, length (segments path))

module _ (method path query : Text) (headers : HeaderMap) where
  -- A definition passes the guards of `resolve` if its route has the request's key and passes
  -- those of the indexed loop.
  pub bindings-compile :
      (d : MockDefinition)
      → bindings method path query headers d ≡ (
          if route_key (compile d) == request_key method path
          then route_bindings (segments path) (parse_query query) headers (compile d)
          else none)
  unfolding bindings compile route_bindings query_match
  bindings-compile d = ground (
    arith,
    eq_ignore_ascii_case-upper d.method method,
    match_compiled-match_path d.path path,
    length-compile_path d.path,
    match_path-length d.path path,
  )

-- The positions of the routes with key `k`, counted from `i`.
abbrev pub positions : ℕ → Key → List CompiledRoute → List ℕ
positions i k [] = []
positions i k (r ∷ rs) =
    let later = positions (suc i) k rs in if route_key r == k then i ∷ later else later

module _ (k : Key) where
  positions-append :
      (i : ℕ) (rs : List CompiledRoute) (r : CompiledRoute)
      → positions i k (rs ++ r ∷ [])
        ≡ positions i k rs ++ (if route_key r == k then (i + length rs) ∷ [] else [])
  positions-append i [] r = ground arith
  positions-append i (q ∷ rs) r = ground (arith, positions-append (suc i) rs r)

-- The index holds, under each key, the positions of the routes with that key.
abbrev pub IsIndexed : MockStore → Type 0
IsIndexed s = (k : Key) → bucket (get k s.index) ≡ positions 0 k s.routes

add_route-IsIndexed : (s : MockStore) (r : CompiledRoute) → IsIndexed s → IsIndexed (add_route s r)
unfolding add_route
add_route-IsIndexed s r h k = elim (Bool-cases (route_key r == k)) [
  | inl same ↦
      rw (get-insert, positions-append, same)
        (rw ((pair_beq_iff (route_key r) k).0 same, h k, zero-add) refl)
  | inr apart ↦ rw (get-insert, positions-append, apart) (rw (append-nil, h k) refl)
]

add_all-IsIndexed :
    (s : MockStore) (ds : List MockDefinition) → IsIndexed s → IsIndexed (add_all s ds)
unfolding add_all
add_all-IsIndexed s [] h = h
add_all-IsIndexed s (d ∷ ds) h =
    add_all-IsIndexed (add_route s (compile d)) ds (add_route-IsIndexed s (compile d) h)

routes-add_all :
    (s : MockStore) (ds : List MockDefinition) → (add_all s ds).routes ≡ s.routes ++ map compile ds
unfolding add_all add_route
routes-add_all s [] = rw append-nil refl
routes-add_all s (d ∷ ds) = rw (routes-add_all (add_route s (compile d)) ds, append_assoc) refl

pub routes-set_definitions :
    (ds : List MockDefinition) → (set_definitions ds).routes ≡ map compile ds
unfolding set_definitions
routes-set_definitions ds = routes-add_all empty_store ds

-- The index invariant of every store that is set.
pub set_definitions-IsIndexed : (ds : List MockDefinition) → IsIndexed (set_definitions ds)
unfolding set_definitions get
set_definitions-IsIndexed ds = add_all-IsIndexed empty_store ds (λ k. refl)
