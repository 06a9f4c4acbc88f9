-- ===== src/Mock/Equivalence.antt =====
-- The indexed lookup of the request path returns what the scan over all definitions returns.
use mathlib.Core.Option
use rust_fox.Prelude.{
  ℕ, suc, ◌+◌, ◌≡◌, refl, ap, ◌∙◌, Bool, true, false, List, [], ◌∷◌, map, Option, none, some, inl,
  inr, get_elem?, if◌then◌else◌, ◌==◌, list_eq, nat_eq, pair_eq, Bool-cases, Option-cases, arith,
}
use rust_fox.Prelude.Dict.{Dict, get}
use rust_fox.Prelude.Fallible.{Fallible, returns, ◌>>=◌}
use rust_fox.Prelude.Text.{Text}
use rust_fox.Mock.Definition.{MockDefinition}
use rust_fox.Mock.Index.{
  request_key, bindings-compile, positions, routes-set_definitions, set_definitions-IsIndexed,
}
use rust_fox.Mock.Match.{HeaderMap, segments, parse_query}
use rust_fox.Mock.Resolve.{Hit, picks, improve, round, resolve_from, resolve}
use rust_fox.Mock.Store.{
  CompiledRoute, Key, MockStore, compile, route_key, bucket, set_definitions, Best, route_bindings,
  improve_index, consider, consider_all, MatchHit, take_hit, match_request,
}

-- The best position of the indexed loop stands for the best definition of the scan.
abbrev Tied : List CompiledRoute → Best → Option Hit → Type 0
Tied routes none none = Unit
Tied routes (some (i, v)) (some (d, w)) =
    (r : CompiledRoute) × (get_elem? routes i ≡ some r) × (r.def ≡ d) × (v ≡ w)
Tied routes _ _ = ⊥

-- The routes from position `i` on.
abbrev From : List CompiledRoute → ℕ → List CompiledRoute → Type 0
From routes i rs = (j : ℕ) → get_elem? routes (i + j) ≡ get_elem? rs j

From-tail :
    (routes : List CompiledRoute) (i : ℕ) (r : CompiledRoute) (rs : List CompiledRoute)
    → From routes i (r ∷ rs)
    → From routes (suc i) rs
From-tail routes i r rs h j = ap (get_elem? routes) (omega arith) ∙ h (suc j)

From-head :
    (routes : List CompiledRoute) (i : ℕ) (r : CompiledRoute) (rs : List CompiledRoute)
    → From routes i (r ∷ rs)
    → get_elem? routes i ≡ some r
From-head routes i r rs h = ap (get_elem? routes) (omega arith) ∙ h 0

module _ (method path query : Text) (headers : HeaderMap) (routes : List CompiledRoute) where
  abbrev Step : Best → ℕ → Option Hit → Type 0
  Step best idx b =
      (best' : Best) × (consider (segments path) (parse_query query) headers routes best idx
        ≡ returns best')
      × Tied routes best' b

  abbrev gains : Option (Dict Text Text) → Option Hit → MockDefinition → Option Hit
  gains none b d = b
  gains (some vars) b d = improve b d vars

  improve_index-Tied :
      (d : MockDefinition) (vars : Dict Text Text) (idx : ℕ) (best : Best) (b : Option Hit)
      → get_elem? routes idx ≡ some (compile d)
      → Tied routes best b
      → (best' : Best) × (improve_index
            (segments path)
            (parse_query query)
            headers
            routes
            best
            idx
            (compile d)
            vars
          ≡ returns best')
        × Tied routes best' (improve b d vars)
  unfolding improve_index improve compile
  improve_index-Tied d vars idx none none e t = (some (idx, vars), refl, (compile d, e, refl, refl))
  improve_index-Tied d vars idx none (some p) e t = absurd t
  improve_index-Tied d vars idx (some p) none e t = absurd t
  improve_index-Tied d vars idx (some (i, v)) (some (c, w)) e (r, at_i, same, same') =
      elim (Bool-cases (picks d c)) [
        | inl better ↦
            (some (idx, vars), ground arith, rw (better, if◌then◌else◌) (compile d, e, refl, refl))
        | inr worse ↦ (some (i, v), ground arith, rw (worse, if◌then◌else◌) (r, at_i, same, same'))
      ]

  abbrev Outcome : Best → List ℕ → Option Hit → Type 0
  Outcome best ids b =
      (best' : Best) × (consider_all (segments path) (parse_query query) headers routes best ids
        ≡ returns best')
      × Tied routes best' b

  consider-Tied :
      (d : MockDefinition) (idx : ℕ) (best : Best) (b : Option Hit)
      → get_elem? routes idx ≡ some (compile d)
      → Tied routes best b
      → Step best idx
          (gains (route_bindings (segments path) (parse_query query) headers (compile d)) b d)
  unfolding consider
  consider-Tied d idx best b e t =
      elim (Option-cases (route_bindings (segments path) (parse_query query) headers (compile d))) [
        | inl out ↦ (best, ground arith, rw (out, gains) t)
        | inr (vars, hit) ↦
            let (best', run, t') = improve_index-Tied d vars idx best b e t in
            (best', ground arith, rw (hit, gains) t')
      ]

  consider_all-cons :
      (idx : ℕ) (ids : List ℕ) (best : Best) (b b' : Option Hit)
      → Step best idx b
      → ((best' : Best) → Tied routes best' b → Outcome best' ids b')
      → Outcome best (idx ∷ ids) b'
  unfolding consider_all
  consider_all-cons idx ids best b b' (best', e, t) later = rw e (later best' t)

  abbrev same_key : MockDefinition → Bool
  same_key d = route_key (compile d) == request_key method path

  found : MockDefinition → Option (Dict Text Text)
  found d = route_bindings (segments path) (parse_query query) headers (compile d)

  round-same :
      (b : Option Hit) (d : MockDefinition)
      → same_key d ≡ true
      → gains (found d) b d ≡ round method path query headers b d
  unfolding round found
  round-same b d same = ground (arith, bindings-compile method path query headers d)

  round-apart :
      (b : Option Hit) (d : MockDefinition)
      → same_key d ≡ false
      → b ≡ round method path query headers b d
  unfolding round
  round-apart b d apart = ground (arith, bindings-compile method path query headers d)

  -- The loop over the positions of the request's key is the scan over the definitions.
  consider_all-resolve_from :
      (ds : List MockDefinition) (i : ℕ) (best : Best) (b : Option Hit)
      → From routes i (map compile ds)
      → Tied routes best b
      → Outcome best
          (positions i (request_key method path) (map compile ds))
          (resolve_from method path query headers b ds)
  unfolding resolve_from found
  consider_all-resolve_from [] i best b f t = unfold consider_all in (best, refl, t)
  consider_all-resolve_from (d ∷ ds) i best b f t = elim (Bool-cases (same_key d)) [
    | inl same ↦
        rw (← round-same b d same, same)
          (consider_all-cons i _ best _ _ (consider-Tied d i best b (From-head routes i _ _ f) t)
            (λ best' t'.
              consider_all-resolve_from ds (suc i) best' _ (From-tail routes i _ _ f) t'))
    | inr apart ↦
        rw (← round-apart b d apart, apart)
          (consider_all-resolve_from ds (suc i) best b (From-tail routes i _ _ f) t)
  ]

  take_hit-Tied :
      (q : Dict Text Text) (best : Best) (b : Option Hit)
      → Tied routes best b
      → take_hit routes q best ≡ returns (Option.map (λ h. (h.0, h.1, q)) b)
  unfolding take_hit
  take_hit-Tied q none none t = refl
  take_hit-Tied q none (some h) t = absurd t
  take_hit-Tied q (some p) none t = absurd t
  take_hit-Tied q (some (i, v)) (some (d, w)) (r, at_i, same, same') = ground arith

  abbrev look_up : Option (List ℕ) → Fallible (Option MatchHit)
  look_up none = returns none
  look_up (some ids) =
      consider_all (segments path) (parse_query query) headers routes none ids
      >>= take_hit routes (parse_query query)

  look_up-Outcome :
      (o : Option (List ℕ)) (b : Option Hit)
      → Outcome none (bucket o) b
      → look_up o ≡ returns (Option.map (λ h. (h.0, h.1, parse_query query)) b)
  unfolding consider_all take_hit
  look_up-Outcome none b (best', run, t) =
      take_hit_none best' run ∙ take_hit-Tied (parse_query query) best' b t
    where
      take_hit_none :
          (best' : Best)
          → returns none ≡ returns best'
          → returns none ≡ take_hit routes (parse_query query) best'
      take_hit_none none run = refl
      take_hit_none (some p) run = cc
  look_up-Outcome (some ids) b (best', run, t) =
      rw (run, ◌>>=◌) (take_hit-Tied (parse_query query) best' b t)

match_request-look_up :
    (s : MockStore) (method path query : Text) (headers : HeaderMap)
    → match_request s method path query headers
      ≡ look_up method path query headers s.routes (get (request_key method path) s.index)
unfolding match_request
match_request-look_up s method path query headers = ground arith

-- On every list of definitions and every request, `match_request` on the indexed store does not
-- panic and returns the definition and the path parameters that `resolve` returns on the list,
-- with the parsed query.
pub match_request-resolve :
    (defs : List MockDefinition) (method path query : Text) (headers : HeaderMap)
    → match_request (set_definitions defs) method path query headers
      ≡ returns
          (Option.map (λ h. (h.0, h.1, parse_query query)) (resolve method path query headers defs))
unfolding resolve
match_request-resolve defs method path query headers =
    let routes : List CompiledRoute = map compile defs in
    let key : Key = request_key method path in
    let run =
      consider_all-resolve_from method path query headers routes defs 0 none none
        (λ j. ap (get_elem? routes) (omega arith)) tt in
    let held : bucket (get key (set_definitions defs).index) ≡ positions 0 key routes =
      set_definitions-IsIndexed defs key ∙ rw routes-set_definitions refl in
    match_request-look_up (set_definitions defs) method path query headers
    ∙ rw routes-set_definitions (look_up-Outcome method path query headers routes _ _ (rw held run))
