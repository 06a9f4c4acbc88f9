-- ===== src/Mock/Resolve.antt =====
-- `resolve`: the best definition by one scan over all of them, and the order on definitions.
use rust_fox.Prelude.{ℕ, Bool, not, List, [], ◌∷◌, Option, none, some, if◌then◌else◌, eqb, ltb}
use rust_fox.Prelude.Dict.{Dict}
use rust_fox.Prelude.Int.{ltb_ℤ}
use rust_fox.Prelude.Text.{Text, eq_ignore_ascii_case}
use rust_fox.Mock.Definition.{MockSource, default, example, rule, MockDefinition}
use rust_fox.Mock.Match.{HeaderMap, match_path, query_match, headers_match}

-- The derived order of `MockSource`, by declaration.
abbrev pub rank : MockSource → ℕ
rank default = 0
rank example = 1
rank rule = 2

-- `a` replaces the best so far, `b`.
unfoldable pub picks : MockDefinition → MockDefinition → Bool
picks a b =
    if not (eqb (rank a.source) (rank b.source))
    then ltb (rank b.source) (rank a.source)
    else ltb_ℤ b.priority a.priority

abbrev pub Hit : Type 0
Hit = MockDefinition × Dict Text Text

-- `match &best { … }` on a definition that matched.
unfoldable pub improve : Option Hit → MockDefinition → Dict Text Text → Option Hit
unfolding picks
improve none def vars = some (def, vars)
improve (some (b, w)) def vars = if picks def b then some (def, vars) else some (b, w)

module _ (method path query : Text) (headers : HeaderMap) where
  -- The four guards of a round; `none` is `continue`.
  unfoldable pub bindings : MockDefinition → Option (Dict Text Text)
  unfolding match_path query_match headers_match eq_ignore_ascii_case
  bindings def =
      if not (eq_ignore_ascii_case def.method method)
      then none
      else elim (match_path def.path path) [
        | none ↦ none
        | some vars ↦
            if not (query_match def.match_query query)
            then none
            else if not (headers_match def.match_headers headers)
            then none
            else some vars
      ]

  unfoldable pub round : Option Hit → MockDefinition → Option Hit
  unfolding bindings improve
  round best def = elim (bindings def) [ none ↦ best | some vars ↦ improve best def vars ]

  unfoldable pub resolve_from : Option Hit → List MockDefinition → Option Hit
  unfolding round
  resolve_from best [] = best
  resolve_from best (def ∷ defs) = resolve_from (round best def) defs

  unfoldable pub resolve : List MockDefinition → Option Hit
  unfolding resolve_from
  resolve defs = resolve_from none defs
