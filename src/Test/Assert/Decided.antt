-- ===== src/Test/Assert/Decided.antt =====
-- Opposite operators decide oppositely; a missing value fails; and the last extraction wins.
use rust_fox.Prelude.{
  ◌≡◌, ◌≢◌, refl, sym, ap, ◌∙◌, Bool, not, List, [], ◌∷◌, Option, none, some, if◌then◌else◌, ◌==◌,
  list_eq, nat_eq, arith,
}
use rust_fox.Prelude.Dict.{Dict, get, or_else, get-insert}
use rust_fox.Prelude.Text.{Text, codes}
use rust_fox.Core.Json.{Json}
use rust_fox.Test.Assert.{
  AssertionSpec, actual, conclude, describe, evaluate, check, expected_text, outcome,
}
use rust_fox.Test.Assert.Extract.{ExtractSpec, insert_some, extract_variables, extracted}
use rust_fox.Test.Assert.Values.{Response, Foreign}

pub data Opposites : Type 0 where
  equality inclusion presence matching emptiness : Opposites

abbrev pub positive : Opposites → Text
positive equality = codes "eq"
positive inclusion = codes "contains"
positive presence = codes "exists"
positive matching = codes "matches"
positive emptiness = codes "empty"

abbrev pub negative : Opposites → Text
negative equality = codes "neq"
negative inclusion = codes "not_contains"
negative presence = codes "not_exists"
negative matching = codes "not_matches"
negative emptiness = codes "not_empty"

get-insert_some :
    (name : Text) (o : Option Text) (out : Dict Text Text) (n : Text)
    → get n (insert_some name o out) ≡ or_else (if name == n then o else none) (get n out)
unfolding insert_some
get-insert_some name none out n = ground arith
get-insert_some name (some v) out n = get-insert n name v out ∙ ground arith

or_else_assoc : (x y z : Option Text) → or_else (or_else x y) z ≡ or_else x (or_else y z)
or_else_assoc none y z = refl
or_else_assoc (some v) y z = refl

module _ {F : Type 0} (foreign : Foreign F) where
  abbrev pub with_op : AssertionSpec F → Text → AssertionSpec F
  with_op a op = record a { op = some op }

  abbrev pub passes : AssertionSpec F → Text → Response F → Option (Json F) → Bool
  passes a op resp body = (evaluate foreign (with_op a op) resp body).passed

  -- A pattern is needed for `matches` only.
  abbrev pub IsUsable : Opposites → AssertionSpec F → Type 0
  IsUsable matching a = foreign.regex (expected_text foreign a.expected) ≢ none
  IsUsable _ a = Unit

  check-opposite :
      (o : Opposites) (a : AssertionSpec F) (v : Json F) (d e : Text)
      → IsUsable o a
      → (outcome foreign d (check foreign (positive o) v (expected_text foreign a.expected))).passed
        ≡ not
            (outcome foreign e
              (check foreign (negative o) v (expected_text foreign a.expected))).passed
  unfolding check
  check-opposite equality a v d e u = ground arith
  check-opposite inclusion a v d e u = ground arith
  check-opposite presence a v d e u = refl
  check-opposite matching a v d e u = ground arith
  check-opposite emptiness a v d e u = ground arith

  -- The value does not depend on the operator.
  actual-with_op :
      (a : AssertionSpec F) (op : Text) (resp : Response F) (body : Option (Json F))
      → actual foreign (with_op a op) resp body ≡ actual foreign a resp body
  unfolding actual
  actual-with_op a op resp body = refl

  passes-conclude :
      (a : AssertionSpec F) (op : Text) (resp : Response F) (body o : Option (Json F))
      → actual foreign a resp body ≡ o
      → passes a op resp body
        ≡ (conclude foreign
            (describe foreign (with_op a op))
            op
            (expected_text foreign a.expected)
            o).passed
  unfolding evaluate
  passes-conclude a op resp body o e =
      ap
        (λ x.
          (conclude foreign (describe foreign (with_op a op)) op (expected_text foreign a.expected)
            x).passed)
        (actual-with_op a op resp body ∙ e)

  -- For a value that is there, exactly one of two opposite operators passes: `eq` and `neq`, `contains` and
  -- `not_contains`, `exists` and `not_exists`, `empty` and `not_empty`, and, for a valid pattern, `matches` and
  -- `not_matches`.
  pub evaluate-opposite :
      (o : Opposites) (a : AssertionSpec F) (resp : Response F) (body : Option (Json F))
      (v : Json F)
      → actual foreign a resp body ≡ some v
      → IsUsable o a
      → passes a (positive o) resp body ≡ not (passes a (negative o) resp body)
  evaluate-opposite o a resp body v e u =
      passes-conclude a (positive o) resp body (some v) e
      ∙ check-opposite o a v (describe foreign (with_op a (positive o)))
          (describe foreign (with_op a (negative o))) u
      ∙ ap not (sym (passes-conclude a (negative o) resp body (some v) e))

  -- For a value that is not there, an assertion passes exactly if its operator is `not_exists`; so `neq`,
  -- `not_contains` and `not_matches` fail too.
  pub evaluate-missing :
      (a : AssertionSpec F) (op : Text) (resp : Response F) (body : Option (Json F))
      → actual foreign a resp body ≡ none
      → passes a op resp body ≡ (op == codes "not_exists")
  evaluate-missing a op resp body e = passes-conclude a op resp body none e ∙ ground arith

  -- The value of the last spec of the name that has one.
  abbrev pub last_extracted :
      Response F → Option (Json F) → (name : Text) → List ExtractSpec → Option Text
  last_extracted resp body name [] = none
  last_extracted resp body name (spec ∷ specs) =
      or_else (last_extracted resp body name specs)
        (if spec.name == name then extracted foreign resp body spec else none)

  -- Extraction leaves a name the value of the last spec of that name that has one, or else the value that it had.
  pub get-extract_variables :
      (specs : List ExtractSpec) (resp : Response F) (body : Option (Json F)) (out : Dict Text Text)
      (name : Text)
      → get name (extract_variables foreign specs resp body out)
        ≡ or_else (last_extracted resp body name specs) (get name out)
  unfolding extract_variables
  get-extract_variables [] resp body out name = refl
  get-extract_variables (spec ∷ specs) resp body out name =
      get-extract_variables specs resp body
        (insert_some spec.name (extracted foreign resp body spec) out) name
      ∙ ap (or_else (last_extracted resp body name specs))
          (get-insert_some spec.name (extracted foreign resp body spec) out name)
      ∙ sym (or_else_assoc (last_extracted resp body name specs) _ (get name out))
