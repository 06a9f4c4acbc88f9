-- ===== src/Test/Assert/Extract.antt =====
-- fox-test/src/extract.rs: the variables that are taken from a response.
use rust_fox.Prelude.{List, [], ◌∷◌, Option, none, some, if◌then◌else◌, ◌==◌, list_eq, nat_eq}
use rust_fox.Prelude.Dict.{Dict, insert}
use rust_fox.Prelude.Text.{Text, codes}
use rust_fox.Core.Json.{Json}
use rust_fox.Test.Assert.Values.{Response, Foreign, find_header, extract_body_json}

pub record ExtractSpec : Type 0 where
  pub name : Text
  pub source : Text
  pub path : Text

-- `if let Some(value) = value { out.insert(name, value) }`
unfoldable pub insert_some : (name : Text) → Option Text → Dict Text Text → Dict Text Text
unfolding insert
insert_some name none out = out
insert_some name (some value) out = insert name value out

module _ {F : Type 0} (foreign : Foreign F) where
  -- One spec's value.
  abbrev pub extracted : Response F → Option (Json F) → ExtractSpec → Option Text
  extracted resp body_value spec =
      if spec.source == codes "header"
      then find_header spec.path resp.headers
      else extract_body_json foreign body_value spec.path

  unfoldable pub extract_variables :
      List ExtractSpec → Response F → Option (Json F) → Dict Text Text → Dict Text Text
  unfolding find_header extract_body_json insert_some
  extract_variables [] resp body_value out = out
  extract_variables (spec ∷ specs) resp body_value out =
      extract_variables specs resp body_value
        (insert_some spec.name (extracted resp body_value spec) out)
