-- ===== src/Codegen/Emit.antt =====
-- fox-codegen/src/json_types/emit.rs, the types, the field names and the declarations in each
-- language; and json_types/mod.rs.
pub mod Wire
use rust_fox.Prelude.{
  ℕ, Bool, true, false, not, ◌&&◌, List, [], ◌∷◌, ◌++◌, Option, none, some, any, eqb, if◌then◌else◌,
  ◌==◌, list_eq, nat_eq,
}
use rust_fox.Prelude.Fallible.{Fallible, returns, panics}
use rust_fox.Prelude.Text.{Text, codes, is_empty, trim}
use rust_fox.Core.Json.{Json}
use rust_fox.Codegen.Escape.{dq}
use rust_fox.Codegen.Naming.{
  Chars, to_snake_case, to_camel_case, to_pascal_case, rust_field_ident, java_field_ident,
  go_field_ident,
}
use rust_fox.Codegen.Registry.{resolve_model}
use rust_fox.Codegen.Types.{
  FieldType, str, int, float_type, boolean, unknown, array_of, record_of, RecordFields, end, field,
  RecordDef, infer_root,
}

unfoldable pub rust_ty : FieldType → Text
rust_ty str = codes "String"
rust_ty int = codes "i64"
rust_ty float_type = codes "f64"
rust_ty boolean = codes "bool"
rust_ty unknown = codes "serde_json::Value"
rust_ty (array_of inner) = codes "Vec<" ++ (rust_ty inner ++ codes ">")
rust_ty (record_of preferred fields) = preferred

unfoldable pub java_ty : FieldType → Text
java_ty str = codes "String"
java_ty int = codes "Long"
java_ty float_type = codes "Double"
java_ty boolean = codes "Boolean"
java_ty unknown = codes "Object"
java_ty (array_of inner) = codes "List<" ++ (java_ty inner ++ codes ">")
java_ty (record_of preferred fields) = preferred

unfoldable pub go_ty : FieldType → Text
go_ty str = codes "string"
go_ty int = codes "int64"
go_ty float_type = codes "float64"
go_ty boolean = codes "bool"
go_ty unknown = codes "interface{}"
go_ty (array_of inner) = codes "[]" ++ go_ty inner
go_ty (record_of preferred fields) = preferred

-- `trim_start_matches("r#")`
unfoldable pub trim_raw : Text → Text
trim_raw (c ∷ d ∷ s) = let rest = trim_raw s in if eqb c b'r' && eqb d b'#' then rest else c ∷ d ∷ s
trim_raw s = s

abbrev pub concat_lines : List Text → Text
concat_lines [] = []
concat_lines (l ∷ ls) = l ++ concat_lines ls

-- What each field of a record comes to.
abbrev pub each_field : (Text → FieldType → Text) → RecordFields → Text
each_field f end = []
each_field f (field json_key ty fields) = f json_key ty ++ each_field f fields

abbrev pub each_record : (RecordDef → Text) → List RecordDef → Text
each_record f [] = []
each_record f (r ∷ rs) = f r ++ each_record f rs

abbrev pub generated_note : Text
generated_note = codes "// 由 RustFox 自动生成，请勿手改。\n\n"

unfoldable pub go_tag : (key : Text) → Text
unfolding dq
go_tag key =
    if any (eqb b'`') key
    then codes "\"json:\\\"" ++ (dq key ++ codes "\\\"\"")
    else codes "`json:\"" ++ (key ++ codes "\"`")

abbrev pub rename_line : (before : Text) (key : Text) (after : Text) → Text
rename_line before key after = before ++ (dq key ++ after)

module _ (chars : Chars) where
  -- The name, and whether the key has to be written beside it.
  unfoldable pub rust_field_name : (key : Text) → Text × Bool
  unfolding to_snake_case rust_field_ident trim_raw
  rust_field_name key =
      let ident = rust_field_ident (to_snake_case chars key) in (ident, not (trim_raw ident == key))

  unfoldable pub java_field_name : (key : Text) → Text × Bool
  unfolding to_camel_case java_field_ident
  java_field_name key =
      let ident = java_field_ident (to_camel_case chars key) in (ident, not (ident == key))

  unfoldable pub go_field_name : (key : Text) → Text
  unfolding to_pascal_case go_field_ident
  go_field_name key = go_field_ident (to_pascal_case chars key)

  unfoldable pub rust_field : (json_key : Text) → FieldType → Text
  unfolding rust_field_name rust_ty dq
  rust_field json_key ty =
      let (ident, renamed) = rust_field_name json_key in
      (if renamed
        then rename_line (codes "    #[serde(rename = \"") json_key (codes "\")]\n")
        else [])
      ++ (codes "    pub " ++ (ident ++ (codes ": " ++ (rust_ty ty ++ codes ",\n"))))

  unfoldable pub emit_rust : List RecordDef → Text
  unfolding rust_field
  emit_rust records =
      generated_note
      ++ each_record
          (λ r.
            codes "#[derive(Debug, Serialize, Deserialize)]\npub struct "
            ++ (r.preferred ++ (codes " {\n" ++ (each_field rust_field r.fields ++ codes "}\n\n"))))
          records

  unfoldable pub java_field : (json_key : Text) → FieldType → Text
  unfolding java_field_name java_ty dq
  java_field json_key ty =
      let (ident, renamed) = java_field_name json_key in
      (if renamed then rename_line (codes "    @JsonProperty(\"") json_key (codes "\")\n") else [])
      ++ (codes "    private " ++ (java_ty ty ++ (codes " " ++ (ident ++ codes ";\n"))))

  abbrev java_imports : Text
  java_imports =
      codes "import com.fasterxml.jackson.annotation.JsonProperty;\nimport java.util.List;\n"
      ++ codes "import lombok.Builder;\nimport lombok.Data;\n\n"

  unfoldable pub emit_java : List RecordDef → Text
  unfolding java_field
  emit_java records =
      generated_note
      ++ (java_imports
          ++ each_record
              (λ r.
                codes "@Data\n@Builder\nclass "
                ++ (r.preferred
                    ++ (codes " {\n" ++ (each_field java_field r.fields ++ codes "}\n\n"))))
              records)

  unfoldable pub go_field : (json_key : Text) → FieldType → Text
  unfolding go_field_name go_ty go_tag
  go_field json_key ty =
      codes "    "
      ++ (go_field_name json_key
          ++ (codes " " ++ (go_ty ty ++ (codes " " ++ (go_tag json_key ++ codes "\n")))))

  unfoldable pub emit_go : List RecordDef → Text
  unfolding go_field
  emit_go records =
      generated_note
      ++ each_record
          (λ r.
            codes "type "
            ++ (r.preferred
                ++ (codes " struct {\n" ++ (each_field go_field r.fields ++ codes "}\n\n"))))
          records

pub data TypeLang : Type 0 where
  rust java go : TypeLang

unfoldable pub from_name : Text → Option TypeLang
from_name s =
    if s == codes "rust"
    then some rust
    else if s == codes "java"
    then some java
    else if s == codes "go"
    then some go
    else none

unfoldable pub file_suffix : TypeLang → Text
file_suffix rust = codes "rs"
file_suffix java = codes "java"
file_suffix go = codes "go"

-- The errors, without their texts, and the result.
pub data Emitted : Type 0 where
  emitted : Text → Emitted
  empty_name json_parse type_inference : Emitted

module _ (chars : Chars) {F : Type 0} (parse : Text → Option (Json F)) where
  abbrev pub emit : TypeLang → List RecordDef → Text
  emit rust = emit_rust chars
  emit java = emit_java chars
  emit go = emit_go chars

  -- Behind `infer_root`; a root that is no record is `unreachable!`.
  abbrev pub emit_root : TypeLang → Option FieldType → Fallible Emitted
  emit_root lang none = returns type_inference
  emit_root lang (some (record_of preferred fields)) =
      returns
        (emitted (emit lang (resolve_model (record { preferred = preferred; fields = fields }))))
  emit_root lang (some _) = panics

  abbrev pub from_value : TypeLang → (root_name : Text) → Option (Json F) → Fallible Emitted
  from_value lang root_name none = returns json_parse
  from_value lang root_name (some value) = emit_root lang (infer_root chars value root_name)

  unfoldable pub json_to_structs : (source root_name : Text) → TypeLang → Fallible Emitted
  unfolding infer_root resolve_model trim
  json_to_structs source root_name lang =
      let name = trim root_name in
      if is_empty name then returns empty_name else from_value lang name (parse source)
