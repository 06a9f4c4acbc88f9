-- ===== src/Codegen/Emit/Wire.antt =====
-- A field is serialized under its JSON key; and the generation does not panic.
use rust_fox.Prelude.{
  ◌≡◌, refl, ap, ◌∙◌, false, not, ◌∷◌, ◌++◌, Option, none, some, inl, inr, ◌==◌, list_eq, nat_eq,
  list_beq_iff, Bool-cases, arith, append_assoc,
}
use rust_fox.Prelude.Fallible.{returns}
use rust_fox.Prelude.Text.{Text, codes, is_empty, trim}
use rust_fox.Core.Json.{Json, null, bool, integer, float, string, array, object}
use rust_fox.Codegen.Emit.{
  trim_raw, rust_field_name, java_field_name, rust_field, java_field, TypeLang, Emitted, empty_name,
  emit_root, from_value, json_to_structs, rename_line, rust_ty, java_ty,
}
use rust_fox.Codegen.Escape.Literals.{read_literal, read_literal-dq}
use rust_fox.Codegen.Escape.{dq}
use rust_fox.Codegen.Naming.{Chars}
use rust_fox.Codegen.Types.{
  FieldType, str, int, float_type, boolean, unknown, array_of, record_of, infer_value, infer_items,
  infer_root, record_only,
}

-- A declaration whose last line is `line` makes `key` the name in JSON: it begins with an attribute
-- that holds the key as a literal, closed before the line, or it is the line and the field is named so.
pub data IsWired (attribute closing line ident key declared : Text) : Type 0 where
  renamed :
      (literal : Text)
      → declared ≡ attribute ++ literal
      → read_literal false literal ≡ some (key, closing ++ line)
      → IsWired attribute closing line ident key declared
  kept : declared ≡ line → ident ≡ key → IsWired attribute closing line ident key declared

rename_line-IsWired :
    (attribute closing line ident key : Text)
    → IsWired attribute closing line ident key (rename_line attribute key (b'"' ∷ closing) ++ line)
rename_line-IsWired attribute closing line ident key =
    renamed (dq key ++ b'"' ∷ (closing ++ line))
      (append_assoc attribute (dq key ++ b'"' ∷ closing) line
        ∙ ap (λ t. attribute ++ t) (append_assoc (dq key) (b'"' ∷ closing) line))
      (read_literal-dq key (closing ++ line))

same_name : (a b : Text) → not (a == b) ≡ false → a ≡ b
same_name a b h = (list_beq_iff a b).0 (ground arith)

module _ (chars : Chars) where
  -- The line of a field in Rust and in Java.
  abbrev pub rust_line : (key : Text) → FieldType → Text
  rust_line key ty =
      codes "    pub "
      ++ ((rust_field_name chars key).0 ++ (codes ": " ++ (rust_ty ty ++ codes ",\n")))

  abbrev pub java_line : (key : Text) → FieldType → Text
  java_line key ty =
      codes "    private "
      ++ (java_ty ty ++ (codes " " ++ ((java_field_name chars key).0 ++ codes ";\n")))

  -- In Rust, a field is declared under its name with its type, and behind a closed rename attribute
  -- whose literal is read back as the JSON key, unless its name without `r#` is the JSON key; in Java
  -- likewise, behind a property annotation, unless its name is the JSON key.
  pub field-IsWired :
      (key : Text) (ty : FieldType)
      → IsWired
          (codes "    #[serde(rename = \"")
          (codes ")]\n")
          (rust_line key ty)
          (trim_raw (rust_field_name chars key).0)
          key
          (rust_field chars key ty)
        × IsWired
            (codes "    @JsonProperty(\"")
            (codes ")\n")
            (java_line key ty)
            (java_field_name chars key).0
            key
            (java_field chars key ty)
  unfolding rust_field java_field
  field-IsWired key ty = (
    elim (Bool-cases (rust_field_name chars key).1) [
      | inl other ↦ rw other (rename_line-IsWired _ (codes ")]\n") (rust_line key ty) _ key)
      | inr same ↦ rw same (kept refl (same_name _ key (unfold rust_field_name in same)))
    ],
    elim (Bool-cases (java_field_name chars key).1) [
      | inl other ↦ rw other (rename_line-IsWired _ (codes ")\n") (java_line key ty) _ key)
      | inr same ↦ rw same (kept refl (same_name _ key (unfold java_field_name in same)))
    ],
  )

  module _ {F : Type 0} (parse : Text → Option (Json F)) where
    record_only-returns :
        (lang : TypeLang) (o : Option FieldType)
        → (r : Emitted) × (emit_root chars parse lang (record_only o) ≡ returns r)
    record_only-returns lang none = (_, refl)
    record_only-returns lang (some str) = (_, refl)
    record_only-returns lang (some int) = (_, refl)
    record_only-returns lang (some float_type) = (_, refl)
    record_only-returns lang (some boolean) = (_, refl)
    record_only-returns lang (some unknown) = (_, refl)
    record_only-returns lang (some (array_of t)) = (_, refl)
    record_only-returns lang (some (record_of p fields)) = (_, refl)

    from_value-returns :
        (lang : TypeLang) (name : Text) (o : Option (Json F))
        → (r : Emitted) × (from_value chars parse lang name o ≡ returns r)
    unfolding infer_root infer_value
    from_value-returns lang name none = (_, refl)
    from_value-returns lang name (some null) = (_, refl)
    from_value-returns lang name (some (bool b)) = (_, refl)
    from_value-returns lang name (some (integer n)) = (_, refl)
    from_value-returns lang name (some (float x)) = (_, refl)
    from_value-returns lang name (some (string s)) = (_, refl)
    from_value-returns lang name (some (array items)) =
        record_only-returns lang (infer_items chars name items none)
    from_value-returns lang name (some (object members)) = (_, refl)

    -- Whatever the sample, the name and the language are, the generation returns, with declarations
    -- or an error: its `unreachable!` is not reached.
    pub json_to_structs-returns :
        (source root_name : Text) (lang : TypeLang)
        → (r : Emitted) × (json_to_structs chars parse source root_name lang ≡ returns r)
    unfolding json_to_structs
    json_to_structs-returns source root_name lang = elim (Bool-cases (is_empty (trim root_name))) [
      | inl blank ↦ rw blank (empty_name, refl)
      | inr named ↦ rw named (from_value-returns lang (trim root_name) (parse source))
    ]
