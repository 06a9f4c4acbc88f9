-- ===== src/Codegen/Types.antt =====
-- fox-codegen/src/json_types/model.rs: the type of a JSON sample, and how the types of the items of an
-- array are merged.
pub mod Fits
pub mod Sound
use rust_fox.Prelude.{
  ℕ, Bool, true, false, ◌&&◌, List, [], ◌∷◌, Option, none, some, if◌then◌else◌, ◌==◌, list_eq,
  nat_eq,
}
use rust_fox.Prelude.Text.{Text, codes, is_empty}
use rust_fox.Core.Json.{
  Json, null, bool, integer, float, string, array, object, Items, nil, cons, Members, none_left,
  member,
}
use rust_fox.Codegen.Naming.{Chars, to_pascal_case}

-- `record_of` has the name and the fields of a `RecordDef`, and `field` is a `RecordField`.
mutual
  pub data FieldType : Type 0 where
    str int float_type boolean unknown : FieldType
    array_of : FieldType → FieldType
    record_of : (preferred : Text) → RecordFields → FieldType

  pub data RecordFields : Type 0 where
    end : RecordFields
    field : (json_key : Text) → FieldType → RecordFields → RecordFields

-- A `RecordDef` on its own.
pub record RecordDef : Type 0 where
  pub preferred : Text
  pub fields : RecordFields

unfoldable mutual
  -- The last clauses are the derived equality on types that are no records and no arrays.
  pub same_shape : FieldType → FieldType → Bool
  same_shape (record_of p xs) (record_of q ys) = same_fields xs ys
  same_shape (array_of x) (array_of y) = same_shape x y
  same_shape str str = true
  same_shape int int = true
  same_shape float_type float_type = true
  same_shape boolean boolean = true
  same_shape unknown unknown = true
  same_shape _ _ = false

  pub same_fields : RecordFields → RecordFields → Bool
  same_fields end end = true
  same_fields (field j x xs) (field k y ys) = (j == k) && (same_shape x y && same_fields xs ys)
  same_fields _ _ = false

unfoldable pub merge_types : FieldType → FieldType → FieldType
merge_types unknown t = t
merge_types t unknown = t
merge_types str str = str
merge_types int int = int
merge_types boolean boolean = boolean
merge_types int float_type = float_type
merge_types float_type int = float_type
merge_types float_type float_type = float_type
merge_types (array_of x) (array_of y) = array_of (merge_types x y)
merge_types (record_of p xs) (record_of q ys) =
    if same_fields xs ys then record_of p xs else unknown
merge_types _ _ = unknown

-- `match merged { None => ty, Some(prev) => merge_types(prev, ty) }`
abbrev pub merge_into : Option FieldType → FieldType → FieldType
merge_into none ty = ty
merge_into (some prev) ty = merge_types prev ty

abbrev pub or_unknown : Option FieldType → FieldType
or_unknown none = unknown
or_unknown (some ty) = ty

abbrev pub record_only : Option FieldType → Option FieldType
record_only (some (record_of p fields)) = some (record_of p fields)
record_only _ = none

module _ (chars : Chars) where
  abbrev pub or_item : Text → Text
  or_item pascal = if is_empty pascal then codes "Item" else pascal

  unfoldable pub preferred_name : Text → Text
  unfolding to_pascal_case
  preferred_name key = or_item (to_pascal_case chars key)

  module _ {F : Type 0} where
    unfoldable mutual
      unfolding merge_types preferred_name

      pub infer_value : Text → Json F → FieldType
      infer_value key null = unknown
      infer_value key (bool b) = boolean
      infer_value key (integer n) = int
      infer_value key (float x) = float_type
      infer_value key (string s) = str
      infer_value key (array items) = array_of (or_unknown (infer_items key items none))
      infer_value key (object members) = record_of (preferred_name key) (infer_members members)

      -- The loop over the items, with the type merged so far.
      pub infer_items : Text → Items F → Option FieldType → Option FieldType
      infer_items key nil merged = merged
      infer_items key (cons item items) merged =
          infer_items key items (some (merge_into merged (infer_value key item)))

      pub infer_members : Members F → RecordFields
      infer_members none_left = end
      infer_members (member k v members) = field k (infer_value k v) (infer_members members)

    -- `none` is the error, of which there is one.
    unfoldable pub infer_root : Json F → (root_key : Text) → Option FieldType
    unfolding infer_value
    infer_root (object members) root_key = some (infer_value root_key (object members))
    infer_root (array items) root_key = record_only (infer_items root_key items none)
    infer_root _ root_key = none
