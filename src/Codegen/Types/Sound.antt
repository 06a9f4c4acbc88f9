-- ===== src/Codegen/Types/Sound.antt =====
-- The inferred type fits its sample, and what happens where the items of an array disagree.
use rust_fox.Prelude.{◌≡◌, refl, Option, none, some, list_eq, nat_eq}
use rust_fox.Prelude.Text.{Text}
use rust_fox.Core.Json.{
  Json, null, bool, integer, float, string, array, object, Items, nil, cons, append, Members,
  none_left, member,
}
use rust_fox.Codegen.Naming.{Chars}
use rust_fox.Codegen.Types.Fits.{
  Fits, FitAll, FitMembers, Compatible, Fits-merge_left, Fits-merge_right,
}
use rust_fox.Codegen.Types.{
  FieldType, unknown, array_of, merge_types, merge_into, or_unknown, infer_value, infer_items,
  infer_members,
}

abbrev pub Agrees : Option FieldType → FieldType → Type 0
Agrees none ty = Unit
Agrees (some prev) ty = Compatible prev ty

abbrev FitsMerged : {F : Type 0} → Json F → Option FieldType → Type 0
FitsMerged v none = ⊥
FitsMerged v (some t) = Fits v t

module _ (chars : Chars) {F : Type 0} where
  -- In each array, every item agrees with the merged type of the items before it.
  abbrev mutual
    pub IsUniform : Text → Json F → Type 0
    IsUniform key (array items) = AreUniform key items none
    IsUniform key (object members) = MembersUniform members
    IsUniform key _ = Unit

    pub AreUniform : Text → Items F → Option FieldType → Type 0
    AreUniform key nil merged = Unit
    AreUniform key (cons item items) merged =
        IsUniform key item
        × Agrees merged (infer_value chars key item)
        × AreUniform key items (some (merge_into merged (infer_value chars key item)))

    pub MembersUniform : Members F → Type 0
    MembersUniform none_left = Unit
    MembersUniform (member k v members) = IsUniform k v × MembersUniform members

  keeps_fitting :
      (key : Text) (items : Items F) (merged : Option FieldType) (v : Json F)
      → AreUniform key items merged
      → FitsMerged v merged
      → Fits v (or_unknown (infer_items chars key items merged))
  unfolding infer_value
  keeps_fitting key nil none v u f = elim f [ ]
  keeps_fitting key nil (some t) v u f = f
  keeps_fitting key (cons item items) none v u f = elim f [ ]
  keeps_fitting key (cons item items) (some t) v (_, a, u) f =
      keeps_fitting key items (some (merge_types t (infer_value chars key item))) v u
        (Fits-merge_left v t (infer_value chars key item) a f)

  Fits-merge_into :
      (merged : Option FieldType) (ty : FieldType) (v : Json F)
      → Agrees merged ty
      → Fits v ty
      → Fits v (merge_into merged ty)
  Fits-merge_into none ty v a f = f
  Fits-merge_into (some t) ty v a f = Fits-merge_right v t ty a f

  mutual
    unfolding infer_value

    infer_value-Fits :
        (v : Json F) (key : Text) → IsUniform key v → Fits v (infer_value chars key v)
    infer_value-Fits null key u = tt
    infer_value-Fits (bool b) key u = tt
    infer_value-Fits (integer n) key u = tt
    infer_value-Fits (float x) key u = tt
    infer_value-Fits (string s) key u = tt
    infer_value-Fits (array items) key u = infer_items-FitAll items key none u
    infer_value-Fits (object members) key u = infer_members-FitMembers members u

    infer_items-FitAll :
        (items : Items F) (key : Text) (merged : Option FieldType)
        → AreUniform key items merged
        → FitAll items (or_unknown (infer_items chars key items merged))
    infer_items-FitAll nil key merged u = tt
    infer_items-FitAll (cons item items) key merged (h, a, u) = (
      keeps_fitting key items (some (merge_into merged (infer_value chars key item))) item u (
          Fits-merge_into merged (infer_value chars key item) item a (infer_value-Fits item key h)),
      infer_items-FitAll items key (some (merge_into merged (infer_value chars key item))) u,
    )

    infer_members-FitMembers :
        (members : Members F)
        → MembersUniform members
        → FitMembers members (infer_members chars members)
    infer_members-FitMembers none_left u = tt
    infer_members-FitMembers (member k v members) (h, u) =
        (refl, infer_value-Fits v k h, infer_members-FitMembers members u)

  -- A sample in which the items of each array agree fits its inferred type: objects are records
  -- with the same keys in the same order, items have the type of the array's items, integers may
  -- have become floats, and nulls stand at any type.
  pub infer_value-sound :
      (key : Text) (v : Json F) → IsUniform key v → Fits v (infer_value chars key v)
  infer_value-sound key v u = infer_value-Fits v key u

  infer_items-append :
      (key : Text) (xs ys : Items F) (merged : Option FieldType)
      → infer_items chars key (append xs ys) merged
        ≡ infer_items chars key ys (infer_items chars key xs merged)
  unfolding infer_value append
  infer_items-append key nil ys merged = refl
  infer_items-append key (cons x xs) ys merged =
      infer_items-append key xs ys (some (merge_into merged (infer_value chars key x)))

  -- Once the items so far are merged to `unknown`, be it by a conflict, the next item alone decides
  -- the type of the array's items.
  pub infer_value-forgets :
      (key : Text) (xs : Items F) (v : Json F)
      → infer_items chars key xs none ≡ some unknown
      → infer_value chars key (array (append xs (cons v nil))) ≡ array_of (infer_value chars key v)
  unfolding infer_value merge_types
  infer_value-forgets key xs v h = rw (infer_items-append, h) refl
