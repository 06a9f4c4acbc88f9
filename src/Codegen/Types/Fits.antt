-- ===== src/Codegen/Types/Fits.antt =====
-- A sample fits the type that is inferred from it, as long as the items of its arrays agree.
use rust_fox.Prelude.{
  ◌≡◌, refl, sym, ◌∙◌, Bool, true, false, ◌&&◌, ◌==◌, list_eq, nat_eq, arith, list_beq_iff,
}
use rust_fox.Core.Json.{
  Json, null, bool, integer, float, string, array, object, Items, nil, cons, Members, none_left,
  member,
}
use rust_fox.Codegen.Types.{
  FieldType, str, int, float_type, boolean, unknown, array_of, record_of, RecordFields, end, field,
  same_shape, same_fields, merge_types,
}

&&_parts : (a b : Bool) → (a && b) ≡ true → (a ≡ true) × (b ≡ true)
&&_parts true b h = (refl, h)
&&_parts false b h = cc

module _ {F : Type 0} where
  -- A null fits every type, as the merge takes it; a number that is an integer is a float too.
  abbrev mutual
    pub Fits : Json F → FieldType → Type 0
    Fits null t = Unit
    Fits (bool b) boolean = Unit
    Fits (integer n) int = Unit
    Fits (integer n) float_type = Unit
    Fits (float x) float_type = Unit
    Fits (string s) str = Unit
    Fits (array items) (array_of t) = FitAll items t
    Fits (object members) (record_of p fields) = FitMembers members fields
    Fits _ _ = ⊥

    pub FitAll : Items F → FieldType → Type 0
    FitAll nil t = Unit
    FitAll (cons item items) t = Fits item t × FitAll items t

    pub FitMembers : Members F → RecordFields → Type 0
    FitMembers none_left end = Unit
    FitMembers (member k v members) (field j t fields) =
        (k ≡ j) × Fits v t × FitMembers members fields
    FitMembers _ _ = ⊥

  mutual
    unfolding same_shape

    Fits-same_shape : (v : Json F) (a b : FieldType) → same_shape a b ≡ true → Fits v b → Fits v a
    Fits-same_shape null a b h f = tt
    Fits-same_shape (array items) (array_of x) (array_of y) h f = FitAll-same_shape items x y h f
    Fits-same_shape (object members) (record_of p xs) (record_of q ys) h f =
        FitMembers-same_fields members xs ys h f
    Fits-same_shape v a b h f = ground arith

    FitAll-same_shape :
        (items : Items F) (x y : FieldType)
        → same_shape x y ≡ true
        → FitAll items y
        → FitAll items x
    FitAll-same_shape nil x y h f = tt
    FitAll-same_shape (cons item items) x y h (f, g) =
        (Fits-same_shape item x y h f, FitAll-same_shape items x y h g)

    FitMembers-same_fields :
        (members : Members F) (xs ys : RecordFields)
        → same_fields xs ys ≡ true
        → FitMembers members ys
        → FitMembers members xs
    FitMembers-same_fields none_left end end h f = tt
    FitMembers-same_fields (member k v members) (field i x xs) (field j y ys) h (e, f, g) =
        let (keys, rest) = &&_parts (i == j) _ h in
        let (shapes, others) = &&_parts (same_shape x y) _ rest in
        (
          e ∙ sym ((list_beq_iff i j).0 keys),
          Fits-same_shape v x y shapes f,
          FitMembers-same_fields members xs ys others g,
        )
    FitMembers-same_fields members xs ys h f = ground arith

-- No conflict when the two are merged.
abbrev pub Compatible : FieldType → FieldType → Type 0
Compatible unknown t = Unit
Compatible t unknown = Unit
Compatible str str = Unit
Compatible int int = Unit
Compatible boolean boolean = Unit
Compatible int float_type = Unit
Compatible float_type int = Unit
Compatible float_type float_type = Unit
Compatible (array_of x) (array_of y) = Compatible x y
Compatible (record_of p xs) (record_of q ys) = same_fields xs ys ≡ true
Compatible _ _ = ⊥

module _ {F : Type 0} where
  mutual
    unfolding merge_types

    pub Fits-merge_left :
        (v : Json F) (a b : FieldType) → Compatible a b → Fits v a → Fits v (merge_types a b)
    Fits-merge_left null a b c f = tt
    Fits-merge_left (array items) (array_of x) (array_of y) c f = FitAll-merge_left items x y c f
    Fits-merge_left (object members) (record_of p xs) (record_of q ys) c f = rw c f
    Fits-merge_left v a b c f = ground arith

    FitAll-merge_left :
        (items : Items F) (x y : FieldType)
        → Compatible x y
        → FitAll items x
        → FitAll items (merge_types x y)
    FitAll-merge_left nil x y c f = tt
    FitAll-merge_left (cons item items) x y c (f, g) =
        (Fits-merge_left item x y c f, FitAll-merge_left items x y c g)

  mutual
    unfolding merge_types

    pub Fits-merge_right :
        (v : Json F) (a b : FieldType) → Compatible a b → Fits v b → Fits v (merge_types a b)
    Fits-merge_right null a b c f = tt
    Fits-merge_right (array items) (array_of x) (array_of y) c f = FitAll-merge_right items x y c f
    Fits-merge_right (object members) (record_of p xs) (record_of q ys) c f =
        rw c (FitMembers-same_fields members xs ys c f)
    Fits-merge_right v unknown b c f = f
    Fits-merge_right v str b c f = ground arith
    Fits-merge_right v int b c f = ground arith
    Fits-merge_right v float_type b c f = ground arith
    Fits-merge_right v boolean b c f = ground arith
    Fits-merge_right v a b c f = ground arith

    FitAll-merge_right :
        (items : Items F) (x y : FieldType)
        → Compatible x y
        → FitAll items y
        → FitAll items (merge_types x y)
    FitAll-merge_right nil x y c f = tt
    FitAll-merge_right (cons item items) x y c (f, g) =
        (Fits-merge_right item x y c f, FitAll-merge_right items x y c g)
