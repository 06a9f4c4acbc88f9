-- ===== src/Codegen/Registry/Names.antt =====
-- The names of a list of records, and the types that refer to them.
use rust_fox.Prelude.{
  ℕ, zero, suc, ◌≡◌, refl, ap, true, false, ◌||◌, List, [], ◌∷◌, ◌++◌, map, length, set, All,
  list_eq, nat_eq, beq_refl, beq_sym, arith,
}
use rust_fox.Prelude.Text.{Text}
use rust_fox.Codegen.Registry.{contains}
use rust_fox.Codegen.Types.{
  FieldType, str, int, float_type, boolean, unknown, array_of, record_of, RecordFields, end, field,
  RecordDef,
}

abbrev pub labels : List RecordDef → List Text
labels = map (λ r. r.preferred)

abbrev mutual
  -- Every record in the type has one of the names.
  pub RefersTo : List Text → FieldType → Type 0
  RefersTo names (array_of t) = RefersTo names t
  RefersTo names (record_of p fields) = (contains names p ≡ true) × FieldsReferTo names fields
  RefersTo names _ = Unit

  pub FieldsReferTo : List Text → RecordFields → Type 0
  FieldsReferTo names end = Unit
  FieldsReferTo names (field k t fields) = RefersTo names t × FieldsReferTo names fields

abbrev pub AreDistinct : List Text → Type 0
AreDistinct [] = Unit
AreDistinct (n ∷ names) = (contains names n ≡ false) × AreDistinct names

pub contains-append :
    (xs ys : List Text) (n : Text) → contains (xs ++ ys) n ≡ (contains xs n || contains ys n)
contains-append [] ys n = refl
contains-append (x ∷ xs) ys n = ground (arith, contains-append xs ys n)

pub AreDistinct-concat :
    (xs : List Text) (n : Text)
    → AreDistinct xs
    → contains xs n ≡ false
    → AreDistinct (xs ++ n ∷ [])
AreDistinct-concat [] n d h = (refl, tt)
AreDistinct-concat (x ∷ xs) n (k, d) h = (
  ground (arith, contains-append xs (n ∷ []) x, beq_sym x n),
  AreDistinct-concat xs n d (ground arith),
)

pub contains-append_left :
    (xs ys : List Text) (n : Text) → contains xs n ≡ true → contains (xs ++ ys) n ≡ true
contains-append_left xs ys n h = rw (contains-append, h) refl

mutual
  pub RefersTo-append : (t : FieldType) (xs ys : List Text) → RefersTo xs t → RefersTo (xs ++ ys) t
  RefersTo-append (array_of t) xs ys h = RefersTo-append t xs ys h
  RefersTo-append (record_of p fields) xs ys (k, h) =
      (contains-append_left xs ys p k, FieldsReferTo-append fields xs ys h)
  RefersTo-append str xs ys h = tt
  RefersTo-append int xs ys h = tt
  RefersTo-append float_type xs ys h = tt
  RefersTo-append boolean xs ys h = tt
  RefersTo-append unknown xs ys h = tt

  pub FieldsReferTo-append :
      (fs : RecordFields) (xs ys : List Text) → FieldsReferTo xs fs → FieldsReferTo (xs ++ ys) fs
  FieldsReferTo-append end xs ys h = tt
  FieldsReferTo-append (field k t fs) xs ys (h, g) =
      (RefersTo-append t xs ys h, FieldsReferTo-append fs xs ys g)

pub All-grown :
    (xs ys : List Text) (rs : List RecordDef)
    → All (λ r. FieldsReferTo xs r.fields) rs
    → All (λ r. FieldsReferTo (xs ++ ys) r.fields) rs
All-grown xs ys [] h = tt
All-grown xs ys (r ∷ rs) (h, g) = (FieldsReferTo-append r.fields xs ys h, All-grown xs ys rs g)

pub labels-set :
    (rs : List RecordDef) (xs tail : List Text) (name : Text) (fields : RecordFields)
    → labels rs ≡ xs ++ name ∷ tail
    → labels (set rs (length xs) (record { preferred = name; fields = fields })) ≡ labels rs
labels-set [] [] tail name fields e = refl
labels-set [] (x ∷ xs) tail name fields e = refl
labels-set (r ∷ rs) [] tail name fields e = ground (arith, e)
labels-set (r ∷ rs) (x ∷ xs) tail name fields e =
    ap (◌∷◌ r.preferred) (labels-set rs xs tail name fields (ground (arith, e)))

pub All-set :
    (P : RecordDef → Type 0) (rs : List RecordDef) (i : ℕ) (r : RecordDef)
    → P r
    → All P rs
    → All P (set rs i r)
All-set P [] i r p h = tt
All-set P (x ∷ rs) zero r p (q, h) = (p, h)
All-set P (x ∷ rs) (suc i) r p (q, h) = (q, All-set P rs i r p h)

pub length-labels : (rs : List RecordDef) → length (labels rs) ≡ length rs
length-labels [] = refl
length-labels (r ∷ rs) = ap suc (length-labels rs)

pub contains_middle : (xs ys : List Text) (n : Text) → contains (xs ++ n ∷ ys) n ≡ true
contains_middle [] ys n = rw beq_refl refl
contains_middle (x ∷ xs) ys n = ground (arith, contains_middle xs ys n)
