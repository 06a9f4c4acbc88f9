-- ===== src/Codegen/Registry/Declared.antt =====
-- The names of the declared records are distinct, and every record that a type refers to is declared.
use rust_fox.Prelude.{
  ◌≡◌, refl, sym, ap, ◌∙◌, inl, inr, Bool, true, false, List, [], ◌∷◌, ◌++◌, some, length, set,
  keep, find, All, All-append, list_eq, nat_eq, beq_refl, append_assoc, append-nil, map-append,
  Bool-cases, Option-cases, arith,
}
use rust_fox.Prelude.Text.{Text}
use rust_fox.Codegen.Registry.Fresh.{fresh_name-unused}
use rust_fox.Codegen.Registry.{
  NameRegistry, new_registry, contains, name_of, find_shape, fresh_name, enter, finish, Resolver,
  resolve_fields, claim, resolve_ty, resolve_each, resolve_model,
}
use rust_fox.Codegen.Types.{
  FieldType, str, int, float_type, boolean, unknown, array_of, record_of, RecordFields, end, field,
  RecordDef,
}
use rust_fox.Codegen.Registry.Names.{
  labels, RefersTo, FieldsReferTo, AreDistinct, contains-append, contains-append_left,
  AreDistinct-concat, RefersTo-append, All-grown, labels-set, All-set, length-labels,
  contains_middle,
}

pub record IsSound (reg : NameRegistry) : Type 0 where
  pub distinct : AreDistinct (labels reg.records)
  pub named : (n : Text) → contains reg.names n ≡ contains (labels reg.records) n
  pub referred : All (λ r. FieldsReferTo (labels reg.records) r.fields) reg.records

-- `reg` has grown to `reg'`.
abbrev Grown : NameRegistry → NameRegistry → Type 0
Grown reg reg' = (tail : List Text) × (labels reg'.records ≡ labels reg.records ++ tail)

Grown-trans : (a b c : NameRegistry) → Grown a b → Grown b c → Grown a c
Grown-trans a b c (s, e) (t, f) = (s ++ t, f ∙ rw e (append_assoc (labels a.records) s t))

enter-IsSound :
    (name : Text) (reg : NameRegistry)
    → contains reg.names name ≡ false
    → IsSound reg
    → IsSound (enter name reg) × (labels (enter name reg).records ≡ labels reg.records ++ name ∷ [])
enter-IsSound name reg free s =
    let e : labels (enter name reg).records ≡ labels reg.records ++ name ∷ [] =
      map-append (λ r. r.preferred) reg.records (record { preferred = name; fields = end } ∷ []) in
    (
      record {
        distinct =
            rw e
              (AreDistinct-concat (labels reg.records) name s.distinct (sym (s.named name) ∙ free));
        named = λ n. ground (
          arith,
          s.named n,
          ap (λ l. contains l n) e,
          contains-append (labels reg.records) (name ∷ []) n,
        );
        referred = rw e (
            All-append _ reg.records _
              (All-grown (labels reg.records) (name ∷ []) reg.records s.referred) (tt, tt));
      },
      e,
    )

-- What resolving a part of the tree keeps.
abbrev Keeps : Resolver → Type 0
Keeps each =
    (ancestors : List Text) (reg : NameRegistry)
    → IsSound reg
    → IsSound (each ancestors reg).1
      × Grown reg (each ancestors reg).1
      × FieldsReferTo (labels (each ancestors reg).1.records) (each ancestors reg).0

resolve_fields-IsSound :
    (each : Resolver) (name : Text) (reg : NameRegistry)
    → Keeps each
    → contains reg.names name ≡ false
    → IsSound reg
    → IsSound (resolve_fields each name reg)
      × Grown reg (resolve_fields each name reg)
      × (contains (labels (resolve_fields each name reg).records) name ≡ true)
unfolding resolve_fields
resolve_fields-IsSound each name reg keeps free s =
    let (s', e) = enter-IsSound name reg free s in
    let (t, (tail, g), refs) = keeps (name ∷ []) (enter name reg) s' in
    let reg' = (each (name ∷ []) (enter name reg)).1 in
    let fields = (each (name ∷ []) (enter name reg)).0 in
    let split : labels reg'.records ≡ labels reg.records ++ name ∷ tail =
      g ∙ ap (λ l. l ++ tail) e ∙ append_assoc (labels reg.records) (name ∷ []) tail in
    let same : labels (finish (length reg.records) name fields reg').records ≡ labels reg'.records =
      ap (λ i. labels (set reg'.records i (record { preferred = name; fields = fields })))
        (sym (length-labels reg.records))
      ∙ labels-set reg'.records (labels reg.records) tail name fields split in
    (
      record {
        distinct = rw same t.distinct;
        named = λ n. t.named n ∙ ap (λ l. contains l n) (sym same);
        referred = rw same (
            All-set (λ r. FieldsReferTo (labels reg'.records) r.fields) reg'.records
              (length reg.records) _ refs t.referred);
      },
      (name ∷ tail, same ∙ split),
      ap (λ l. contains l name) (same ∙ split) ∙ contains_middle (labels reg.records) tail name,
    )

contains-found :
    (p q : RecordDef → Bool) (rs : List RecordDef) (n : Text)
    → name_of (find p (keep q rs)) ≡ some n
    → contains (labels rs) n ≡ true
contains-found p q [] n h = cc
contains-found p q (r ∷ rs) n h = elim (Bool-cases (q r)) [
  | inr out ↦ ground (arith, contains-found p q rs n)
  | inl kept ↦ elim (Bool-cases (p r)) [
    | inl hit ↦ ground (arith, beq_refl n)
    | inr miss ↦ ground (arith, contains-found p q rs n)
  ]
]

find_shape-declared :
    (reg : NameRegistry) (fields : RecordFields) (n : Text)
    → find_shape reg fields ≡ some n
    → contains (labels reg.records) n ≡ true
unfolding find_shape
find_shape-declared reg fields n h = contains-found _ _ reg.records n h

claim-IsSound :
    (each : Resolver) (preferred : Text) (fields : RecordFields) (ancestors : List Text)
    (reg : NameRegistry)
    → Keeps each
    → IsSound reg
    → IsSound (claim each preferred fields ancestors reg).1
      × Grown reg (claim each preferred fields ancestors reg).1
      × (contains
            (labels (claim each preferred fields ancestors reg).1.records)
            (claim each preferred fields ancestors reg).0
          ≡ true)
unfolding claim
claim-IsSound each preferred fields ancestors reg keeps s =
    elim (Option-cases (find_shape reg fields)) [
      | inl fresh ↦
          rw (fresh, claim)
            (resolve_fields-IsSound each (fresh_name reg ancestors preferred) reg keeps
              (fresh_name-unused reg ancestors preferred) s)
      | inr (n, e) ↦
          rw (e, claim)
            (s, ([], sym (append-nil (labels reg.records))), find_shape-declared reg fields n e)
    ]

abbrev TyKept : FieldType → Type 0
TyKept ty =
    (ancestors : List Text) (reg : NameRegistry)
    → IsSound reg
    → IsSound (resolve_ty ty ancestors reg).1
      × Grown reg (resolve_ty ty ancestors reg).1
      × RefersTo (labels (resolve_ty ty ancestors reg).1.records) (resolve_ty ty ancestors reg).0

unchanged : (reg : NameRegistry) → Grown reg reg
unchanged reg = ([], sym (append-nil (labels reg.records)))

mutual
  unfolding resolve_ty

  resolve_ty-IsSound : (ty : FieldType) → TyKept ty
  resolve_ty-IsSound (array_of inner) ancestors reg s = resolve_ty-IsSound inner ancestors reg s
  resolve_ty-IsSound (record_of preferred fields) ancestors reg s =
      let claimed = claim (resolve_each fields) preferred fields ancestors reg in
      let (t, g, known) =
        claim-IsSound (resolve_each fields) preferred fields ancestors reg
          (resolve_each-IsSound fields) s in
      let (u, (tail, e), refs) =
        resolve_each-IsSound fields (ancestors ++ claimed.0 ∷ []) claimed.1 t in
      (
        u,
        Grown-trans reg claimed.1 (resolve_each fields (ancestors ++ claimed.0 ∷ []) claimed.1).1 g
            (tail, e),
        (
          ap (λ l. contains l claimed.0) e
              ∙ contains-append_left (labels claimed.1.records) tail claimed.0 known,
          refs,
        ),
      )
  resolve_ty-IsSound str ancestors reg s = (s, unchanged reg, tt)
  resolve_ty-IsSound int ancestors reg s = (s, unchanged reg, tt)
  resolve_ty-IsSound float_type ancestors reg s = (s, unchanged reg, tt)
  resolve_ty-IsSound boolean ancestors reg s = (s, unchanged reg, tt)
  resolve_ty-IsSound unknown ancestors reg s = (s, unchanged reg, tt)

  resolve_each-IsSound : (fields : RecordFields) → Keeps (resolve_each fields)
  resolve_each-IsSound end ancestors reg s = (s, unchanged reg, tt)
  resolve_each-IsSound (field k ty fields) ancestors reg s =
      let (t, g, refs) = resolve_ty-IsSound ty ancestors reg s in
      let reg' = (resolve_ty ty ancestors reg).1 in
      let (u, (tail, e), others) = resolve_each-IsSound fields ancestors reg' t in
      (
        u,
        Grown-trans reg reg' (resolve_each fields ancestors reg').1 g (tail, e),
        (
          rw e (RefersTo-append (resolve_ty ty ancestors reg).0 (labels reg'.records) tail refs),
          others,
        ),
      )

-- In the model of any record, the declared records have distinct names, and every record that the
-- type of a field refers to, at any depth, is declared.
pub resolve_model-IsDeclared :
    (root : RecordDef)
    → AreDistinct (labels (resolve_model root))
      × All (λ r. FieldsReferTo (labels (resolve_model root)) r.fields) (resolve_model root)
unfolding resolve_model
resolve_model-IsDeclared root =
    let (s, _, _) =
      resolve_fields-IsSound (resolve_each root.fields) root.preferred new_registry
        (resolve_each-IsSound root.fields) refl
        (record { distinct = tt; named = λ n. refl; referred = tt }) in
    (s.distinct, s.referred)
