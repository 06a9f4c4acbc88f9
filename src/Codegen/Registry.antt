-- ===== src/Codegen/Registry.antt =====
-- fox-codegen/src/json_types/emit.rs, the names of the records: a record of the shape of one that is
-- done takes its name; else its candidate name, made unique, is declared.
pub mod Fresh
pub mod Names
pub mod Declared
use rust_fox.Prelude.{
  ℕ, zero, suc, ◌+◌, Bool, List, [], ◌∷◌, ◌++◌, Option, none, some, length, set, any, keep, find,
  reverse, if◌then◌else◌, ◌==◌, list_eq, nat_eq,
}
use rust_fox.Prelude.Text.{Text, show}
use rust_fox.Codegen.Types.{
  FieldType, str, int, float_type, boolean, unknown, array_of, record_of, RecordFields, end, field,
  RecordDef, same_fields,
}

-- `NameRegistry`; the two sets are lists.
pub record NameRegistry : Type 0 where
  pub records : List RecordDef
  pub names : List Text
  pub completed : List Text

abbrev pub new_registry : NameRegistry
new_registry = record { records = []; names = []; completed = [] }

-- `set.contains(x)`
abbrev pub contains : List Text → Text → Bool
contains names x = any (λ n. n == x) names

abbrev pub name_of : Option RecordDef → Option Text
name_of none = none
name_of (some r) = some r.preferred

-- 1) a record that is done and has the shape
unfoldable pub find_shape : NameRegistry → RecordFields → Option Text
find_shape reg fields = name_of (
    find (λ r. same_fields r.fields fields)
      (keep (λ r. contains reg.completed r.preferred) reg.records))

-- 4) the loop over the suffixes; `candidate` if the fuel runs out, which it does not.
unfoldable pub numbered : (fuel suffix : ℕ) (names : List Text) (candidate : Text) → Text
numbered zero suffix names candidate = candidate
numbered (suc fuel) suffix names candidate =
    let rest = numbered fuel (suffix + 1) names candidate in
    let tried = candidate ++ show suffix in if contains names tried then rest else tried

-- 3) the loop over the ancestors, nearest first
unfoldable pub qualified : (ancestors : List Text) (names : List Text) (candidate : Text) → Text
unfolding numbered
qualified [] names candidate = numbered (suc (length names)) 2 names candidate
qualified (ancestor ∷ rest) names candidate =
    let further = qualified rest names candidate in
    let tried = ancestor ++ candidate in if contains names tried then further else tried

-- 2), 3) and 4): the name that a new record gets
unfoldable pub fresh_name : NameRegistry → (ancestors : List Text) → (candidate : Text) → Text
unfolding qualified
fresh_name reg ancestors candidate =
    if contains reg.names candidate
    then qualified (reverse ancestors) reg.names candidate
    else candidate

-- The first half of `resolve_fields`: the name is taken, and a placeholder is pushed.
abbrev pub enter : Text → NameRegistry → NameRegistry
enter name reg = record reg {
  names = name ∷ reg.names;
  records = reg.records ++ record { preferred = name; fields = end } ∷ [];
}

-- The second half: the fields are put in place.
abbrev pub finish : (idx : ℕ) (name : Text) → RecordFields → NameRegistry → NameRegistry
finish idx name fields reg = record reg {
  records = set reg.records idx (record { preferred = name; fields = fields });
  completed = name ∷ reg.completed;
}

-- What resolves the fields of a record under ancestors.
abbrev pub Resolver : Type 0
Resolver = List Text → NameRegistry → RecordFields × NameRegistry

unfoldable pub resolve_fields : Resolver → Text → NameRegistry → NameRegistry
resolve_fields each name reg =
    let (fields, reg') = each (name ∷ []) (enter name reg) in
    finish (length reg.records) name fields reg'

unfoldable pub claim :
    Resolver
    → (preferred : Text) → RecordFields
    → (ancestors : List Text) → NameRegistry
    → Text × NameRegistry
unfolding find_shape fresh_name resolve_fields
claim each preferred fields ancestors reg = elim (find_shape reg fields) [
  | some existing ↦ (existing, reg)
  | none ↦ let name = fresh_name reg ancestors preferred in (name, resolve_fields each name reg)
]

unfoldable mutual
  unfolding claim

  pub resolve_ty : FieldType → List Text → NameRegistry → FieldType × NameRegistry
  resolve_ty (array_of inner) ancestors reg =
      let (ty, reg') = resolve_ty inner ancestors reg in (array_of ty, reg')
  resolve_ty (record_of preferred fields) ancestors reg =
      let (name, reg') = claim (resolve_each fields) preferred fields ancestors reg in
      let (fields', reg'') = resolve_each fields (ancestors ++ name ∷ []) reg' in
      (record_of name fields', reg'')
  resolve_ty primitive ancestors reg = (primitive, reg)

  pub resolve_each : RecordFields → List Text → NameRegistry → RecordFields × NameRegistry
  resolve_each end ancestors reg = (end, reg)
  resolve_each (field json_key ty fields) ancestors reg =
      let (ty', reg') = resolve_ty ty ancestors reg in
      let (fields', reg'') = resolve_each fields ancestors reg' in
      (field json_key ty' fields', reg'')

-- `resolve`: the records of the model.
unfoldable pub resolve_model : RecordDef → List RecordDef
unfolding resolve_fields resolve_ty
resolve_model root = (resolve_fields (resolve_each root.fields) root.preferred new_registry).records
