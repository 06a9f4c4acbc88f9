-- ===== src/Test/Ordering.antt =====
-- fox-test/src/runner.rs, `order_endpoints`: the order in which the endpoints of a collection run.
use mathlib.Core.List.{Perm}
use rust_fox.Prelude.{
  ◌^◌, ◌-◌, ◌≡◌, refl, ap, ◌∙◌, arith, List, [], ◌∷◌, Option, none, some, map, Bool, list_eq,
  nat_eq,
}
use rust_fox.Prelude.Compare.{
  IsOrder, text_le, text_le-IsOrder, le_ℤ, le_ℤ-IsOrder, on, on-IsOrder, then_by, then_by-IsOrder,
}
use rust_fox.Prelude.Dict.{Dict, get}
use rust_fox.Prelude.Int.{ℤ, pos}
use rust_fox.Prelude.Sort.{IsSorted, sort_by, sort_by-IsSorted, sort_by-perm, insert_sorted}
use rust_fox.Prelude.Text.{Text}
use rust_fox.Core.Model.{Endpoint}

-- `i64::MAX`
abbrev pub max_i64 : ℤ
max_i64 = pos (2 ^ 63 - 1)

abbrev pub or_last : Option ℤ → ℤ
or_last none = max_i64
or_last (some f) = f

module _ {Json : Type 0} where
  -- `ep.folder_id.and_then(|id| folder_order.get(&id).copied()).unwrap_or(i64::MAX)`
  unfoldable pub folder_rank : Dict Text ℤ → Endpoint Json → ℤ
  unfolding get
  folder_rank folder_order ep =
      or_last (elim ep.folder_id [ none ↦ none | some id ↦ get id folder_order ])

  -- The comparison of the sort, not greater.
  abbrev pub pair_le : ℤ × (ℤ × Endpoint Json) → ℤ × (ℤ × Endpoint Json) → Bool
  pair_le =
      then_by (on (λ p. p.0) le_ℤ) (then_by (on (λ p. p.1.0) le_ℤ) (on (λ p. p.1.1.name) text_le))

  unfoldable pub order_endpoints : List (Endpoint Json) → Dict Text ℤ → List (Endpoint Json)
  unfolding folder_rank sort_by
  order_endpoints endpoints folder_order =
      map (λ p. p.1.1)
        (sort_by pair_le (map (λ ep. (folder_rank folder_order ep, (ep.sort_order, ep))) endpoints))

  -- By folder, then by the order within it, then by name.
  abbrev pub endpoint_le : Dict Text ℤ → Endpoint Json → Endpoint Json → Bool
  endpoint_le folder_order =
      then_by (on (folder_rank folder_order) le_ℤ)
        (then_by (on (λ ep. ep.sort_order) le_ℤ) (on (λ ep. ep.name) text_le))

  module _ (folder_order : Dict Text ℤ) where
    endpoint_le-IsOrder : IsOrder (endpoint_le folder_order)
    endpoint_le-IsOrder = then_by-IsOrder (on-IsOrder (folder_rank folder_order) le_ℤ-IsOrder) (
        then_by-IsOrder (on-IsOrder (λ ep. ep.sort_order) le_ℤ-IsOrder)
          (on-IsOrder (λ ep. ep.name) text_le-IsOrder))

    abbrev paired : Endpoint Json → ℤ × (ℤ × Endpoint Json)
    paired ep = (folder_rank folder_order ep, (ep.sort_order, ep))

    insert_sorted-paired :
        (ep : Endpoint Json) (eps : List (Endpoint Json))
        → insert_sorted pair_le (paired ep) (map paired eps)
          ≡ map paired (insert_sorted (endpoint_le folder_order) ep eps)
    unfolding insert_sorted
    insert_sorted-paired ep [] = refl
    insert_sorted-paired ep (e ∷ eps) = ground (arith, insert_sorted-paired ep eps)

    sort_by-paired :
        (eps : List (Endpoint Json))
        → sort_by pair_le (map paired eps) ≡ map paired (sort_by (endpoint_le folder_order) eps)
    unfolding sort_by
    sort_by-paired [] = refl
    sort_by-paired (ep ∷ eps) =
        ap (insert_sorted pair_le (paired ep)) (sort_by-paired eps)
        ∙ insert_sorted-paired ep (sort_by (endpoint_le folder_order) eps)

    unpaired : (eps : List (Endpoint Json)) → map (λ p. p.1.1) (map paired eps) ≡ eps
    unpaired [] = refl
    unpaired (ep ∷ eps) = ap (◌∷◌ ep) (unpaired eps)

    order_endpoints-sort_by :
        (eps : List (Endpoint Json))
        → order_endpoints eps folder_order ≡ sort_by (endpoint_le folder_order) eps
    unfolding order_endpoints
    order_endpoints-sort_by eps =
        ap (map (λ p. p.1.1)) (sort_by-paired eps)
        ∙ unpaired (sort_by (endpoint_le folder_order) eps)

    -- The endpoints are ordered by the rank of their folder, those without a ranked folder last,
    -- then by their own order, then by name, and each is run as often as it is given.
    pub order_endpoints-IsSorted :
        (eps : List (Endpoint Json))
        → IsSorted (endpoint_le folder_order) (order_endpoints eps folder_order)
          × Perm (order_endpoints eps folder_order) eps
    order_endpoints-IsSorted eps =
        let o = endpoint_le-IsOrder in
        rw order_endpoints-sort_by (
          sort_by-IsSorted (endpoint_le folder_order) o.total o.trans eps,
          sort_by-perm (endpoint_le folder_order) eps,
        )
