-- ===== src/Prelude/Sort/Unique.antt =====
-- Sorting by an order of distinct elements forgets the order in which they were given.
use mathlib.Core.Path.{◌≡◌, refl, ap, ◌∙◌}
use mathlib.Core.Bool.{Bool, true}
use mathlib.Core.List.{List, [], ◌∷◌, Perm, Permᴰ, is_set}
use mathlib.Core.Logic.{∥∥₁_elim}
use native.Mathlib.Omega.{arith}
use rust_fox.Prelude.Compare.{IsOrder}
use rust_fox.Prelude.Sort.{insert_sorted, sort_by}

module _ {A : Type 0} (le : A → A → Bool) (order : IsOrder le)
    (antisym : (a b : A) → le a b ≡ true → le b a ≡ true → a ≡ b) where
  -- Two elements may be put in in either order.
  insert_sorted_comm :
      (x y : A) (zs : List A)
      → insert_sorted le x (insert_sorted le y zs) ≡ insert_sorted le y (insert_sorted le x zs)
  unfolding insert_sorted
  insert_sorted_comm x y [] = ground (arith, order.total x y, order.total y x, antisym x y)
  insert_sorted_comm x y (z ∷ zs) = ground (
    arith,
    insert_sorted_comm x y zs,
    order.total x y,
    order.total y x,
    antisym x y,
    order.trans x y z,
    order.trans y x z,
  )

  sort_by-step : {xs ys : List A} → Permᴰ xs ys → sort_by le xs ≡ sort_by le ys
  unfolding sort_by
  sort_by-step Permᴰ.nil = refl
  sort_by-step (Permᴰ.cons {b} {l₁} e d) =
      ap (λ a. insert_sorted le a (sort_by le l₁)) e ∙ ap (insert_sorted le b) (sort_by-step d)
  sort_by-step (Permᴰ.swap {b} {a'} {b'} {l} e f) =
      ap (λ a. insert_sorted le a (insert_sorted le b (sort_by le l))) e
      ∙ ap (λ c. insert_sorted le b' (insert_sorted le c (sort_by le l))) f
      ∙ insert_sorted_comm b' a' (sort_by le l)
  sort_by-step (Permᴰ.trans c d) = sort_by-step c ∙ sort_by-step d

  -- The sorted list depends only on which elements there are.
  pub sort_by-eq : IsSet A → {xs ys : List A} → Perm xs ys → sort_by le xs ≡ sort_by le ys
  sort_by-eq setA p = ∥∥₁_elim p (is_set setA _ _) sort_by-step
