-- ===== src/Storage/Folders/Closed.antt =====
-- Deleting a folder deletes what is below it, and nothing else.
use mathlib.Core.Path.{subst}
use rust_fox.Prelude.{
  sym, ℕ, zero, suc, ◌≡◌, refl, ap, ◌∙◌, ◌⊎◌, inl, inr, Bool, true, false, ◌||◌, List, [], ◌∷◌,
  ◌++◌, Option, none, some, Bool-cases, Option-cases, ◌==◌, beq_refl, list_eq, nat_eq, arith,
}
use rust_fox.Prelude.Text.{Text}
use rust_fox.Storage.Folders.{Folder, in_list, refers, children, subtree}

-- The folder is a row of the table.
pub data IsRow (f : Folder) : List Folder → Type 0 where
  first_row : (fs : List Folder) → IsRow f (f ∷ fs)
  later_row : (g : Folder) (fs : List Folder) → IsRow f fs → IsRow f (g ∷ fs)

-- The id is one of those at the top, or that of a folder whose parent is below the top.
pub data IsBelow (folders : List Folder) (tops : List Text) : Text → Type 0 where
  top : (x : Text) → in_list x tops ≡ true → IsBelow folders tops x
  deeper :
      (f : Folder) (parent : Text)
      → IsRow f folders
      → f.parent_id ≡ some parent
      → IsBelow folders tops parent
      → IsBelow folders tops f.id

in_list-append : (x : Text) (a b : List Text) → in_list x (a ++ b) ≡ (in_list x a || in_list x b)
in_list-append x [] b = refl
in_list-append x (y ∷ a) b = ground (arith, in_list-append x a b)

refers-append : (o : Option Text) (a b : List Text) → refers o (a ++ b) ≡ (refers o a || refers o b)
refers-append none a b = refl
refers-append (some x) a b = in_list-append x a b

module _ (ids : List Text) where
  children_complete :
      (f : Folder) (folders : List Folder)
      → IsRow f folders
      → refers f.parent_id ids ≡ true
      → in_list f.id (children folders ids) ≡ true
  children_complete f _ (first_row fs) h = rw (h, beq_refl f.id) refl
  children_complete f _ (later_row g fs r) h = elim (Bool-cases (refers g.parent_id ids)) [
    | inl e ↦ rw e (ground (arith, children_complete f fs r h))
    | inr e ↦ rw e (children_complete f fs r h)
  ]

  in_rest :
      (g : Folder) (fs : List Folder) (x : Text)
      → refers g.parent_id ids ≡ true
      → (g.id == x) ≡ false
      → in_list x (children (g ∷ fs) ids) ≡ true
      → in_list x (children fs ids) ≡ true
  in_rest g fs x e other h = rw other at (rw e at h)

  pub children_sound :
      (x : Text) (folders : List Folder)
      → in_list x (children folders ids) ≡ true
      → (f : Folder) × (IsRow f folders × ((f.id ≡ x) × (refers f.parent_id ids ≡ true)))
  children_sound x [] h = ground arith
  children_sound x (g ∷ fs) h = elim (Bool-cases (refers g.parent_id ids)) [
    | inl e ↦ elim (Bool-cases (g.id == x)) [
      | inl same ↦ (g, (first_row fs, ((list_eq.beq_iff g.id x).0 same, e)))
      | inr other ↦
          let (f, (r, rest)) = children_sound x fs (in_rest g fs x e other h) in
          (f, (later_row g fs r, rest))
    ]
    | inr e ↦ let (f, (r, rest)) = children_sound x fs (rw e at h) in (f, (later_row g fs r, rest))
  ]

-- The next round of a query that ends.
subtree-round :
    (n : ℕ) (folders : List Folder) (x : Text) (front ids : List Text)
    → subtree (suc n) folders (x ∷ front) ≡ some ids
    → (rest : List Text) × ((subtree n folders (children folders (x ∷ front)) ≡ some rest)
        × (ids ≡ (x ∷ front) ++ rest))
unfolding subtree
subtree-round n folders x front ids h =
    elim (Option-cases (subtree n folders (children folders (x ∷ front)))) [
      | inl e ↦ ground arith
      | inr (rest, e) ↦ (rest, (e, ground (arith, e, h)))
    ]

pub subtree-top :
    (n : ℕ) (folders : List Folder) (front ids : List Text) (x : Text)
    → subtree n folders front ≡ some ids
    → in_list x front ≡ true
    → in_list x ids ≡ true
unfolding subtree
subtree-top n folders [] ids x h k = ground arith
subtree-top zero folders (y ∷ front) ids x h k = ground arith
subtree-top (suc n) folders (y ∷ front) ids x h k =
    let (rest, (e, same)) = subtree-round n folders y front ids h in
    rw (same, in_list-append x (y ∷ front) rest, k) refl

or_true : (a : Bool) → (a || true) ≡ true
or_true true = refl
or_true false = refl

refers-nil : (o : Option Text) → refers o [] ≡ false
refers-nil none = refl
refers-nil (some x) = refl

or_split : (a b : Bool) → (a || b) ≡ true → (a ≡ true) ⊎ (b ≡ true)
or_split true b h = inl refl
or_split false b h = inr h

refers_split :
    (o : Option Text) (a b ids : List Text)
    → ids ≡ a ++ b
    → refers o ids ≡ true
    → (refers o a ≡ true) ⊎ (refers o b ≡ true)
refers_split o a b ids e h =
    or_split (refers o a) (refers o b) (sym (refers-append o a b) ∙ ap (refers o) (sym e) ∙ h)

in_rest_of :
    (x : Text) (a b ids : List Text) → ids ≡ a ++ b → in_list x b ≡ true → in_list x ids ≡ true
in_rest_of x a b ids e h = rw (e, in_list-append x a b, h) (or_true (in_list x a))

-- A folder below one that the query finds is found.
pub subtree-next :
    (n : ℕ) (folders : List Folder) (front ids : List Text) (f : Folder)
    → subtree n folders front ≡ some ids
    → IsRow f folders
    → refers f.parent_id ids ≡ true
    → in_list f.id ids ≡ true
unfolding subtree
subtree-next n folders [] ids f h r k = ground (arith, refers-nil f.parent_id, h, k)
subtree-next zero folders (x ∷ front) ids f h r k = ground arith
subtree-next (suc n) folders (x ∷ front) ids f h r k =
    let (rest, (e, same)) = subtree-round n folders x front ids h in
    elim (refers_split f.parent_id (x ∷ front) rest ids same k) [
      | inl upper ↦ in_rest_of f.id (x ∷ front) rest ids same (
          subtree-top n folders (children folders (x ∷ front)) rest f.id e
            (children_complete (x ∷ front) f folders r upper))
      | inr lower ↦
          in_rest_of f.id (x ∷ front) rest ids same
            (subtree-next n folders (children folders (x ∷ front)) rest f e r lower)
    ]

pub parent_found :
    (o : Option Text) (ids : List Text)
    → refers o ids ≡ true
    → (p : Text) × ((o ≡ some p) × (in_list p ids ≡ true))
parent_found none ids h = ground arith
parent_found (some p) ids h = (p, (refl, h))

children-IsBelow :
    (folders : List Folder) (tops front : List Text)
    → ((y : Text) → in_list y front ≡ true → IsBelow folders tops y)
    → (y : Text) → in_list y (children folders front) ≡ true
    → IsBelow folders tops y
children-IsBelow folders tops front all_below y k =
    let (f, (r, (same, up))) = children_sound front y folders k in
    let (p, (e, found)) = parent_found f.parent_id front up in
    subst (IsBelow folders tops) same (deeper f p r e (all_below p found))

-- All that the query finds is below the top.
pub subtree-IsBelow :
    (n : ℕ) (folders : List Folder) (tops front ids : List Text)
    → subtree n folders front ≡ some ids
    → ((y : Text) → in_list y front ≡ true → IsBelow folders tops y)
    → (y : Text) → in_list y ids ≡ true
    → IsBelow folders tops y
unfolding subtree
subtree-IsBelow n folders tops [] ids h all_below y k = ground (arith, h, k)
subtree-IsBelow zero folders tops (x ∷ front) ids h all_below y k = ground arith
subtree-IsBelow (suc n) folders tops (x ∷ front) ids h all_below y k =
    let (rest, (e, same)) = subtree-round n folders x front ids h in
    elim (refers_split (some y) (x ∷ front) rest ids same k) [
      | inl upper ↦ all_below y upper
      | inr lower ↦
          subtree-IsBelow n folders tops (children folders (x ∷ front)) rest e
            (children-IsBelow folders tops (x ∷ front) all_below) y lower
    ]
