-- ===== src/Storage/Folders/Tests.antt =====
-- Tests of the table of folders.
use rust_fox.Prelude.{
  ℕ, ◌<◌, ◌≡◌, refl, sym, ap, ◌∙◌, inl, inr, [], ◌∷◌, List, Option, none, some, if◌then◌else◌, ◌==◌,
  list_eq, nat_eq, arith,
}
use rust_fox.Prelude.Int.{pos}
use rust_fox.Prelude.Result.{Result, ok, err}
use rust_fox.Prelude.Text.{Text, codes}
use rust_fox.Storage.Folders.{
  Folder, Tables, StorageError, foreign_key, delete_folder, save_folders_bulk, subtree,
}
use rust_fox.Storage.Folders.Bulk.{row_of, row_behind, save_each, save_folders_bulk-save_each}
use rust_fox.Storage.Folders.Closed.{IsRow}
use rust_fox.Storage.Folders.Deleted.{IsRow-cases, IsDeletion, delete_folder-IsDeletion}

abbrev folder : Text → Option Text → Folder
folder id parent_id = record {
  id = id;
  project_id = codes "p";
  parent_id = parent_id;
  name = id;
  sort_order = pos 0;
  created_at = pos 1;
  updated_at = pos 1;
}

-- b stands in a.
abbrev db : Tables
db = record {
  folders =
      folder (codes "a") none
      ∷ folder (codes "b") (some (codes "a"))
      ∷ folder (codes "c") none
      ∷ [];
  endpoints =
      record { id = codes "e"; folder_id = some (codes "b") }
      ∷ record { id = codes "f"; folder_id = none }
      ∷ [];
}

abbrev rank : Text → ℕ
rank x = if x == codes "a" then 1 else 0

abbrev rank_of : Option Text → ℕ
rank_of none = 0
rank_of (some x) = rank x

ranked : (f : Folder) (p : Text) → IsRow f db.folders → f.parent_id ≡ some p → rank f.id < rank p
ranked f p r e = elim (IsRow-cases f _ _ r) [
  | inl s ↦ ground (arith, sym e ∙ ap (λ g. g.parent_id) s)
  | inr r' ↦ elim (IsRow-cases f _ _ r') [
    | inl s ↦ omega (arith, ap (λ g. rank g.id) s, ap rank_of (sym e ∙ ap (λ g. g.parent_id) s))
    | inr r'' ↦ elim (IsRow-cases f _ _ r'') [
      | inl s ↦ ground (arith, sym e ∙ ap (λ g. g.parent_id) s)
      | inr none_left ↦ elim none_left [ ]
    ]
  ]
]

delete_folder-IsDeletion_example :
    (db' : Tables) × ((r : Result StorageError (Unit {0})) × ((ids : List Text) × ((delete_folder 2
              (codes "a")
              db
            ≡ some (db', r))
          × IsDeletion db db' (codes "a") r ids)))
delete_folder-IsDeletion_example =
    delete_folder-IsDeletion rank 2 (codes "a") db ranked (omega arith)

left :
    delete_folder 2 (codes "a") db
    ≡ some (
      record {
        folders = folder (codes "c") none ∷ [];
        endpoints = record { id = codes "f"; folder_id = none } ∷ [];
      },
      ok tt,
    )
unfolding delete_folder
left = refl

-- A folder that is its own ancestor is never deleted.
circular :
    subtree 9
      (folder (codes "a") (some (codes "b")) ∷ folder (codes "b") (some (codes "a")) ∷ [])
      (codes "a" ∷ [])
    ≡ none
unfolding subtree
circular = refl

-- c is moved below d, which is new.
abbrev to_save : List Folder
to_save =
    folder (codes "d") (some (codes "a"))
    ∷ folder (codes "c") (some (codes "d"))
    ∷ folder (codes "d") none
    ∷ []

abbrev saved : List Folder
saved =
    folder (codes "a") none
    ∷ folder (codes "b") (some (codes "a"))
    ∷ folder (codes "c") (some (codes "d"))
    ∷ folder (codes "d") none
    ∷ []

save_folders_bulk-save_each_example :
    (save_folders_bulk (codes "p" ∷ []) to_save db.folders ≡ ok saved)
    × ((id : Text) → row_of id saved ≡ row_behind id to_save (row_of id db.folders))
unfolding save_each
save_folders_bulk-save_each_example =
    save_folders_bulk-save_each (codes "p" ∷ []) to_save db.folders saved refl

-- A child in front of its parent is refused by itself, and accepted within one statement.
abbrev child_first : List Folder
child_first = folder (codes "y") (some (codes "x")) ∷ folder (codes "x") none ∷ []

refused_each : save_each (codes "p" ∷ []) child_first [] ≡ err foreign_key
unfolding save_each
refused_each = refl

accepted_bulk : save_folders_bulk (codes "p" ∷ []) child_first [] ≡ ok child_first
unfolding save_folders_bulk
accepted_bulk = refl
