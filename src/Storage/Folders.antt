-- ===== src/Storage/Folders.antt =====
-- fox-storage/src/repository/folders.rs: the table of folders, as SQLite runs its statements on it. Rows
-- stand in the order in which they were inserted. Errors of the database are left out, but for foreign keys.

pub mod Closed
pub mod Deleted
pub mod Bulk
mod Tests
use rust_fox.Prelude.{
  ℕ, zero, suc, Bool, true, false, not, List, [], ◌∷◌, ◌++◌, map, Option, none, some, any, all,
  ◌&&◌, keep, find, if◌then◌else◌, ◌==◌, list_eq, nat_eq,
}
use rust_fox.Prelude.Compare.{on, then_by, le_ℤ}
use rust_fox.Prelude.Int.{ℤ}
use rust_fox.Prelude.Result.{Result, ok, err, ◌>>=◌}
use rust_fox.Prelude.Sort.{sort_by}
use rust_fox.Prelude.Text.{Text}

pub record Folder : Type 0 where
  pub id : Text
  pub project_id : Text
  pub parent_id : Option Text
  pub name : Text
  pub sort_order : ℤ
  pub created_at : ℤ
  pub updated_at : ℤ

-- An endpoint, as far as its folder goes.
pub record EndpointRow : Type 0 where
  pub id : Text
  pub folder_id : Option Text

pub record Tables : Type 0 where
  pub folders : List Folder
  pub endpoints : List EndpointRow

pub data StorageError : Type 0 where
  not_found : (id : Text) → StorageError
  foreign_key : StorageError

unfoldable pub list_folders : (project_id : Text) → List Folder → List Folder
unfolding sort_by
list_folders project_id folders =
    sort_by (then_by (on (λ f. f.sort_order) le_ℤ) (on (λ f. f.created_at) le_ℤ))
      (keep (λ f. f.project_id == project_id) folders)

unfoldable pub get_folder : (folder_id : Text) → List Folder → Result StorageError Folder
get_folder folder_id folders = elim (find (λ f. f.id == folder_id) folders) [
  | none ↦ err (not_found folder_id)
  | some f ↦ ok f
]

abbrev pub in_list : Text → List Text → Bool
in_list x xs = any (λ y. y == x) xs

-- Whether the column refers to one of the ids.
abbrev pub refers : Option Text → List Text → Bool
refers none ids = false
refers (some x) ids = in_list x ids

-- One round of the recursive query: the ids of the folders below those of the last round.
abbrev pub children : List Folder → List Text → List Text
children folders ids = map (λ f. f.id) (keep (λ f. refers f.parent_id ids) folders)

abbrev pub below : List Text → Option (List Text) → Option (List Text)
below ids none = none
below ids (some rest) = some (ids ++ rest)

-- The recursive query, which goes on until a round finds nothing; `none` means that the fuel ran out.
unfoldable pub subtree : (fuel : ℕ) → List Folder → List Text → Option (List Text)
subtree fuel folders [] = some []
subtree zero folders (x ∷ ids) = none
subtree (suc fuel) folders (x ∷ ids) =
    below (x ∷ ids) (subtree fuel folders (children folders (x ∷ ids)))

-- `ON DELETE SET NULL` for the rows that are left.
abbrev pub cleared : List Text → Option Text → Option Text
cleared ids o = if refers o ids then none else o

abbrev pub with_cleared : List Text → Folder → Folder
with_cleared ids f = record f { parent_id = cleared ids f.parent_id }

-- The rows outside the subtree.
abbrev pub folders_left : List Text → List Folder → List Folder
folders_left ids folders = map (with_cleared ids) (keep (λ f. not (in_list f.id ids)) folders)

abbrev pub endpoints_left : List Text → List EndpointRow → List EndpointRow
endpoints_left ids endpoints = keep (λ e. not (refers e.folder_id ids)) endpoints

-- The endpoints go first. Nothing is found if no row of the folders is deleted, but the transaction is
-- committed by then.
unfoldable pub delete_folder :
    (fuel : ℕ) → (folder_id : Text) → Tables → Option (Tables × Result StorageError (Unit {0}))
unfolding subtree
delete_folder fuel folder_id db = elim (subtree fuel db.folders (folder_id ∷ [])) [
  | none ↦ none
  | some ids ↦ some (
    record { folders = folders_left ids db.folders; endpoints = endpoints_left ids db.endpoints },
    if any (λ f. in_list f.id ids) db.folders then ok tt else err (not_found folder_id),
  )
]

-- The columns that a conflict updates.
abbrev pub updated : Folder → Folder → Folder
updated old new = record new { id = old.id; created_at = old.created_at }

-- What `ON CONFLICT(id) DO UPDATE` makes of the table, in front of the checks.
unfoldable pub upsert : Folder → List Folder → List Folder
upsert new [] = new ∷ []
upsert new (f ∷ folders) =
    let rest = upsert new folders in if f.id == new.id then updated f new ∷ folders else f ∷ rest

-- The rows of one statement, in their order.
unfoldable pub insert_rows : List Folder → List Folder → List Folder
unfolding upsert
insert_rows [] table = table
insert_rows (row ∷ rows) table = insert_rows rows (upsert row table)

-- Whether the columns of a row refer to a project and to a folder that are there.
abbrev pub refers_well : (projects : List Text) → List Folder → Folder → Bool
refers_well projects table f =
    in_list f.project_id projects
    && elim f.parent_id [ none ↦ true | some id ↦ any (λ g. g.id == id) table ]

-- The foreign keys, which SQLite checks behind each statement, on a table where they held before.
unfoldable pub is_consistent : (projects : List Text) → List Folder → Bool
is_consistent projects table = all (refers_well projects table) table

-- One INSERT statement; it changes nothing if a check fails.
unfoldable pub execute :
    (projects : List Text) → (rows : List Folder) → List Folder → Result StorageError (List Folder)
unfolding insert_rows is_consistent
execute projects rows table =
    if is_consistent projects (insert_rows rows table)
    then ok (insert_rows rows table)
    else err foreign_key

unfoldable pub save_folder :
    (projects : List Text) → Folder → List Folder → Result StorageError (List Folder)
unfolding execute
save_folder projects new = execute projects (new ∷ [])

-- `rows.chunks(n)`; `room` is what fits into the chunk so far.
unfoldable pub chunks : (n room : ℕ) → (chunk rows : List Folder) → List (List Folder)
chunks n room chunk [] = chunk ∷ []
chunks n zero chunk (row ∷ rows) = chunk ∷ chunks n n (row ∷ []) rows
chunks n (suc room) chunk (row ∷ rows) = chunks n room (chunk ++ row ∷ []) rows

unfoldable pub insert_chunks :
    (projects : List Text) → List (List Folder) → List Folder → Result StorageError (List Folder)
unfolding execute
insert_chunks projects [] table = ok table
insert_chunks projects (c ∷ cs) table = execute projects c table >>= insert_chunks projects cs

unfoldable pub save_folders_bulk :
    (projects : List Text) → List Folder → List Folder → Result StorageError (List Folder)
unfolding chunks insert_chunks
save_folders_bulk projects [] table = ok table
save_folders_bulk projects (row ∷ rows) table =
    insert_chunks projects (chunks 199 199 (row ∷ []) rows) table
