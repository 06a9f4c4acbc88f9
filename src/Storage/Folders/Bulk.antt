-- ===== src/Storage/Folders/Bulk.antt =====
-- Many folders are saved as one after the other, where that works.
use rust_fox.Prelude.{
  ℕ, zero, suc, ◌≡◌, refl, sym, ap, ◌∙◌, true, false, List, [], ◌∷◌, ◌++◌, list_eq, nat_eq, Option,
  none, some, find, ◌==◌, list_beq_iff, arith, if◌then◌else◌, inl, inr, Bool-cases,
}
use rust_fox.Prelude.Result.{Result, ok, err, ◌>>=◌}
use rust_fox.Prelude.Text.{Text}
use rust_fox.Storage.Folders.{
  Folder, StorageError, foreign_key, upsert, insert_rows, is_consistent, execute, save_folder,
  chunks, insert_chunks, save_folders_bulk,
}

-- What saving makes of the row of its id, if there is one.
abbrev pub merged : Option Folder → Folder → Folder
merged none new = new
merged (some old) new = record new { created_at = old.created_at }

-- The row of an id behind some savings, by what was there.
abbrev pub row_behind : (id : Text) → List Folder → Option Folder → Option Folder
row_behind id [] o = o
row_behind id (f ∷ fs) o = row_behind id fs (if f.id == id then some (merged o f) else o)

abbrev pub row_of : (id : Text) → List Folder → Option Folder
row_of id table = find (λ f. f.id == id) table

row_of-upsert :
    (id : Text) (new : Folder) (table : List Folder)
    → row_of id (upsert new table)
      ≡ (if new.id == id then some (merged (row_of id table) new) else row_of id table)
unfolding upsert
row_of-upsert id new [] = ground arith
row_of-upsert id new (f ∷ table) = ground (
  arith,
  row_of-upsert id new table,
  list_beq_iff f.id new.id,
  list_beq_iff f.id id,
  list_beq_iff new.id id,
)

row_of-insert_rows :
    (id : Text) (rows table : List Folder)
    → row_of id (insert_rows rows table) ≡ row_behind id rows (row_of id table)
unfolding insert_rows
row_of-insert_rows id [] table = refl
row_of-insert_rows id (r ∷ rows) table =
    row_of-insert_rows id rows (upsert r table) ∙ ap (row_behind id rows) (row_of-upsert id r table)

module _ (projects : List Text) where
  -- One after the other, until one fails.
  unfoldable pub save_each : List Folder → List Folder → Result StorageError (List Folder)
  unfolding save_folder
  save_each [] table = ok table
  save_each (f ∷ fs) table = save_folder projects f table >>= save_each fs

  insert_rows-append :
      (a b table : List Folder) → insert_rows (a ++ b) table ≡ insert_rows b (insert_rows a table)
  unfolding insert_rows
  insert_rows-append [] b table = refl
  insert_rows-append (r ∷ a) b table = insert_rows-append a b (upsert r table)

  consistent-execute :
      (rows table : List Folder)
      → is_consistent projects (insert_rows rows table) ≡ true
      → execute projects rows table ≡ ok (insert_rows rows table)
  unfolding execute
  consistent-execute rows table e = rw e

  inconsistent-execute :
      (rows table : List Folder)
      → is_consistent projects (insert_rows rows table) ≡ false
      → execute projects rows table ≡ err foreign_key
  unfolding execute
  inconsistent-execute rows table e = rw e

  -- The first of several statements works, if all of them do.
  save_each-first :
      (r : Folder) (rows table t : List Folder)
      → save_each (r ∷ rows) table ≡ ok t
      → (is_consistent projects (insert_rows (r ∷ []) table) ≡ true)
        × (save_each rows (insert_rows (r ∷ []) table) ≡ ok t)
  unfolding save_each save_folder
  save_each-first r rows table t h =
      elim (Bool-cases (is_consistent projects (insert_rows (r ∷ []) table))) [
        | inl e ↦
            (e, sym (ap (λ m. m >>= save_each rows) (consistent-execute (r ∷ []) table e)) ∙ h)
        | inr e ↦ absurd (
            err-ne-ok
              (sym (ap (λ m. m >>= save_each rows) (inconsistent-execute (r ∷ []) table e)) ∙ h))
      ]
    where
      err-ne-ok : err foreign_key ≡ ok t → ⊥
      err-ne-ok e = cc

  -- Where the rows of a chunk leave the table consistent, and the others can be saved behind them one
  -- after the other, the chunks can be saved, with the same table.
  insert_chunks-each :
      (n room : ℕ) (chunk rows table t : List Folder)
      → is_consistent projects (insert_rows chunk table) ≡ true
      → save_each rows (insert_rows chunk table) ≡ ok t
      → insert_chunks projects (chunks n room chunk rows) table ≡ ok t
  unfolding insert_chunks chunks save_each save_folder
  insert_chunks-each n room chunk [] table t c h =
      ap (λ r. r >>= insert_chunks projects []) (consistent-execute chunk table c) ∙ h
  insert_chunks-each n zero chunk (r ∷ rows) table t c h =
      let (d, k) = save_each-first r rows (insert_rows chunk table) t h in
      ap (λ m. m >>= insert_chunks projects (chunks n n (r ∷ []) rows))
        (consistent-execute chunk table c)
      ∙ insert_chunks-each n n (r ∷ []) rows (insert_rows chunk table) t d k
  insert_chunks-each n (suc room) chunk (r ∷ rows) table t c h =
      let (d, k) = save_each-first r rows (insert_rows chunk table) t h in
      let e = insert_rows-append chunk (r ∷ []) table in
      insert_chunks-each n room (chunk ++ r ∷ []) rows table t (ap (is_consistent projects) e ∙ d)
        (ap (save_each rows) e ∙ k)

  save_each-rows :
      (folders table t : List Folder)
      → save_each folders table ≡ ok t
      → t ≡ insert_rows folders table
  unfolding save_each insert_rows
  save_each-rows [] table t h = cc
  save_each-rows (f ∷ fs) table t h =
      save_each-rows fs (insert_rows (f ∷ []) table) t (save_each-first f fs table t h).1

  save_each-bulk :
      (folders table t : List Folder)
      → save_each folders table ≡ ok t
      → save_folders_bulk projects folders table ≡ ok t
  unfolding save_folders_bulk save_each save_folder
  save_each-bulk [] table t h = h
  save_each-bulk (f ∷ fs) table t h =
      let (d, k) = save_each-first f fs table t h in
      insert_chunks-each 199 199 (f ∷ []) fs table t d k

  -- Whenever it works to save a list of folders one after the other, each with its references checked,
  -- saving them in statements of 200 rows works too and gives the same table, with ids that occur more
  -- than once too. In this, the row of an id is the last one of the list that has it, with the time of
  -- creation of the row that was there or else of the first one of the list, or it is unchanged.
  pub save_folders_bulk-save_each :
      (folders table t : List Folder)
      → save_each folders table ≡ ok t
      → (save_folders_bulk projects folders table ≡ ok t)
        × ((id : Text) → row_of id t ≡ row_behind id folders (row_of id table))
  save_folders_bulk-save_each folders table t h = (
    save_each-bulk folders table t h,
    λ id. ap (row_of id) (save_each-rows folders table t h) ∙ row_of-insert_rows id folders table,
  )
