-- ===== src/Storage/Folders/Deleted.antt =====
-- What is left when a folder is deleted.
use rust_fox.Prelude.{
  ℕ, zero, suc, ◌<◌, ◌≡◌, refl, sym, ap, ◌∙◌, ◌↔◌, inl, inr, ◌⊎◌, Bool, true, false, not, List, [],
  ◌∷◌, ◌++◌, none, some, any, keep, if◌then◌else◌, Bool-cases, beq_refl, list_eq, nat_eq, arith,
}
use mathlib.Core.Path.{subst}
use rust_fox.Prelude.Result.{Result, ok, err}
use rust_fox.Prelude.Text.{Text}
use rust_fox.Storage.Folders.{
  Folder, Tables, StorageError, not_found, in_list, refers, children, below, subtree, folders_left,
  endpoints_left, delete_folder,
}
use rust_fox.Storage.Folders.Closed.{
  IsRow, first_row, later_row, children_sound, parent_found, IsBelow, top, deeper, subtree-next,
  subtree-top, subtree-IsBelow,
}

-- Every parent is a row.
pub IsClosed : List Folder → Type 0
IsClosed folders =
    (f : Folder) (p : Text)
    → IsRow f folders
    → f.parent_id ≡ some p
    → (g : Folder) × (IsRow g folders × (g.id ≡ p))

pub IsRow-cases : (f g : Folder) (fs : List Folder) → IsRow f (g ∷ fs) → (f ≡ g) ⊎ IsRow f fs
IsRow-cases f _ _ (first_row fs) = inl refl
IsRow-cases f _ _ (later_row g fs r) = inr r

module _ (kept : Folder → Bool) where
  keep-IsRow : (f : Folder) (fs : List Folder) → IsRow f fs → kept f ≡ true → IsRow f (keep kept fs)
  keep-IsRow f _ (first_row fs) h = rw h (first_row (keep kept fs))
  keep-IsRow f _ (later_row g fs r) h = elim (Bool-cases (kept g)) [
    | inl e ↦ rw e (later_row g (keep kept fs) (keep-IsRow f fs r h))
    | inr e ↦ rw e (keep-IsRow f fs r h)
  ]

  IsRow-keep :
      (f : Folder) (fs : List Folder) → IsRow f (keep kept fs) → IsRow f fs × (kept f ≡ true)
  IsRow-keep f [] r = elim r [ ]
  IsRow-keep f (g ∷ fs) r = elim (Bool-cases (kept g)) [
    | inl e ↦ elim (IsRow-cases f g (keep kept fs) (rw e at r)) [
      | inl same ↦ (subst (λ h. IsRow h (g ∷ fs)) (sym same) (first_row fs), ap kept same ∙ e)
      | inr later ↦ let (r', k) = IsRow-keep f fs later in (later_row g fs r', k)
    ]
    | inr e ↦ let (r', k) = IsRow-keep f fs (rw e at r) in (later_row g fs r', k)
  ]

module _ (ids : List Text) (folders : List Folder)
    (closed : (f : Folder)
      → IsRow f folders
      → refers f.parent_id ids ≡ true
      → in_list f.id ids ≡ true) where
  outside :
      (f : Folder) → IsRow f folders → in_list f.id ids ≡ false → refers f.parent_id ids ≡ false
  outside f r stays = elim (Bool-cases (refers f.parent_id ids)) [
    | inl up ↦ ground (arith, closed f r up)
    | inr e ↦ e
  ]

  parent_stays :
      (f g : Folder) (p : Text)
      → IsRow f folders
      → f.parent_id ≡ some p
      → g.id ≡ p
      → not (in_list f.id ids) ≡ true
      → not (in_list g.id ids) ≡ true
  parent_stays f g p r e same stays =
      ap (λ o. not (refers o ids)) (ap some same ∙ sym e) ∙ ground (arith, outside f r)

  -- No parent of a row that is left is taken away.
  folders_left-keep :
      (fs : List Folder)
      → ((f : Folder) → IsRow f fs → IsRow f folders)
      → folders_left ids fs ≡ keep (λ f. not (in_list f.id ids)) fs
  folders_left-keep [] h = refl
  folders_left-keep (f ∷ fs) h =
      let rest = folders_left-keep fs (λ g r. h g (later_row f fs r)) in
      elim (Bool-cases (in_list f.id ids)) [
        | inl gone ↦ rw gone rest
        | inr stays ↦ rw stays (
            ap (λ o. record f { parent_id = if o then none else f.parent_id } ∷ folders_left ids fs)
              (outside f (h f (first_row fs)) stays)
            ∙ ap (λ gs. f ∷ gs) rest)
      ]

  keep-IsClosed : IsClosed folders → IsClosed (keep (λ f. not (in_list f.id ids)) folders)
  unfolding IsClosed
  keep-IsClosed all_there f p r e =
      let (row, stays) = IsRow-keep (λ f. not (in_list f.id ids)) f folders r in
      let (g, (row', same)) = all_there f p row e in
      (
        g,
        (
          keep-IsRow (λ f. not (in_list f.id ids)) g folders row'
              (parent_stays f g p row e same stays),
          same,
        ),
      )

-- What a deletion does: `ids` are the folders below the one that is named.
pub record IsDeletion (db db' : Tables) (folder_id : Text) (r : Result StorageError (Unit {0}))
    (ids : List Text) : Type 0 where
  pub found : (x : Text) → (in_list x ids ≡ true) ↔ IsBelow db.folders (folder_id ∷ []) x
  pub folders : db'.folders ≡ keep (λ f. not (in_list f.id ids)) db.folders
  pub endpoints : db'.endpoints ≡ keep (λ e. not (refers e.folder_id ids)) db.endpoints
  pub closed : IsClosed db.folders → IsClosed db'.folders
  pub answer : (f : Folder) → IsRow f db.folders → f.id ≡ folder_id → r ≡ ok tt

any-IsRow :
    (test : Folder → Bool) (f : Folder) (fs : List Folder)
    → IsRow f fs
    → test f ≡ true
    → any test fs ≡ true
any-IsRow test f _ (first_row fs) h = rw h refl
any-IsRow test f _ (later_row g fs r) h = ground (arith, any-IsRow test f fs r h)

below_found :
    (n : ℕ) (folders : List Folder) (tops ids : List Text)
    → subtree n folders tops ≡ some ids
    → (x : Text) → IsBelow folders tops x
    → in_list x ids ≡ true
below_found n folders tops ids h _ (top x k) = subtree-top n folders tops ids x h k
below_found n folders tops ids h _ (deeper f p r e b) =
    subtree-next n folders tops ids f h r
      (ap (λ o. refers o ids) e ∙ below_found n folders tops ids h p b)

delete_folder-some :
    (fuel : ℕ) (folder_id : Text) (db : Tables) (ids : List Text)
    → subtree fuel db.folders (folder_id ∷ []) ≡ some ids
    → delete_folder fuel folder_id db
      ≡ some (
        record {
          folders = folders_left ids db.folders;
          endpoints = endpoints_left ids db.endpoints;
        },
        if any (λ f. in_list f.id ids) db.folders then ok tt else err (not_found folder_id),
      )
unfolding delete_folder
delete_folder-some fuel folder_id db ids e = ground (arith, e)

head_found : (x : Text) (xs : List Text) → in_list x (x ∷ xs) ≡ true
head_found x xs = rw (beq_refl x) refl

lone_rank :
    (rank : Text → ℕ) (n : ℕ) (x : Text)
    → rank x < n
    → (y : Text) → in_list y (x ∷ []) ≡ true
    → rank y < n
lone_rank rank n x h y k = subst (λ z. rank z < n) ((list_eq.beq_iff x y).0 (ground (arith, k))) h

subtree-ends :
    (rank : Text → ℕ) (n : ℕ) (folders : List Folder) (front : List Text)
    → ((f : Folder) (p : Text) → IsRow f folders → f.parent_id ≡ some p → rank f.id < rank p)
    → ((x : Text) → in_list x front ≡ true → rank x < n)
    → (ids : List Text) × (subtree n folders front ≡ some ids)
unfolding subtree
subtree-ends rank n folders [] ranked low = ([], refl)
subtree-ends rank zero folders (x ∷ front) ranked low =
    absurd (omega (arith, low x (head_found x front)))
subtree-ends rank (suc n) folders (x ∷ front) ranked low =
    let (rest, e) = subtree-ends rank n folders (children folders (x ∷ front)) ranked (λ y k.
      let (f, (r, (same, up))) = children_sound (x ∷ front) y folders k in
      let (p, (parent, found)) = parent_found f.parent_id (x ∷ front) up in
      subst (λ z. rank z < n) same (omega (arith, ranked f p r parent, low p found))) in
    ((x ∷ front) ++ rest, ap (below (x ∷ front)) e)

downward :
    (fuel : ℕ) (folder_id : Text) (db : Tables) (ids : List Text)
    → subtree fuel db.folders (folder_id ∷ []) ≡ some ids
    → (f : Folder) → IsRow f db.folders
    → refers f.parent_id ids ≡ true
    → in_list f.id ids ≡ true
downward fuel folder_id db ids e f r k = subtree-next fuel db.folders (folder_id ∷ []) ids f e r k

abbrev answer_for : Text → Bool → Result StorageError (Unit {0})
answer_for folder_id b = if b then ok tt else err (not_found folder_id)

positive :
    (fuel : ℕ) (folder_id : Text) (db : Tables) (ids : List Text)
    → subtree fuel db.folders (folder_id ∷ []) ≡ some ids
    → (f : Folder) → IsRow f db.folders
    → f.id ≡ folder_id
    → answer_for folder_id (any (λ f. in_list f.id ids) db.folders) ≡ ok tt
positive fuel folder_id db ids e f r k = ap (answer_for folder_id) (
    any-IsRow (λ f. in_list f.id ids) f db.folders r
      (ap (λ x. in_list x ids) k
        ∙ subtree-top fuel db.folders (folder_id ∷ []) ids folder_id e (head_found folder_id [])))

-- If the parents do not go round in a circle, so that each child has a lower rank than its parent, then
-- deleting a folder ends, with fuel above the rank of the folder; it deletes exactly the folders below
-- the one that is named, itself included, and exactly the endpoints in these; all other rows stay as
-- they are, and none of them loses its parent; if every parent was a row before, so it is behind; and the
-- answer is positive if the folder was a row.
pub delete_folder-IsDeletion :
    (rank : Text → ℕ) (fuel : ℕ) (folder_id : Text) (db : Tables)
    → ((f : Folder) (p : Text) → IsRow f db.folders → f.parent_id ≡ some p → rank f.id < rank p)
    → rank folder_id < fuel
    → (db' : Tables) × ((r : Result StorageError (Unit {0})) × ((ids : List Text) × ((delete_folder
                fuel folder_id db
              ≡ some (db', r))
            × IsDeletion db db' folder_id r ids)))
delete_folder-IsDeletion rank fuel folder_id db ranked enough =
    let (ids, e) =
      subtree-ends rank fuel db.folders (folder_id ∷ []) ranked
        (lone_rank rank fuel folder_id enough) in
    let same =
      folders_left-keep ids db.folders (downward fuel folder_id db ids e) db.folders (λ f r. r) in
    (
      _,
      (
        _,
        (
          ids,
          (
            delete_folder-some fuel folder_id db ids e,
            record {
              found = λ x. (
                subtree-IsBelow fuel db.folders (folder_id ∷ []) (folder_id ∷ []) ids e
                    (λ y k. top y k) x,
                below_found fuel db.folders (folder_id ∷ []) ids e x,
              );
              folders = same;
              endpoints = refl;
              closed = λ c.
                  subst IsClosed (sym same)
                    (keep-IsClosed ids db.folders (downward fuel folder_id db ids e) c);
              answer = λ f r k. positive fuel folder_id db ids e f r k;
            },
          ),
        ),
      ),
    )
