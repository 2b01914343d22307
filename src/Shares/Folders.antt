-- ===== src/Shares/Folders.antt =====
-- What a folder share holds, and where the items of a share go on the disk.
use shmark.Base.{
  ℕ, Text, ◌≡◌, ◌⊎◌, refl, ap, sym, ◌∙◌, Option, none, some, true, false, List, [], ◌∷◌, ◌++◌, map,
  Option-cases, Bool-cases, inl, inr, or_else,
}
use mathlib.Core.List.{append_assoc, append-nil}
use shmark.Errors.{ok, Result-cases, ok-injective}
use shmark.Paths.{join, is_absolute, slash, pieces, relative_to}
use shmark.Paths.Components.{pieces-join}
use shmark.Shares.{ShareItem, ShareRecord, Node}
use shmark.Shares.Create.{WalkEntry, add_files, add_blob_from_path}
use shmark.Shares.Fetch.{target_of}

-- The files of a walk: the path below the folder, and the size.
pub files_of : Text → List (Option WalkEntry) → List (Option Text × ℕ)
files_of dir [] = []
files_of dir (none ∷ entries) = files_of dir entries
files_of dir (some entry ∷ entries) = elim entry.is_file [
  | some true ↦
      (some (or_else entry.path (relative_to dir entry.path)), or_else 0 entry.len)
      ∷ files_of dir entries
  | some false ↦ files_of dir entries
  | none ↦ files_of dir entries
]

abbrev pub shape : ShareItem → Option Text × ℕ
shape item = (item.path, item.size_bytes)

joined :
    (dest rel : Text)
    → ((is_absolute rel ≡ true) × (join dest rel ≡ rel))
      ⊎ ((is_absolute rel ≡ false)
          × (pieces (join dest rel) ≡ pieces dest ++ pieces rel)
          × ((join dest rel ≡ dest ++ rel) ⊎ (join dest rel ≡ dest ++ slash ∷ rel)))
unfolding join
joined dest rel = elim (Bool-cases (is_absolute rel)) [
  | inl rooted ↦ inl (rooted, rw rooted refl)
  | inr relative ↦
      let (components, text) = pieces-join dest rel relative in inr (relative, components, text)
]

module _ {S : Type 0} (node : Node S) where
  shape-add_blob_from_path :
      (abs : Text) (rel : Option Text) (size : ℕ) (s : S) (item : ShareItem)
      → (add_blob_from_path node abs rel size s).0 ≡ ok item
      → shape item ≡ (rel, size)
  unfolding add_blob_from_path
  shape-add_blob_from_path abs rel size s item h = elim (Result-cases (node.add_path abs s).0) [
    | inl (hash, e) ↦ ap shape (sym (ok-injective (rw e at h)))
    | inr (inl (y, k)) ↦ cc (rw k at h)
    | inr (inr k) ↦ cc (rw k at h)
  ]

  map-append {ℓ κ} :
      {A : Type ℓ} {B : Type κ} (f : A → B) (xs ys : List A)
      → map f (xs ++ ys) ≡ map f xs ++ map f ys
  map-append f [] ys = refl
  map-append f (x ∷ xs) ys = ap (λ r. f x ∷ r) (map-append f xs ys)

  added :
      (dir : Text) (entry : WalkEntry) (entries : List (Option WalkEntry))
      (done items : List ShareItem) (item : ShareItem)
      → shape item ≡ (some (or_else entry.path (relative_to dir entry.path)), or_else 0 entry.len)
      → map shape items ≡ map shape (done ++ item ∷ []) ++ files_of dir entries
      → map shape items
        ≡ map shape done
          ++ ((some (or_else entry.path (relative_to dir entry.path)), or_else 0 entry.len)
              ∷ files_of dir entries)
  added dir entry entries done items item e h =
      h ∙ rw (map-append shape done (item ∷ []), append_assoc, e) refl

  -- The loop of `create_from_dir` adds one item for each file of the walk, in the order of the walk,
  -- with the path below the folder and the size.
  pub add_files_exact :
      (dir : Text) (entries : List (Option WalkEntry)) (done items : List ShareItem) (s : S)
      → (add_files node dir entries done s).0 ≡ ok items
      → map shape items ≡ map shape done ++ files_of dir entries
  unfolding add_files files_of
  add_files_exact dir [] done items s h = rw (append-nil, ← ok-injective h) refl
  add_files_exact dir (none ∷ entries) done items s h = add_files_exact dir entries done items s h
  add_files_exact dir (some entry ∷ entries) done items s h = elim (Option-cases entry.is_file) [
    | inl e ↦ rw (e, files_of) (add_files_exact dir entries done items s (rw (e, add_files) at h))
    | inr (false, e) ↦
        rw (e, files_of) (add_files_exact dir entries done items s (rw (e, add_files) at h))
    | inr (true, e) ↦
        let name = some (or_else entry.path (relative_to dir entry.path)) in
        let size = or_else 0 entry.len in
        elim (Result-cases (add_blob_from_path node entry.path name size s).0) [
          | inl (item, k) ↦
              rw (e, files_of)
                (added dir entry entries done items item
                  (shape-add_blob_from_path entry.path name size s item k)
                  (add_files_exact dir entries (done ++ item ∷ []) items _ (rw (e, k) at h)))
          | inr (inl (y, k)) ↦ cc (rw (e, k) at h)
          | inr (inr k) ↦ cc (rw (e, k) at h)
        ]
  ]

-- An item of a folder has its own path, a single file has the name of the share. If that is absolute, it
-- is the target, wherever the destination is. If it is relative, the target is the destination, a slash
-- if there is none, and that path, so that its components are those of the destination and then those of
-- the path, where a `..` leads out again.
pub target_of_exact :
    (dest : Text) (r : ShareRecord) (item : ShareItem)
    → let rel = or_else r.name item.path in
      let target = target_of dest r item in
      ((is_absolute rel ≡ true) × (target ≡ rel))
      ⊎ ((is_absolute rel ≡ false)
          × (pieces target ≡ pieces dest ++ pieces rel)
          × ((target ≡ dest ++ rel) ⊎ (target ≡ dest ++ slash ∷ rel)))
unfolding target_of
target_of_exact dest r item = elim (Option-cases item.path) [
  | inl e ↦ rw (target_of, e) (joined dest r.name)
  | inr (rel, e) ↦ rw (target_of, e) (joined dest rel)
]
