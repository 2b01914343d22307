-- ===== src/Shares/Create.antt =====
-- `create` and its parts of crates/shmark-core/src/shares.rs: a file, a folder or a web address
-- becomes a share.
use shmark.Base.{
  leb, ltb, ◌&&◌, ℕ, Text, codes, ◌++◌, ◌||◌, Option, none, some, Bool, true, false, List, [], ◌∷◌,
  is_empty, length, or_else, starts_with, if◌then◌else◌,
}
use shmark.Errors.{http, Result, ok, err, message, with_context}
use shmark.Json.{Json}
use shmark.Paths.{file_name, relative_to}
use shmark.Resolve.{Metadata}
use shmark.Groups.{LocalGroup}
use shmark.Shares.{ShareItem, ShareRecord, Node, Io, ◌>>=◌, publish_record}

-- An entry of a walk: its path, whether it is a file, and its size.
pub record WalkEntry : Type 0 where
  pub path : Text
  pub is_file : Option Bool
  pub len : Option ℕ

-- What `create` uses besides the node: `std::path::absolute`, `std::fs`, the walker of `ignore`, the
-- client of `reqwest`, a temporary file, and the last segment of an address that `url` parses.
pub record Sources (S : Type 0) : Type 0 where
  pub absolute : Text → Result Text
  pub metadata : Text → Result Metadata
  pub walk : Text → List (Option WalkEntry)
  pub client : Result (Unit {0})
  pub send : Text → Result ℕ
  pub body : Text → Result Text
  pub temp_file : Text → Io S Text
  pub create_dir_all : Text → Io S (Unit {0})
  pub last_segment : Text → Option Text

module _ {S : Type 0} (node : Node S) where
  pub plain : {A : Type 0} → Result A → Io S A
  plain r s = (r, s)

  unfoldable pub add_blob_from_path : Text → Option Text → ℕ → Io S ShareItem
  unfolding plain
  add_blob_from_path abs rel_path_in_share size_bytes =
      (λ s. (
        with_context (codes "add blob from " ++ abs) (node.add_path abs s).0,
        (node.add_path abs s).1,
      ))
      >>= λ hash.
          plain
            (ok (record { path = rel_path_in_share; blob_hash = hash; size_bytes = size_bytes }))

  -- The loop of `create_from_dir`, with the items so far.
  unfoldable pub add_files : Text → List (Option WalkEntry) → List ShareItem → Io S (List ShareItem)
  unfolding plain add_blob_from_path
  add_files dir [] items = plain (ok items)
  add_files dir (none ∷ entries) items = add_files dir entries items
  add_files dir (some entry ∷ entries) items = elim entry.is_file [
    | some true ↦
        add_blob_from_path entry.path (some (or_else entry.path (relative_to dir entry.path)))
          (or_else 0 entry.len)
        >>= λ item. add_files dir entries (items ++ item ∷ [])
    | some false ↦ add_files dir entries items
    | none ↦ add_files dir entries items
  ]

  module _ (sources : Sources S) (json : Json ShareRecord) (uuid : Text) (now : ℕ) where
    pub derive_url_filename : Text → Text
    derive_url_filename url = elim (sources.last_segment url) [
      | none ↦ codes "shared"
      | some seg ↦ if is_empty seg then codes "shared" else seg
    ]

    module _ (group : LocalGroup) (name description : Option Text)
        (author_identity_hex author_node_hex : Text) where
      publish : Text → List ShareItem → Io S ShareRecord
      publish display_name items =
          publish_record node json uuid now group display_name description items author_identity_hex
            author_node_hex

      pub create_from_url : Text → Io S ShareRecord
      unfolding plain add_blob_from_path derive_url_filename publish
      create_from_url url =
          plain (with_context (codes "build reqwest client") sources.client) >>= λ _.
          plain (with_context (codes "GET " ++ url) (sources.send url)) >>= λ status.
          (if leb 200 status && ltb status 300
            then plain (with_context (codes "read response body") (sources.body url))
            else plain (err (http status url)))
          >>= λ bytes. sources.temp_file bytes >>= λ tmp.
              add_blob_from_path tmp none (length bytes) >>= λ item.
              publish (or_else (derive_url_filename url) name) (item ∷ [])

      pub create_from_dir : Text → Io S ShareRecord
      unfolding plain add_files publish
      create_from_dir dir = add_files dir (sources.walk dir) [] >>= λ items.
          if is_empty items
          then plain (err (message (codes "directory has no shareable files: " ++ dir)))
          else publish (or_else (or_else (codes "folder") (file_name dir)) name) items

      pub create_from_file : Text → Metadata → Io S ShareRecord
      unfolding plain add_blob_from_path publish
      create_from_file abs metadata =
          if metadata.is_file
          then (add_blob_from_path abs none metadata.len >>= λ item.
              publish (or_else (or_else (codes "untitled") (file_name abs)) name) (item ∷ []))
          else plain (err (message (codes "source is neither a file nor a directory: " ++ abs)))

      unfoldable pub create : Text → Io S ShareRecord
      unfolding plain create_from_url create_from_dir create_from_file
      create source =
          if starts_with (codes "http://") source || starts_with (codes "https://") source
          then create_from_url source
          else plain (with_context (codes "absolute path for " ++ source) (sources.absolute source))
            >>= λ abs.
                plain (with_context (codes "stat " ++ abs) (sources.metadata abs)) >>= λ metadata.
                if metadata.is_dir then create_from_dir abs else create_from_file abs metadata
