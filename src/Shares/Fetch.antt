-- ===== src/Shares/Fetch.antt =====
-- `read_item`, `download` and `auto_pin` of crates/shmark-core/src/shares.rs.
use shmark.Base.{ℕ, Text, codes, ◌++◌, none, some, List, [], ◌∷◌, if◌then◌else◌}
use shmark.Errors.{Result, ok, message, foreign, ok_or, with_context}
use shmark.Json.{Json}
use shmark.Paths.{join, parent}
use shmark.Groups.{LocalGroup}
use shmark.Shares.{ShareItem, ShareRecord, Node, Io, ◌>>=◌, or_false, get, item_of}
use shmark.Shares.Create.{Sources}

-- Where an item goes: its own path below the folder, or the name of the share.
unfoldable pub target_of : Text → ShareRecord → ShareItem → Text
target_of dest_root r item = elim item.path [
  | some rel ↦ join dest_root rel
  | none ↦ join dest_root r.name
]

module _ {S : Type 0} (node : Node S) where
  plain : {A : Type 0} → Result A → Io S A
  plain r s = (r, s)

  hash_of : ShareItem → Result Text
  hash_of item =
      with_context (codes "parse blob hash " ++ item.blob_hash)
        (ok_or foreign (node.parse_hash item.blob_hash))

  provider_of : ShareRecord → Result Text
  provider_of r =
      with_context (codes "parse author endpoint id " ++ r.author_node)
        (ok_or foreign (node.parse_endpoint r.author_node))

  -- `with_context` of a call of the node
  named : {A : Type 0} → Text → Io S A → Io S A
  named text m s = let (r, t) = m s in (with_context text r, t)

  fetch : ShareItem → Text → Text → Io S Unit
  unfolding named
  fetch item hash provider =
      named (codes "download blob " ++ item.blob_hash) (node.download hash provider)

  -- `auto_pin`, which cannot fail.
  pin_items : Text → List ShareItem → S → S
  pin_items provider [] s = s
  pin_items provider (item ∷ items) s = elim (node.parse_hash item.blob_hash) [
    | none ↦ pin_items provider items s
    | some hash ↦
        pin_items provider items
          (if or_false (node.has hash s) then s else (node.download hash provider s).1)
  ]

  unfoldable pub auto_pin : ShareRecord → S → S
  unfolding pin_items
  auto_pin r s = elim (node.parse_endpoint r.author_node) [
    | none ↦ s
    | some provider ↦ pin_items provider r.items s
  ]

  module _ (json : Json ShareRecord) where
    unfoldable pub read_item : LocalGroup → Text → ℕ → Io S Text
    unfolding plain hash_of provider_of fetch
    read_item group share_id item_idx s =
        (plain (item_of node json group share_id item_idx s) >>= λ found.
        plain (hash_of found.1) >>= λ hash. plain (provider_of found.0) >>= λ provider.
        fetch found.1 hash provider >>= λ _. λ t. (node.get_bytes hash t, t))
          s

    module _ (sources : Sources S) where
      make_parent : Text → Io S Unit
      unfolding plain named
      make_parent target = elim (parent target) [
        | none ↦ plain (ok tt)
        | some dir ↦ named (codes "create " ++ dir) (sources.create_dir_all dir)
      ]

      -- One round of the loop of `download`.
      download_item : Text → Text → ShareRecord → ShareItem → Io S Unit
      unfolding plain hash_of fetch named make_parent
      download_item dest_root provider r item = plain (hash_of item) >>= λ hash.
          make_parent (target_of dest_root r item) >>= λ _. fetch item hash provider >>= λ _.
          named (codes "export blob to " ++ target_of dest_root r item)
            (node.export hash (target_of dest_root r item))

      download_items : Text → Text → ShareRecord → List ShareItem → Io S Unit
      unfolding plain download_item
      download_items dest_root provider r [] = plain (ok tt)
      download_items dest_root provider r (item ∷ items) =
          download_item dest_root provider r item >>= λ _. download_items dest_root provider r items

      unfoldable pub download : LocalGroup → Text → Text → Io S Text
      unfolding plain named provider_of download_items
      download group share_id dest_root s =
          (plain (get node json group share_id s) >>= λ found.
          plain (ok_or (message (codes "share not found: " ++ share_id)) found) >>= λ r.
          named (codes "create dest dir " ++ dest_root) (sources.create_dir_all dest_root) >>= λ _.
          plain (provider_of r) >>= λ provider.
          download_items dest_root provider r r.items >>= λ _. plain (ok dest_root))
            s
