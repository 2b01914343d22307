-- ===== src/Shares.antt =====
-- crates/shmark-core/src/shares.rs: the shares of a group, kept as entries of its document.
pub mod Listing
pub mod Publish
pub mod Create
pub mod Fetch
pub mod Folders
mod Examples
use shmark.Base.{
  ℕ, Text, codes, ◌++◌, ◌==◌, ◌&&◌, leb, Option, none, some, Bool, true, false, not, List, [], ◌∷◌,
  find, is_empty, sort_by, get_elem?, length, if◌then◌else◌,
}
use shmark.Errors
use shmark.Errors.{
  Result, ok, err, panic, message, out_of_range, foreign, serde, ok_or, with_context,
}
use shmark.Json.{Json}
use shmark.Groups.{LocalGroup}

abbrev pub shares_key_prefix : Text
shares_key_prefix = codes "shares/"

pub record ShareItem : Type 0 where
  pub path : Option Text
  pub blob_hash : Text
  pub size_bytes : ℕ

pub record ShareItemStatus : Type 0 where
  pub blob_hash : Text
  pub is_local : Bool

pub record ShareRecord : Type 0 where
  pub share_id : Text
  pub name : Text
  pub description : Option Text
  pub items : List ShareItem
  pub author_identity : Text
  pub author_node : Text
  pub created_at : ℕ

pub record ShareWithStatus : Type 0 where
  pub share : ShareRecord
  pub items_status : List ShareItemStatus
  pub all_local : Bool

-- What the code uses of `iroh`, `iroh-docs` and `iroh-blobs`: `from_str` of the identifiers, the
-- documents, the blob store and the downloader, over a state `S` of all of them. Reading does not
-- change the state; opening and closing a document counts handles only, so it is reading.
pub record Node (S : Type 0) : Type 0 where
  pub parse_ns : Text → Option Text
  pub parse_hash : Text → Option Text
  pub parse_endpoint : Text → Option Text
  pub opened : Text → S → Result Bool
  pub get_many : Text → Text → S → Result (List (Result Text))
  pub get_bytes : Text → S → Result Text
  -- None is an error of the store.
  pub has : Text → S → Option Bool
  pub set_bytes : Text → Text → Text → S → Result (Unit {0}) × S
  pub add_path : Text → S → Result Text × S
  pub download : Text → Text → S → Result (Unit {0}) × S
  pub export : Text → Text → S → Result (Unit {0}) × S

-- A step on the state of the node.
abbrev pub Io : Type 0 → Type 0 → Type 0
Io S A = S → Result A × S

module _ {S A B : Type 0} where
  abbrev pub proceed : Result A → (A → Io S B) → Io S B
  proceed (ok a) f s = f a s
  proceed (err e) f s = (err e, s)
  proceed panic f s = (panic, s)

  infixl 5 ◌>>=◌
  abbrev pub ◌>>=◌ : Io S A → (A → Io S B) → Io S B
  ◌>>=◌ m f s = let (r, t) = m s in proceed r f t

-- The order of `list`: the latest first.
abbrev pub latest_first : ShareRecord → ShareRecord → Bool
latest_first a b = leb b.created_at a.created_at

-- `unwrap_or(false)`
abbrev pub or_false : Option Bool → Bool
or_false none = false
or_false (some b) = b

module _ {S : Type 0} (node : Node S) where
  unfoldable pub parse_namespace_id : Text → Result Text
  parse_namespace_id t =
      with_context (codes "parse NamespaceId from " ++ t) (ok_or foreign (node.parse_ns t))

  -- The document of the group, which must be there.
  unfoldable pub open_doc : LocalGroup → S → Result Text
  unfolding parse_namespace_id
  open_doc group s = Errors.◌>>=◌ (parse_namespace_id group.namespace_id) λ ns.
      Errors.◌>>=◌ (node.opened ns s) λ there.
        if there
        then ok ns
        else err (message (codes "group doc not found locally: " ++ group.namespace_id))

  module _ (json : Json ShareRecord) where
    -- One entry of the stream: none for a deleted or a malformed one.
    unfoldable pub read_entry : Result Text → S → Result (Option ShareRecord)
    read_entry entry s = Errors.◌>>=◌ entry λ hash.
        Errors.◌>>=◌ (node.get_bytes hash s)
          λ bytes. ok (if is_empty bytes then none else json.from_str bytes)

    unfoldable pub read_entries : List (Result Text) → S → Result (List ShareRecord)
    unfolding read_entry
    read_entries [] s = ok []
    read_entries (entry ∷ entries) s = Errors.◌>>=◌ (read_entry entry s) λ found.
        Errors.◌>>=◌ (read_entries entries s)
          λ rest. ok (elim found [ none ↦ rest | some r ↦ r ∷ rest ])

    unfoldable pub list : LocalGroup → S → Result (List ShareRecord)
    unfolding open_doc read_entries
    list group s = Errors.◌>>=◌ (open_doc group s) λ ns.
        Errors.◌>>=◌ (node.get_many ns shares_key_prefix s)
          λ entries. Errors.◌>>=◌ (read_entries entries s) λ out. ok (sort_by latest_first out)

    pub get : LocalGroup → Text → S → Result (Option ShareRecord)
    get group share_id s =
        Errors.◌>>=◌ (list group s) λ records. ok (find (λ r. r.share_id == share_id) records)

    -- One round of the inner loop of `list_with_status`.
    unfoldable pub item_status : S → ShareItem → ShareItemStatus
    item_status s item = elim (node.parse_hash item.blob_hash) [
      | none ↦ record { blob_hash = item.blob_hash; is_local = false }
      | some hash ↦ record { blob_hash = item.blob_hash; is_local = or_false (node.has hash s) }
    ]

    -- The inner loop: what it pushed, and the flag.
    unfoldable pub statuses :
        S → List ShareItem → List ShareItemStatus → Bool → List ShareItemStatus × Bool
    unfolding item_status
    statuses s [] items_status all_local = (items_status, all_local)
    statuses s (item ∷ items) items_status all_local =
        let status = item_status s item in
        statuses s items (items_status ++ status ∷ [])
          (if status.is_local then all_local else false)

    unfoldable pub with_status : S → ShareRecord → ShareWithStatus
    unfolding statuses
    with_status s r =
        let (items_status, all_local) = statuses s r.items [] true in
        record { share = r; items_status = items_status; all_local = all_local }

    unfoldable pub with_statuses : S → List ShareRecord → List ShareWithStatus
    unfolding with_status
    with_statuses s [] = []
    with_statuses s (r ∷ rs) = with_status s r ∷ with_statuses s rs

    unfoldable pub list_with_status : LocalGroup → S → Result (List ShareWithStatus)
    unfolding with_statuses
    list_with_status group s = Errors.◌>>=◌ (list group s) λ records. ok (with_statuses s records)

    -- `uuid` and `now` are the fresh identifier and the time.
    pub publish_record :
        Text → ℕ → LocalGroup → Text → Option Text → List ShareItem → Text → Text → Io S ShareRecord
    publish_record uuid now group name description items author_identity_hex author_node_hex =
        let share : ShareRecord = record {
          share_id = uuid;
          name = name;
          description = description;
          items = items;
          author_identity = author_identity_hex;
          author_node = author_node_hex;
          created_at = now;
        } in
        (λ s. (open_doc group s, s)) >>= λ ns.
        (λ s. (ok_or serde (json.to_string share), s)) >>= λ value.
        (node.set_bytes ns (shares_key_prefix ++ uuid) value) >>= λ _. λ s. (ok share, s)

    -- The item that `read_item` is asked for.
    pub item_of : LocalGroup → Text → ℕ → S → Result (ShareRecord × ShareItem)
    item_of group share_id item_idx s = Errors.◌>>=◌ (get group share_id s) λ found.
        Errors.◌>>=◌ (ok_or (message (codes "share not found: " ++ share_id)) found) λ r.
          Errors.◌>>=◌ (ok_or (out_of_range item_idx (length r.items)) (get_elem? r.items item_idx))
            λ item. ok (r, item)
