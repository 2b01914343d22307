-- ===== src/Shares/Publish.antt =====
-- A share that was published is found by the reader of the same group.
use shmark.Base.{
  ℕ, Text, ◌≡◌, ◌⊎◌, ap, sym, ◌∙◌, Option, none, some, true, false, List, ◌++◌, Option-cases,
  Bool-cases, inl, inr, is_empty,
}
use mathlib.Core.List.{Mem, Memᴰ}
use mathlib.Core.Option.{some-injective}
use mathlib.Core.List.Perm
use mathlib.Core.List.Memᴰ
use shmark.Errors.{Result, ok, Result-cases, ok-injective, err-ne-ok}
use shmark.Json.{Json}
use shmark.Groups.{LocalGroup}
use shmark.Shares.{
  ShareItem, ShareRecord, Node, shares_key_prefix, open_doc, list, publish_record,
  parse_namespace_id,
}
use shmark.Shares.Listing.{Decodes, end, skip, keep, list_shares-IsSorted}

module _ {S : Type 0} (node : Node S) (json : Json ShareRecord) where
  -- What the code relies on: an entry that was set is among the entries with a prefix of its key,
  -- with its value; the serialized form of a record is not empty.
  pub record Keeps : Type 0 where
    pub keeps_entry :
        (ns prefix rest value : Text) (s : S) (entries : List (Result Text))
        → (node.set_bytes ns (prefix ++ rest) value s).0 ≡ ok tt
        → node.get_many ns prefix (node.set_bytes ns (prefix ++ rest) value s).1 ≡ ok entries
        → (hash : Text) × Memᴰ (ok hash) entries
          × (node.get_bytes hash (node.set_bytes ns (prefix ++ rest) value s).1 ≡ ok value)
    pub not_blank : (r : ShareRecord) (t : Text) → json.to_string r ≡ some t → is_empty t ≡ false

  same_bytes :
      (s : S) (hash hash' bytes bytes' : Text)
      → node.get_bytes hash s ≡ ok bytes
      → ok hash ≡ ok hash'
      → node.get_bytes hash' s ≡ ok bytes'
      → bytes ≡ bytes'
  same_bytes s hash hash' bytes bytes' e p e' =
      ok-injective (sym e ∙ ap (λ h. node.get_bytes h s) (ok-injective p) ∙ e')

  skipped_not_record :
      (bytes bytes' : Text) (r : ShareRecord)
      → bytes ≡ bytes'
      → is_empty bytes ≡ false
      → json.from_str bytes ≡ some r
      → ((is_empty bytes' ≡ true) ⊎ (json.from_str bytes' ≡ none))
      → ⊥
  skipped_not_record bytes bytes' r same filled good (inl blank) = cc
  skipped_not_record bytes bytes' r same filled good (inr bad) = cc

  decoded_member :
      (s : S) (hash bytes : Text) (r : ShareRecord) (entries : List (Result Text))
      (found : List ShareRecord)
      → node.get_bytes hash s ≡ ok bytes
      → is_empty bytes ≡ false
      → json.from_str bytes ≡ some r
      → Decodes node json s entries found
      → Memᴰ (ok hash) entries
      → Memᴰ r found
  decoded_member s hash bytes r _ _ e filled good end m = absurd (Memᴰ.not-nil m)
  decoded_member s hash bytes r _ _ e filled good (skip e' why d) (Memᴰ.head p) =
      absurd (skipped_not_record bytes _ r (same_bytes s hash _ bytes _ e p e') filled good why)
  decoded_member s hash bytes r _ _ e filled good (skip e' why d) (Memᴰ.tail m) =
      decoded_member s hash bytes r _ _ e filled good d m
  decoded_member s hash bytes r _ _ e filled good (keep e' filled' good' d) (Memᴰ.head p) =
      Memᴰ.head (
        some-injective _ _
          (sym good ∙ ap json.from_str (same_bytes s hash _ bytes _ e p e') ∙ good'))
  decoded_member s hash bytes r _ _ e filled good (keep e' filled' good' d) (Memᴰ.tail m) =
      Memᴰ.tail (decoded_member s hash bytes r _ _ e filled good d m)

  -- What a run of `publish_record` that succeeded did.
  record Published (uuid : Text) (group : LocalGroup) (r : ShareRecord) (s t : S) : Type 0 where
    pub ns : Text
    pub value : Text
    pub found : open_doc node group s ≡ ok ns
    pub encoded : json.to_string r ≡ some value
    pub put : node.set_bytes ns (shares_key_prefix ++ uuid) value s ≡ (ok tt, t)

  module _ (uuid : Text) (now : ℕ) (group : LocalGroup) (name : Text) (description : Option Text)
      (items : List ShareItem) (identity author : Text) where
    abbrev share : ShareRecord
    share = record {
      share_id = uuid;
      name = name;
      description = description;
      items = items;
      author_identity = identity;
      author_node = author;
      created_at = now;
    }

    put_share :
        (s t : S) (r : ShareRecord) (ns value : Text)
        → open_doc node group s ≡ ok ns
        → json.to_string share ≡ some value
        → publish_record node json uuid now group name description items identity author s
          ≡ (ok r, t)
        → (node.set_bytes ns (shares_key_prefix ++ uuid) value s ≡ (ok tt, t)) × (share ≡ r)
    unfolding publish_record
    put_share s t r ns value e e' h =
        elim (Result-cases (node.set_bytes ns (shares_key_prefix ++ uuid) value s).0) [
          | inl (_, k) ↦
              let done : (ok share, (node.set_bytes ns (shares_key_prefix ++ uuid) value s).1)
                  ≡ (ok r, t) =
                rw (e, e', k) at h in
              (λ i. (k i, (done i).1), ok-injective (λ i. (done i).0))
          | inr (inl (y, k)) ↦ absurd (err-ne-ok (λ i. ((rw (e, e', k) at h) i).0))
          | inr (inr k) ↦ cc (rw (e, e', k) at h)
        ]

    published :
        (s t : S) (r : ShareRecord)
        → publish_record node json uuid now group name description items identity author s
          ≡ (ok r, t)
        → Published uuid group r s t
    unfolding publish_record
    published s t r h = elim (Result-cases (open_doc node group s)) [
      | inl (ns, e) ↦ elim (Option-cases (json.to_string share)) [
        | inl failed ↦ cc (rw (e, failed) at h)
        | inr (value, e') ↦
            let (put, same) = put_share s t r ns value e e' h in
            record { ns = ns; value = value; found = e; encoded = rw (← same) e'; put = put }
      ]
      | inr (inl (y, k)) ↦ cc (rw k at h)
      | inr (inr k) ↦ cc (rw k at h)
    ]

    parsed :
        (s : S) (ns : Text)
        → open_doc node group s ≡ ok ns
        → node.parse_ns group.namespace_id ≡ some ns
    unfolding open_doc parse_namespace_id
    parsed s ns h = elim (Option-cases (node.parse_ns group.namespace_id)) [
      | inl failed ↦ cc (rw failed at h)
      | inr (parsed_ns, e) ↦ elim (Result-cases (node.opened parsed_ns s)) [
        | inl (there, k) ↦ elim (Bool-cases there) [
          | inl present ↦ rw e (ap some (ok-injective (rw (e, k, present) at h)))
          | inr gone ↦ cc (rw (e, k, gone) at h)
        ]
        | inr (inl (y, k)) ↦ cc (rw (e, k) at h)
        | inr (inr k) ↦ cc (rw (e, k) at h)
      ]
    ]

    same_document :
        (s t : S) (ns ns' : Text)
        → open_doc node group s ≡ ok ns
        → open_doc node group t ≡ ok ns'
        → ns' ≡ ns
    same_document s t ns ns' h k = some-injective _ _ (sym (parsed t ns' k) ∙ parsed s ns h)

    -- With a document store that keeps its entries, and a serialized form that is not empty, a share
    -- that was published to a group is in what a `list` of the group in the state after it returns,
    -- if that succeeds.
    pub list-publish_record :
        (s t : S) (r : ShareRecord) (out : List ShareRecord)
        → Keeps
        → publish_record node json uuid now group name description items identity author s
          ≡ (ok r, t)
        → list node json group t ≡ ok out
        → Mem r out
    list-publish_record s t r out keeps h k =
        let p = published s t r h in
        let (ns, entries, found, opened, many, decodes, perm) =
          (list_shares-IsSorted node json group t out k).1 in
        let after : (node.set_bytes p.ns (shares_key_prefix ++ uuid) p.value s).1 ≡ t =
          λ i. (p.put i).1 in
        let (hash, there, bytes) =
          keeps.keeps_entry p.ns shares_key_prefix uuid p.value s entries (λ i. (p.put i).0)
            (rw (after, ← same_document s t p.ns ns p.found opened) many) in
        (Perm.mem_iff perm).1
          ∣ decoded_member t hash p.value r entries found (rw (← after) bytes)
            (keeps.not_blank r p.value p.encoded) (json.from_str-to_string r p.value p.encoded)
            decodes there ∣₁
