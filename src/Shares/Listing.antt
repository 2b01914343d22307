-- ===== src/Shares/Listing.antt =====
-- What `list`, `get` and `list_with_status` return.
use shmark.Base.{
  Text, ◌≡◌, ◌⊎◌, refl, Option, none, some, Bool, true, false, List, [], ◌∷◌, ◌++◌, map, all, arith,
  Option-cases, Bool-cases, inl, inr, subst, IsSorted, sort_by, sort_by-IsSorted, sort_by-perm,
  leb_total, leb_trans, is_empty, if◌then◌else◌,
}
use mathlib.Core.List.{Perm, append_assoc, append-nil}
use shmark.Errors.{Result, ok, err, panic, Result-cases, ok-injective}
use shmark.Json.{Json}
use shmark.Groups.{LocalGroup}
use shmark.Shares.{
  ShareItem, ShareItemStatus, ShareRecord, Node, shares_key_prefix, latest_first, open_doc,
  read_entry, read_entries, list, item_status, statuses, with_status,
}

module _ {S : Type 0} (node : Node S) (json : Json ShareRecord) where
  -- The records that a list of entries holds: a deleted entry, which is empty, and one that is no
  -- record are left out.
  pub data Decodes (s : S) : List (Result Text) → List ShareRecord → Type 0 where
    end : Decodes s [] []
    skip :
        {hash bytes : Text} {entries : List (Result Text)} {rs : List ShareRecord}
        → node.get_bytes hash s ≡ ok bytes
        → (is_empty bytes ≡ true) ⊎ (json.from_str bytes ≡ none)
        → Decodes s entries rs
        → Decodes s (ok hash ∷ entries) rs
    keep :
        {hash bytes : Text} {entries : List (Result Text)} {r : ShareRecord} {rs : List ShareRecord}
        → node.get_bytes hash s ≡ ok bytes
        → is_empty bytes ≡ false
        → json.from_str bytes ≡ some r
        → Decodes s entries rs
        → Decodes s (ok hash ∷ entries) (r ∷ rs)

  first-Decodes :
      (s : S) (entry : Result Text) (entries : List (Result Text)) (found : Option ShareRecord)
      (rest : List ShareRecord)
      → read_entry node json entry s ≡ ok found
      → Decodes s entries rest
      → Decodes s (entry ∷ entries) (elim found [ none ↦ rest | some r ↦ r ∷ rest ])
  unfolding read_entry
  first-Decodes s (err e) entries found rest h d = cc
  first-Decodes s panic entries found rest h d = cc
  first-Decodes s (ok hash) entries found rest h d = elim (Result-cases (node.get_bytes hash s)) [
    | inl (bytes, e) ↦ elim (Bool-cases (is_empty bytes)) [
      | inl blank ↦
          let same : none ≡ found = ok-injective (rw (e, blank) at h) in
          rw (← same) (skip e (inl blank) d)
      | inr filled ↦
          let same : json.from_str bytes ≡ found = ok-injective (rw (e, filled) at h) in
          elim (Option-cases (json.from_str bytes)) [
            | inl bad ↦ rw (← same, bad) (skip e (inr bad) d)
            | inr (r, good) ↦ rw (← same, good) (keep e filled good d)
          ]
    ]
    | inr (inl (y, k)) ↦ cc (rw k at h)
    | inr (inr k) ↦ cc (rw k at h)
  ]

  read_entries-Decodes :
      (s : S) (entries : List (Result Text)) (found : List ShareRecord)
      → read_entries node json entries s ≡ ok found
      → Decodes s entries found
  unfolding read_entries
  read_entries-Decodes s [] found h = rw (← ok-injective h) end
  read_entries-Decodes s (entry ∷ entries) found h =
      elim (Result-cases (read_entry node json entry s)) [
        | inl (first, e) ↦ elim (Result-cases (read_entries node json entries s)) [
          | inl (rest, e') ↦
              subst (Decodes s (entry ∷ entries)) (ok-injective (rw (e, e') at h)) (
                first-Decodes s entry entries first rest e (read_entries-Decodes s entries rest e'))
          | inr (inl (y, k)) ↦ cc (rw (e, k) at h)
          | inr (inr k) ↦ cc (rw (e, k) at h)
        ]
        | inr (inl (y, k)) ↦ cc (rw k at h)
        | inr (inr k) ↦ cc (rw k at h)
      ]

  latest-IsSorted : (rs : List ShareRecord) → IsSorted latest_first (sort_by latest_first rs)
  latest-IsSorted rs =
      sort_by-IsSorted latest_first (λ a b h. leb_total b.created_at a.created_at h)
        (λ a b c h k. leb_trans c.created_at b.created_at a.created_at k h) rs

  -- What `list` returns is in the order of creation, the latest first, and is a permutation of the
  -- records that the entries of the group's document decode to.
  pub list_shares-IsSorted :
      (group : LocalGroup) (s : S) (out : List ShareRecord)
      → list node json group s ≡ ok out
      → IsSorted latest_first out
        × ((ns : Text) × (entries : List (Result Text)) × (found : List ShareRecord) × (open_doc
                node group s
              ≡ ok ns)
            × (node.get_many ns shares_key_prefix s ≡ ok entries)
            × Decodes s entries found
            × Perm out found)
  unfolding list
  list_shares-IsSorted group s out h = elim (Result-cases (open_doc node group s)) [
    | inl (ns, e) ↦ elim (Result-cases (node.get_many ns shares_key_prefix s)) [
      | inl (entries, e') ↦ elim (Result-cases (read_entries node json entries s)) [
        | inl (found, e'') ↦
            let same : sort_by latest_first found ≡ out = ok-injective (rw (e, e', e'') at h) in
            rw (← same) (
              latest-IsSorted found,
              (
                ns,
                entries,
                found,
                e,
                e',
                read_entries-Decodes s entries found e'',
                sort_by-perm latest_first found,
              ),
            )
        | inr (inl (y, k)) ↦ cc (rw (e, e', k) at h)
        | inr (inr k) ↦ cc (rw (e, e', k) at h)
      ]
      | inr (inl (y, k)) ↦ cc (rw (e, k) at h)
      | inr (inr k) ↦ cc (rw (e, k) at h)
    ]
    | inr (inl (y, k)) ↦ cc (rw k at h)
    | inr (inr k) ↦ cc (rw k at h)
  ]

  statuses_lem :
      (s : S) (items : List ShareItem) (done : List ShareItemStatus) (flag : Bool)
      → statuses node json s items done flag ≡ (
        done ++ map (item_status node json s) items,
        if flag then all (λ i. (item_status node json s i).is_local) items else false,
      )
  unfolding statuses
  statuses_lem s [] done flag = elim (Bool-cases flag) [
    | inl e ↦ rw (append-nil, e) refl
    | inr e ↦ rw (append-nil, e) refl
  ]
  statuses_lem s (item ∷ items) done flag =
      elim (Bool-cases (item_status node json s item).is_local) [
        | inl e ↦ rw (statuses_lem s items, append_assoc, e) refl
        | inr e ↦ rw (statuses_lem s items, append_assoc, e) (ground arith)
      ]

  -- The statuses of a share are those of its items, in their order, and the flag `all_local` is set
  -- exactly when the blob of each item is in the local store.
  pub with_status_exact :
      (s : S) (r : ShareRecord)
      → ((with_status node json s r).items_status ≡ map (item_status node json s) r.items)
        × ((with_status node json s r).all_local
            ≡ all (λ i. (item_status node json s i).is_local) r.items)
  unfolding with_status
  with_status_exact s r = rw statuses_lem (refl, refl)
