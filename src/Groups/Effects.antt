-- ===== src/Groups/Effects.antt =====
-- What the methods change in the index, and what they leave alone.
use shmark.Base.{
  ℕ, Text, ◌==◌, ◌≡◌, ap, sym, ◌∙◌, some, none, Option-cases, inl, inr, if◌then◌else◌, leb,
  leb_total, leb_trans, IsSorted, sort_by-IsSorted, sort_by-perm,
}
use mathlib.Core.List.{Perm}
use shmark.Errors.{Error, ok, err, ok-injective, Result-cases}
use shmark.Maps.{lookup, values}
use shmark.Maps.Laws.{lookup-insert, lookup-update, lookup-remove}
use shmark.Maps.Keyed.{key_of_lookup}
use shmark.Json.{Json}
use shmark.Action.{Held}
use shmark.Groups.{
  LocalGroup, StoredGroups, Groups, upsert, change_entry, rename, mark_seen, remove_group,
  resolve_key, resolve, list,
}
use shmark.Groups.Valid.{
  IsValid, changed, removed, value-save, value-rename, value-mark_seen, value-remove_group,
}

module _ (q : Text) (s : Groups) (v : IsValid s) (x : LocalGroup) (found : resolve q s ≡ ok x) where
  found_at : (key : Text) → resolve_key q s ≡ ok key → lookup key s.by_namespace ≡ some x
  unfolding resolve
  found_at key e = elim (Option-cases (lookup key s.by_namespace)) [
    | inl missing ↦ cc (rw (e, missing) at found)
    | inr (y, here) ↦ here ∙ ap some (ok-injective (rw (e, here) at found))
  ]

  key_of-resolve : resolve_key q s ≡ ok x.namespace_id
  unfolding resolve
  key_of-resolve = elim (Result-cases (resolve_key q s)) [
    | inl (key, e) ↦
        e
        ∙ ap ok (
            sym (
              key_of_lookup (λ (g : LocalGroup). g.namespace_id) key x s.by_namespace v.keyed
                (found_at key e)))
    | inr (inl (y, e)) ↦ cc (rw e at found)
    | inr (inr e) ↦ cc (rw e at found)
  ]

  stored_at : lookup x.namespace_id s.by_namespace ≡ some x
  stored_at = found_at x.namespace_id key_of-resolve

  pub lookup-changed :
      (change : LocalGroup → LocalGroup) (k : Text)
      → lookup k (changed q change s).by_namespace
        ≡ (if x.namespace_id == k then some (change x) else lookup k s.by_namespace)
  lookup-changed change k =
      rw (key_of-resolve, changed)
        (rw stored_at (lookup-update x.namespace_id k (change x) x s.by_namespace stored_at))

  pub lookup-removed :
      (k : Text)
      → lookup k (removed q s).by_namespace
        ≡ (if x.namespace_id == k then none else lookup k s.by_namespace)
  lookup-removed k =
      rw (key_of-resolve, removed) (rw stored_at (lookup-remove x.namespace_id k s.by_namespace))

resolve_key_fails :
    (q : Text) (s : Groups) (e : Error) → resolve q s ≡ err e → resolve_key q s ≡ err e
unfolding resolve
resolve_key_fails q s e failed = elim (Result-cases (resolve_key q s)) [
  | inl (key, found) ↦ elim (Option-cases (lookup key s.by_namespace)) [
    | inl missing ↦ cc (rw (found, missing) at failed)
    | inr (y, here) ↦ cc (rw (found, here) at failed)
  ]
  | inr (inl (y, same)) ↦ cc (same, rw same at failed)
  | inr (inr same) ↦ cc (rw same at failed)
]

module _ (json : Json StoredGroups) (s : Held Groups) where
  -- After `upsert` the group stands under its own id, whatever the disk did, and every other entry
  -- is as before.
  pub lookup-upsert :
      (group : LocalGroup) (k : Text)
      → lookup k (upsert json group s).1.value.by_namespace
        ≡ (if group.namespace_id == k then some group else lookup k s.value.by_namespace)
  unfolding upsert
  lookup-upsert group k =
      rw value-save (lookup-insert group.namespace_id k group s.value.by_namespace)

  module _ (q : Text) (v : IsValid s.value) (x : LocalGroup)
      (found : resolve q s.value ≡ ok x) where
    -- If a query resolves to a group, `rename` changes the alias of that group and nothing else in
    -- the index, whatever the disk did.
    pub lookup-rename :
        (new_alias k : Text)
        → lookup k (rename json q new_alias s).1.value.by_namespace ≡ (
            if x.namespace_id == k
            then some (record x { local_alias = new_alias })
            else lookup k s.value.by_namespace)
    lookup-rename new_alias k =
        rw value-rename
          (lookup-changed q s.value v x found (λ g. record g { local_alias = new_alias }) k)

    -- If a query resolves to a group, `mark_seen` sets the time at which that group was seen, to any
    -- time, also to an earlier one, and changes nothing else in the index, whatever the disk did.
    pub lookup-mark_seen :
        (time : ℕ) (k : Text)
        → lookup k (mark_seen json q time s).1.value.by_namespace ≡ (
            if x.namespace_id == k
            then some (record x { last_seen_at = time })
            else lookup k s.value.by_namespace)
    lookup-mark_seen time k =
        rw value-mark_seen
          (lookup-changed q s.value v x found (λ g. record g { last_seen_at = time }) k)

    -- If a query resolves to a group, `remove` takes out that group and nothing else.
    pub lookup-remove_group :
        (k : Text)
        → lookup k (remove_group json q s).1.value.by_namespace
          ≡ (if x.namespace_id == k then none else lookup k s.value.by_namespace)
    lookup-remove_group k = rw value-remove_group (lookup-removed q s.value v x found k)

    -- After `upsert` the given group stands under its own id. If a query resolves to a group,
    -- `rename` changes the alias of that group, `mark_seen` its time, and `remove` takes it out. Each
    -- leaves every other entry as it was, whatever the disk did.
    pub changes_exact :
        (group : LocalGroup) (new_alias : Text) (time : ℕ) (k : Text)
        → (lookup k (upsert json group s).1.value.by_namespace
            ≡ (if group.namespace_id == k then some group else lookup k s.value.by_namespace))
          × (lookup k (rename json q new_alias s).1.value.by_namespace ≡ (
              if x.namespace_id == k
              then some (record x { local_alias = new_alias })
              else lookup k s.value.by_namespace))
          × (lookup k (mark_seen json q time s).1.value.by_namespace ≡ (
              if x.namespace_id == k
              then some (record x { last_seen_at = time })
              else lookup k s.value.by_namespace))
          × (lookup k (remove_group json q s).1.value.by_namespace
              ≡ (if x.namespace_id == k then none else lookup k s.value.by_namespace))
    changes_exact group new_alias time k = (
      lookup-upsert group k,
      lookup-rename new_alias k,
      lookup-mark_seen time k,
      lookup-remove_group k,
    )

  -- A query that does not resolve makes each method fail with the same error, and changes neither
  -- the index nor the disk.
  pub unresolved_unchanged :
      (q : Text) (e : Error)
      → resolve q s.value ≡ err e
      → (new_alias : Text) (time : ℕ)
      → (rename json q new_alias s ≡ (err e, s))
        × (mark_seen json q time s ≡ (err e, s))
        × (remove_group json q s ≡ (err e, s))
  unfolding rename mark_seen remove_group
  unresolved_unchanged q e failed new_alias time =
      let key_failed = resolve_key_fails q s.value e failed in
      (rw (key_failed, change_entry), rw (key_failed, change_entry), rw key_failed)

-- `list` has the groups of the index, in the order of their times of joining.
pub list_groups-IsSorted :
    (s : Groups)
    → IsSorted (λ (a b : LocalGroup). leb a.joined_at b.joined_at) (list s)
      × Perm (list s) (values s.by_namespace)
unfolding list
list_groups-IsSorted s = (
  sort_by-IsSorted (λ (a b : LocalGroup). leb a.joined_at b.joined_at)
      (λ a b h. leb_total a.joined_at b.joined_at h)
      (λ a b c h k. leb_trans a.joined_at b.joined_at c.joined_at h k) (values s.by_namespace),
  sort_by-perm (λ (a b : LocalGroup). leb a.joined_at b.joined_at) (values s.by_namespace),
)
