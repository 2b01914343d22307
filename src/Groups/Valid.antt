-- ===== src/Groups/Valid.antt =====
-- The invariant of the index, and that every method keeps it, whatever the disk does.
use shmark.Base.{
  ℕ, Text, ◌≡◌, refl, some, none, [], ◌∷◌, arith, Option-cases, Bool-cases, inl, inr, ◌∙◌, List,
  subst,
}
use shmark.Errors.{ok, err, panic, Result-cases, ok-injective}
use shmark.Maps.{Map, lookup, insert, remove, update, collect_with}
use shmark.Maps.Distinct.{Distinct, insert-Distinct, remove-Distinct, update-Distinct}
use shmark.Maps.Keyed.{
  KeyedBy, with_keys, insert-KeyedBy, remove-KeyedBy, update-KeyedBy, key_of_lookup,
}
use shmark.Disk
use shmark.Disk.{Disk, read_to_string}
use shmark.Json.{Json}
use shmark.Action.{Held, ◌>>◌, pure}
use shmark.Groups.{
  LocalGroup, StoredGroups, Groups, restore, read_stored, load, save, upsert, change_entry, rename,
  mark_seen, remove_group, resolve_key,
}

-- Each group stands once, under its own namespace id.
pub record IsValid (s : Groups) : Type 0 where
  pub keyed : KeyedBy (λ g. g.namespace_id) s.by_namespace
  pub distinct : Distinct s.by_namespace

collect-keeps :
    (m : Map LocalGroup) (l : List LocalGroup)
    → KeyedBy (λ g. g.namespace_id) m
    → Distinct m
    → KeyedBy (λ g. g.namespace_id) (collect_with insert m (with_keys (λ g. g.namespace_id) l))
      × Distinct (collect_with insert m (with_keys (λ g. g.namespace_id) l))
unfolding collect_with
collect-keeps m [] k d = (k, d)
collect-keeps m (g ∷ l) k d =
    collect-keeps (insert g.namespace_id g m) l
      (insert-KeyedBy (λ (x : LocalGroup). x.namespace_id) g.namespace_id g m refl k)
      (insert-Distinct g.namespace_id g m d)

-- The index after a change of the entry that `q` finds.
abbrev pub changed : Text → (LocalGroup → LocalGroup) → Groups → Groups
changed q change s = elim (resolve_key q s) [
  | ok key ↦ elim (lookup key s.by_namespace) [
    | none ↦ s
    | some g ↦ record s { by_namespace = update key (change g) s.by_namespace }
  ]
  | err e ↦ s
  | panic ↦ s
]

-- The index without the entry that `q` finds.
abbrev pub removed : Text → Groups → Groups
removed q s = elim (resolve_key q s) [
  | ok key ↦ elim (lookup key s.by_namespace) [
    | none ↦ s
    | some g ↦ record s { by_namespace = remove key s.by_namespace }
  ]
  | err e ↦ s
  | panic ↦ s
]

changed-IsValid :
    (q : Text) (change : LocalGroup → LocalGroup) (s : Groups)
    → ((g : LocalGroup) → (change g).namespace_id ≡ g.namespace_id)
    → IsValid s
    → IsValid (changed q change s)
changed-IsValid q change s same v = elim (Result-cases (resolve_key q s)) [
  | inl (key, e) ↦
      rw (e, changed)
        (elim (Option-cases (lookup key s.by_namespace)) [
          | inl absent ↦ rw absent v
          | inr (g, found) ↦ rw found (record {
            keyed =
                update-KeyedBy (λ (x : LocalGroup). x.namespace_id) key (change g) s.by_namespace
                  (same g
                    ∙ key_of_lookup (λ (x : LocalGroup). x.namespace_id) key g s.by_namespace
                        v.keyed found)
                  v.keyed;
            distinct = update-Distinct key (change g) s.by_namespace v.distinct;
          })
        ])
  | inr (inl (x, e)) ↦ rw (e, changed) v
  | inr (inr e) ↦ rw (e, changed) v
]

pub inserted-IsValid :
    (group : LocalGroup) (s : Groups)
    → IsValid s
    → IsValid (record s { by_namespace = insert group.namespace_id group s.by_namespace })
inserted-IsValid group s v = record {
  keyed =
      insert-KeyedBy (λ (x : LocalGroup). x.namespace_id) group.namespace_id group s.by_namespace
        refl v.keyed;
  distinct = insert-Distinct group.namespace_id group s.by_namespace v.distinct;
}

path-changed :
    (q : Text) (change : LocalGroup → LocalGroup) (s : Groups)
    → (changed q change s).state_path ≡ s.state_path
path-changed q change s = ground arith

path-removed : (q : Text) (s : Groups) → (removed q s).state_path ≡ s.state_path
path-removed q s = ground arith

removed-IsValid : (q : Text) (s : Groups) → IsValid s → IsValid (removed q s)
removed-IsValid q s v = elim (Result-cases (resolve_key q s)) [
  | inl (key, e) ↦
      rw (e, removed)
        (elim (Option-cases (lookup key s.by_namespace)) [
          | inl absent ↦ rw absent v
          | inr (g, found) ↦ rw found (record {
            keyed = remove-KeyedBy (λ (x : LocalGroup). x.namespace_id) key s.by_namespace v.keyed;
            distinct = remove-Distinct key s.by_namespace v.distinct;
          })
        ])
  | inr (inl (x, e)) ↦ rw (e, removed) v
  | inr (inr e) ↦ rw (e, removed) v
]

restore-IsValid : (path : Text) (stored : StoredGroups) → IsValid (restore path stored)
unfolding restore
restore-IsValid path stored =
    let (keyed, distinct) = collect-keeps [] stored.groups tt tt in
    record { keyed = keyed; distinct = distinct }

module _ (json : Json StoredGroups) where
  -- Whatever text the file holds, a load that succeeds gives a valid index.
  pub load-IsValid : (path : Text) (d : Disk) (s : Groups) → load json path d ≡ ok s → IsValid s
  unfolding load
  load-IsValid path d s h = elim (Bool-cases (Disk.exists path d)) [
    | inl there ↦ elim (Result-cases (read_stored json path d)) [
      | inl (stored, e) ↦
          subst IsValid (ok-injective (rw (there, e) at h)) (restore-IsValid path stored)
      | inr (inl (x, e)) ↦ cc (rw (there, e) at h)
      | inr (inr e) ↦ cc (rw (there, e) at h)
    ]
    | inr missing ↦
        subst IsValid (ok-injective (rw missing at h)) (record { keyed = tt; distinct = tt })
  ]

  pub value-save : (s : Held Groups) → (save json s).1.value ≡ s.value
  unfolding save
  value-save s = ground arith

  pub upsert-IsValid :
      (group : LocalGroup) (s : Held Groups)
      → IsValid s.value
      → IsValid (upsert json group s).1.value
  unfolding upsert
  upsert-IsValid group s v = rw value-save (inserted-IsValid group s.value v)

  value-save_then : (x : LocalGroup) (s : Held Groups) → ((save json >> pure x) s).1.value ≡ s.value
  unfolding save
  value-save_then x s = ground arith

  value-change_entry :
      (missing q : Text) (change : LocalGroup → LocalGroup) (s : Held Groups)
      → (change_entry json missing q change s).1.value ≡ changed q change s.value
  unfolding change_entry
  value-change_entry missing q change s = elim (Result-cases (resolve_key q s.value)) [
    | inl (key, e) ↦
        rw (e, changed)
          (elim (Option-cases (lookup key s.value.by_namespace)) [
            | inl absent ↦ rw absent
            | inr (g, found) ↦ rw found (value-save_then _ _)
          ])
    | inr (inl (x, e)) ↦ rw (e, changed)
    | inr (inr e) ↦ rw (e, changed)
  ]

  pub value-remove_group :
      (q : Text) (s : Held Groups) → (remove_group json q s).1.value ≡ removed q s.value
  unfolding remove_group
  value-remove_group q s = elim (Result-cases (resolve_key q s.value)) [
    | inl (key, e) ↦
        rw (e, removed)
          (elim (Option-cases (lookup key s.value.by_namespace)) [
            | inl absent ↦ rw absent
            | inr (g, found) ↦ rw found (value-save_then _ _)
          ])
    | inr (inl (x, e)) ↦ rw (e, removed)
    | inr (inr e) ↦ rw (e, removed)
  ]

  pub value-rename :
      (q new_alias : Text) (s : Held Groups)
      → (rename json q new_alias s).1.value
        ≡ changed q (λ g. record g { local_alias = new_alias }) s.value
  unfolding rename
  value-rename q new_alias s = value-change_entry _ q _ s

  pub rename-IsValid :
      (q new_alias : Text) (s : Held Groups)
      → IsValid s.value
      → IsValid (rename json q new_alias s).1.value
  rename-IsValid q new_alias s v = rw value-rename (changed-IsValid q _ s.value (λ g. refl) v)

  pub value-mark_seen :
      (q : Text) (time : ℕ) (s : Held Groups)
      → (mark_seen json q time s).1.value
        ≡ changed q (λ g. record g { last_seen_at = time }) s.value
  unfolding mark_seen
  value-mark_seen q time s = value-change_entry _ q _ s

  pub mark_seen-IsValid :
      (q : Text) (time : ℕ) (s : Held Groups)
      → IsValid s.value
      → IsValid (mark_seen json q time s).1.value
  mark_seen-IsValid q time s v = rw value-mark_seen (changed-IsValid q _ s.value (λ g. refl) v)

  pub remove_group-IsValid :
      (q : Text) (s : Held Groups) → IsValid s.value → IsValid (remove_group json q s).1.value
  remove_group-IsValid q s v = rw value-remove_group (removed-IsValid q s.value v)

  -- No method changes the path of the file.
  pub path-rename :
      (q new_alias : Text) (s : Held Groups)
      → (rename json q new_alias s).1.value.state_path ≡ s.value.state_path
  path-rename q new_alias s = rw value-rename (path-changed q _ s.value)

  pub path-mark_seen :
      (q : Text) (time : ℕ) (s : Held Groups)
      → (mark_seen json q time s).1.value.state_path ≡ s.value.state_path
  path-mark_seen q time s = rw value-mark_seen (path-changed q _ s.value)

  pub path-remove_group :
      (q : Text) (s : Held Groups) → (remove_group json q s).1.value.state_path ≡ s.value.state_path
  path-remove_group q s = rw value-remove_group (path-removed q s.value)
