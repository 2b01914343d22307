-- ===== src/Groups/Durable.antt =====
-- What a restart finds on the disk after a method that succeeded, and runs of methods.
use shmark.Base.{ℕ, Text, ◌≡◌, refl, ap, ◌∙◌, some, false, Option-cases, inl, inr, subst, []}
use shmark.Errors.{ok, Result-cases, err-ne-ok}
use shmark.Maps.{lookup, values, update, remove}
use shmark.Maps.Distinct.{collect-Distinct}
use shmark.Maps.Keyed.{with_keys-values}
use shmark.Maps.Same.{SameMap}
use shmark.Disk.{Disk}
use shmark.Disk.Laws.{lookup-write, unreadable-write, read_file}
use shmark.Json.{Json}
use shmark.Action.{Held, Action, write_file, write_file-done}
use shmark.Action.Saving.{Saves, then_saves}
use shmark.Groups.{
  LocalGroup, StoredGroups, Groups, restore, read_stored, load, save, upsert, rename, mark_seen,
  remove_group, change_entry, resolve_key,
}
use shmark.Groups.Valid.{
  IsValid, inserted-IsValid, rename-IsValid, mark_seen-IsValid, remove_group-IsValid, value-save,
  path-rename, path-mark_seen, path-remove_group,
}

restore-values :
    (s : Groups) → IsValid s → restore s.state_path (record { groups = values s.by_namespace }) ≡ s
unfolding restore
restore-values s v =
    rw (with_keys-values (λ (g : LocalGroup). g.namespace_id) s.by_namespace v.keyed) (λ i. record {
      state_path = s.state_path;
      by_namespace = collect-Distinct [] s.by_namespace v.distinct i;
    })

-- The disk, read back, has the same groups as the index in memory.
abbrev pub Durable : Json StoredGroups → Held Groups → Type 0
Durable json s =
    (t : Groups) × (load json s.value.state_path s.disk ≡ ok t)
    × SameMap t.by_namespace s.value.by_namespace

module _ (json : Json StoredGroups) where
  load_of_text :
      (s : Groups) (d : Disk) (text : Text)
      → IsValid s
      → json.to_string (record { groups = values s.by_namespace }) ≡ some text
      → lookup s.state_path d.files ≡ some text
      → d.unreadable s.state_path ≡ false
      → load json s.state_path d ≡ ok s
  unfolding load read_stored
  load_of_text s d text v encoded written readable =
      let (there, same) = read_file s.state_path text d written readable in
      rw (there, same, json.from_str-to_string _ text encoded, restore-values s v)

  written-Durable :
      (s : Held Groups) (text : Text)
      → IsValid s.value
      → s.disk.unreadable s.value.state_path ≡ false
      → json.to_string (record { groups = values s.value.by_namespace }) ≡ some text
      → (write_file s.value.state_path text s).0 ≡ ok tt
      → Durable json (write_file s.value.state_path text s).1
  written-Durable s text v readable encoded done = (
    s.value,
    load_of_text s.value (write_file s.value.state_path text s).1.disk text v encoded
        (lookup-write s.value.state_path text s.disk
          (write_file-done s.value.state_path text s done))
        (rw unreadable-write readable),
    λ k. refl,
  )

  save-Durable :
      (s : Held Groups)
      → IsValid s.value
      → s.disk.unreadable s.value.state_path ≡ false
      → (save json s).0 ≡ ok tt
      → Durable json (save json s).1
  unfolding save
  save-Durable s v readable done =
      elim (Option-cases (json.to_string (record { groups = values s.value.by_namespace }))) [
        | inl failed ↦ absurd (err-ne-ok (rw failed at done))
        | inr (text, encoded) ↦
            rw encoded (written-Durable s text v readable encoded (rw encoded at done))
      ]

  change_entry-Saves :
      (missing q : Text) (change : LocalGroup → LocalGroup) (s : Held Groups) (x : LocalGroup)
      → (change_entry json missing q change s).0 ≡ ok x
      → Saves (save json) (change_entry json missing q change) s
  unfolding change_entry
  change_entry-Saves missing q change s x h = elim (Result-cases (resolve_key q s.value)) [
    | inl (key, e) ↦ elim (Option-cases (lookup key s.value.by_namespace)) [
      | inl absent ↦ cc (rw (e, absent) at h)
      | inr (g, found) ↦
          let mid : Held Groups = record s {
            value = record s.value { by_namespace = update key (change g) s.value.by_namespace };
          } in
          let (same, done) = then_saves (save json) mid (change g) (rw (e, found) at h) in
          record { mid = mid; same = rw (e, found) same; done = done; disk = refl }
    ]
    | inr (inl (y, e)) ↦ cc (rw e at h)
    | inr (inr e) ↦ cc (rw e at h)
  ]

  remove_group-Saves :
      (q : Text) (s : Held Groups) (x : LocalGroup)
      → (remove_group json q s).0 ≡ ok x
      → Saves (save json) (remove_group json q) s
  unfolding remove_group
  remove_group-Saves q s x h = elim (Result-cases (resolve_key q s.value)) [
    | inl (key, e) ↦ elim (Option-cases (lookup key s.value.by_namespace)) [
      | inl absent ↦ cc (rw (e, absent) at h)
      | inr (g, found) ↦
          let mid : Held Groups = record s {
            value = record s.value { by_namespace = remove key s.value.by_namespace };
          } in
          let (same, done) = then_saves (save json) mid g (rw (e, found) at h) in
          record { mid = mid; same = rw (e, found) same; done = done; disk = refl }
    ]
    | inr (inl (y, e)) ↦ cc (rw e at h)
    | inr (inr e) ↦ cc (rw e at h)
  ]

  Saves-Durable :
      (m : Action Groups LocalGroup) (s : Held Groups)
      → IsValid (m s).1.value
      → (m s).1.value.state_path ≡ s.value.state_path
      → s.disk.unreadable s.value.state_path ≡ false
      → Saves (save json) m s
      → Durable json (m s).1
  Saves-Durable m s v path readable saved =
      let same_value : (m s).1.value ≡ saved.mid.value =
        ap (λ (h : Held Groups). h.value) saved.same ∙ value-save json saved.mid in
      rw saved.same (
        save-Durable saved.mid (subst IsValid same_value v)
          (rw (saved.disk, ← same_value, path) readable) saved.done)

  module _ (s : Held Groups) (v : IsValid s.value)
      (readable : s.disk.unreadable s.value.state_path ≡ false) where
    pub upsert-Durable :
        (group : LocalGroup)
        → (upsert json group s).0 ≡ ok tt
        → Durable json (upsert json group s).1
    unfolding upsert
    upsert-Durable group done = save-Durable _ (inserted-IsValid group s.value v) readable done

    pub rename-Durable :
        (q new_alias : Text) (x : LocalGroup)
        → (rename json q new_alias s).0 ≡ ok x
        → Durable json (rename json q new_alias s).1
    unfolding rename
    rename-Durable q new_alias x done =
        Saves-Durable (rename json q new_alias) s (rename-IsValid json q new_alias s v)
          (path-rename json q new_alias s) readable (change_entry-Saves _ q _ s x done)

    pub mark_seen-Durable :
        (q : Text) (time : ℕ) (x : LocalGroup)
        → (mark_seen json q time s).0 ≡ ok x
        → Durable json (mark_seen json q time s).1
    unfolding mark_seen
    mark_seen-Durable q time x done =
        Saves-Durable (mark_seen json q time) s (mark_seen-IsValid json q time s v)
          (path-mark_seen json q time s) readable (change_entry-Saves _ q _ s x done)

    pub remove_group-Durable :
        (q : Text) (x : LocalGroup)
        → (remove_group json q s).0 ≡ ok x
        → Durable json (remove_group json q s).1
    remove_group-Durable q x done =
        Saves-Durable (remove_group json q) s (remove_group-IsValid json q s v)
          (path-remove_group json q s) readable (remove_group-Saves q s x done)
