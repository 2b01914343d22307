-- ===== src/Contacts/Durable.antt =====
-- What a restart finds on the disk after a method that succeeded.
use shmark.Base.{
  ℕ, Text, Option, ◌≡◌, refl, ap, ◌∙◌, some, [], false, Option-cases, inl, inr, subst,
}
use shmark.Errors.{ok, Result-cases, err-ne-ok}
use shmark.Maps.{lookup, values, update, remove}
use shmark.Maps.Ordered.{collect-IsOrdered}
use shmark.Maps.Keyed.{with_keys-values}
use shmark.Disk.{Disk}
use shmark.Disk.Laws.{lookup-write, unreadable-write, read_file}
use shmark.Json.{Json}
use shmark.Action.{
  Held, Action, write_file, write_file-done, ◌>>◌, pure, state_then_pure, done_then_pure,
}
use shmark.Action.Saving.{Saves, then_saves}
use shmark.Contacts.{
  Contact, ContactsFile, Contacts, restore, read_stored, load, save, upsert, remove_contact,
  set_contact_note, set_group_note, resolve_key,
}
use shmark.Contacts.Valid.{
  IsValid, value-save, upsert-IsValid, remove_contact-IsValid, set_contact_note-IsValid,
  path-upsert, path-remove_contact, path-set_contact_note,
}

restore-values :
    (s : Contacts)
    → IsValid s
    → restore s.path (record { contacts = values s.by_pubkey; group_notes = s.group_notes }) ≡ s
unfolding restore
restore-values s v =
    rw (with_keys-values (λ (c : Contact). c.identity_pubkey) s.by_pubkey v.keyed) (λ i. record {
      path = s.path;
      by_pubkey = collect-IsOrdered [] s.by_pubkey v.ordered i;
      group_notes = s.group_notes;
    })

pub data Call : Type 0 where
  upsert_call : ℕ → Text → Text → Call
  note_call : Text → Option Text → Call
  remove_call : Text → Call
  group_note_call : Text → Option Text → Call

module _ (json : Json ContactsFile) where
  load_of_text :
      (s : Contacts) (d : Disk) (text : Text)
      → IsValid s
      → json.to_string (record { contacts = values s.by_pubkey; group_notes = s.group_notes })
        ≡ some text
      → lookup s.path d.files ≡ some text
      → d.unreadable s.path ≡ false
      → load json s.path d ≡ ok s
  unfolding load read_stored
  load_of_text s d text v encoded written readable =
      let (there, same) = read_file s.path text d written readable in
      rw (there, same, json.from_str-to_string _ text encoded, restore-values s v)

  -- The disk, read back, is the contact book in memory.
  abbrev pub Durable : Held Contacts → Type 0
  Durable s = load json s.value.path s.disk ≡ ok s.value

  written-Durable :
      (s : Held Contacts) (text : Text)
      → IsValid s.value
      → s.disk.unreadable s.value.path ≡ false
      → json.to_string
          (record { contacts = values s.value.by_pubkey; group_notes = s.value.group_notes })
        ≡ some text
      → (write_file s.value.path text s).0 ≡ ok tt
      → Durable (write_file s.value.path text s).1
  written-Durable s text v readable encoded done =
      load_of_text s.value (write_file s.value.path text s).1.disk text v encoded
        (lookup-write s.value.path text s.disk (write_file-done s.value.path text s done))
        (rw unreadable-write readable)

  save-Durable :
      (s : Held Contacts)
      → IsValid s.value
      → s.disk.unreadable s.value.path ≡ false
      → (save json s).0 ≡ ok tt
      → Durable (save json s).1
  unfolding save
  save-Durable s v readable done =
      elim (Option-cases (
        json.to_string
          (record { contacts = values s.value.by_pubkey; group_notes = s.value.group_notes }))) [
            | inl failed ↦ absurd (err-ne-ok (rw failed at done))
            | inr (text, encoded) ↦
                rw encoded (written-Durable s text v readable encoded (rw encoded at done))
          ]

  Saves-Durable :
      (m : Action Contacts Contact) (s : Held Contacts)
      → IsValid (m s).1.value
      → (m s).1.value.path ≡ s.value.path
      → s.disk.unreadable s.value.path ≡ false
      → Saves (save json) m s
      → Durable (m s).1
  Saves-Durable m s v path readable saved =
      let same_value : (m s).1.value ≡ saved.mid.value =
        ap (λ (h : Held Contacts). h.value) saved.same ∙ value-save json saved.mid in
      rw saved.same (
        save-Durable saved.mid (subst IsValid same_value v)
          (rw (saved.disk, ← same_value, path) readable) saved.done)

  upsert-Saves :
      (now : ℕ) (pubkey name : Text) (s : Held Contacts) (x : Contact)
      → (upsert json now pubkey name s).0 ≡ ok x
      → Saves (save json) (upsert json now pubkey name) s
  unfolding upsert
  upsert-Saves now pubkey name s x h =
      let (same, done) = then_saves (save json) _ _ h in
      record { mid = _; same = same; done = done; disk = refl }

  set_contact_note-Saves :
      (q : Text) (new_note : Option Text) (s : Held Contacts) (x : Contact)
      → (set_contact_note json q new_note s).0 ≡ ok x
      → Saves (save json) (set_contact_note json q new_note) s
  unfolding set_contact_note
  set_contact_note-Saves q new_note s x h = elim (Result-cases (resolve_key q s.value)) [
    | inl (key, e) ↦ elim (Option-cases (lookup key s.value.by_pubkey)) [
      | inl absent ↦ cc (rw (e, absent) at h)
      | inr (c, found) ↦
          let c' : Contact = record c { note = new_note } in
          let mid : Held Contacts = record s {
            value = record s.value { by_pubkey = update key c' s.value.by_pubkey };
          } in
          let (same, done) = then_saves (save json) mid c' (rw (e, found) at h) in
          record { mid = mid; same = rw (e, found) same; done = done; disk = refl }
    ]
    | inr (inl (y, e)) ↦ cc (rw e at h)
    | inr (inr e) ↦ cc (rw e at h)
  ]

  remove_contact-Saves :
      (q : Text) (s : Held Contacts) (x : Contact)
      → (remove_contact json q s).0 ≡ ok x
      → Saves (save json) (remove_contact json q) s
  unfolding remove_contact
  remove_contact-Saves q s x h = elim (Result-cases (resolve_key q s.value)) [
    | inl (key, e) ↦ elim (Option-cases (lookup key s.value.by_pubkey)) [
      | inl absent ↦ cc (rw (e, absent) at h)
      | inr (c, found) ↦
          let mid : Held Contacts = record s {
            value = record s.value { by_pubkey = remove key s.value.by_pubkey };
          } in
          let (same, done) = then_saves (save json) mid c (rw (e, found) at h) in
          record { mid = mid; same = rw (e, found) same; done = done; disk = refl }
    ]
    | inr (inl (y, e)) ↦ cc (rw e at h)
    | inr (inr e) ↦ cc (rw e at h)
  ]

  abbrev pub perform : Call → Action Contacts Unit
  perform (upsert_call now pubkey name) = upsert json now pubkey name >> pure tt
  perform (note_call q new_note) = set_contact_note json q new_note >> pure tt
  perform (remove_call q) = remove_contact json q >> pure tt
  perform (group_note_call alias new_note) = set_group_note json alias new_note

  -- Each method that succeeds on a valid contact book whose file can be read leaves a file from
  -- which `load` gives the contact book that is in memory.
  pub contacts-Durable :
      (c : Call) (s : Held Contacts)
      → IsValid s.value
      → s.disk.unreadable s.value.path ≡ false
      → (perform c s).0 ≡ ok tt
      → Durable (perform c s).1
  unfolding set_group_note
  contacts-Durable (upsert_call now pubkey name) s v readable done =
      let m = upsert json now pubkey name in
      let (x, there) = done_then_pure m tt s done in
      rw (state_then_pure m tt s) (
        Saves-Durable m s (upsert-IsValid json now pubkey name s v)
          (path-upsert json now pubkey name s) readable (upsert-Saves now pubkey name s x there))
  contacts-Durable (note_call q new_note) s v readable done =
      let m = set_contact_note json q new_note in
      let (x, there) = done_then_pure m tt s done in
      rw (state_then_pure m tt s) (
        Saves-Durable m s (set_contact_note-IsValid json q new_note s v)
          (path-set_contact_note json q new_note s) readable
          (set_contact_note-Saves q new_note s x there))
  contacts-Durable (remove_call q) s v readable done =
      let m = remove_contact json q in
      let (x, there) = done_then_pure m tt s done in
      rw (state_then_pure m tt s) (
        Saves-Durable m s (remove_contact-IsValid json q s v) (path-remove_contact json q s)
          readable (remove_contact-Saves q s x there))
  contacts-Durable (group_note_call alias new_note) s v readable done =
      save-Durable _ (record { keyed = v.keyed; ordered = v.ordered }) readable done
