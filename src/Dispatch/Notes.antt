-- ===== src/Dispatch/Notes.antt =====
-- What `groups_set_note` does, and that the calls of one part leave the others alone.
use shmark.Base.{Text, ◌==◌, ◌≡◌, refl, Option, if◌then◌else◌}
use shmark.Errors.{ok, err}
use shmark.Json.{Json}
use shmark.Action.{Held, state_then_pure}
use shmark.Groups
use shmark.Groups.{LocalGroup, StoredGroups, Groups}
use shmark.Contacts.{ContactsFile, group_note, set_group_note}
use shmark.Contacts.Effects.{group_note-set_group_note}
use shmark.Settings.{StoredSettings}
use shmark.Dispatch.{AppState, in_contacts, groups_set_note}

module _ (groups_json : Json StoredGroups) (contacts_json : Json ContactsFile)
    (settings_json : Json StoredSettings) where
  noted_state :
      (q : Text) (new_note : Option Text) (s : Held AppState) (g : LocalGroup)
      → Groups.resolve q s.value.groups ≡ ok g
      → (groups_set_note groups_json contacts_json settings_json q new_note s).1
        ≡ (in_contacts (set_group_note contacts_json g.local_alias new_note) s).1
  unfolding groups_set_note
  noted_state q new_note s g e = rw e (
      state_then_pure (in_contacts (set_group_note contacts_json g.local_alias new_note))
        g.local_alias s)

  -- If a query resolves to a group, `groups_set_note` sets the note of the alias of that group and of
  -- no other alias, and leaves the index of groups alone, also where the save then fails. If the query
  -- resolves to none, nothing changes.
  pub groups_set_note_exact :
      (q : Text) (new_note : Option Text) (s : Held AppState)
      → ((g : LocalGroup)
          → Groups.resolve q s.value.groups ≡ ok g
          → (k : Text)
          → (group_note k
                (groups_set_note groups_json contacts_json settings_json q new_note
                  s).1.value.contacts
              ≡ (if g.local_alias == k then new_note else group_note k s.value.contacts))
            × ((groups_set_note groups_json contacts_json settings_json q new_note s).1.value.groups
                ≡ s.value.groups))
        × ((e : _)
            → Groups.resolve q s.value.groups ≡ err e
            → groups_set_note groups_json contacts_json settings_json q new_note s ≡ (err e, s))
  unfolding groups_set_note in_contacts
  groups_set_note_exact q new_note s = (
    λ g e k. rw (noted_state q new_note s g e) (
      group_note-set_group_note contacts_json (record { value = s.value.contacts; disk = s.disk })
          g.local_alias k new_note,
      refl,
    ),
    λ e h. rw h refl,
  )
