-- ===== src/Dispatch/Examples.antt =====
-- Calls on a small state.
use shmark.Base.{Text, codes, ◌==◌, ◌≡◌, refl, some, [], if◌then◌else◌}
use shmark.Errors.{Error, ok, err, panic}
use shmark.Maps.{lookup}
use shmark.Action.{Held}
use shmark.Resolve.{trim}
use shmark.Samples.{
  groups_json, contacts_json, settings_json, me, laptop, two_groups, one_contact, empty_disk,
}
use shmark.Settings.{default_settings}
use shmark.Groups
use shmark.Groups.{LocalGroup}
use shmark.Groups.Valid as GroupsValid
use shmark.Contacts.{group_note}
use shmark.Contacts.Valid as ContactsValid
use shmark.Dispatch.{AppState, Recipient, resolve_recipient, groups_set_note}
use shmark.Settings.{effective_search_roots, default_roots}
use shmark.Resolve.{FileSystem, Resolution, resolve}
use shmark.Base.{◌++◌, none, [], ◌∷◌, false}
use shmark.Contacts
use shmark.Dispatch.{paths_resolve, context_dump, contact_section, slice_to}
use shmark.Samples.{plain_hex, toy_dalek, ann}
use shmark.Dispatch.Recipients.{Means, resolve_recipient_exact}
use shmark.Dispatch.Notes.{groups_set_note_exact}

abbrev state : AppState
state = record {
  identity = me;
  device = laptop;
  groups = two_groups;
  contacts = one_contact;
  settings = default_settings;
  pairing = record { pending = [] };
  started_at = 0;
  signals = [];
}

abbrev start : Held AppState
start = record { value = state; disk = empty_disk }

two_groups-IsValid : GroupsValid.IsValid two_groups
unfolding lookup
two_groups-IsValid = record { keyed = (refl, (refl, tt)); distinct = (refl, (refl, tt)) }

one_contact-IsValid : ContactsValid.IsValid one_contact
one_contact-IsValid = record { keyed = (refl, tt); ordered = (tt, tt) }

resolve_recipient_exact_example :
    (r : Recipient) × (resolve_recipient (codes " work ") state ≡ ok r)
    × Means (trim (codes " work ")) two_groups one_contact r
resolve_recipient_exact_example =
    resolve_recipient_exact (codes " work ") state two_groups-IsValid one_contact-IsValid

groups_set_note_exact_example :
    ((g : LocalGroup)
      → Groups.resolve (codes "n1") two_groups ≡ ok g
      → (k : Text)
      → (group_note k
            (groups_set_note groups_json contacts_json settings_json
              (codes "n1")
              (some (codes "jobs"))
              start).1.value.contacts
          ≡ (if g.local_alias == k then some (codes "jobs") else group_note k one_contact))
        × ((groups_set_note groups_json contacts_json settings_json
              (codes "n1")
              (some (codes "jobs"))
              start).1.value.groups
            ≡ two_groups))
    × ((e : Error)
        → Groups.resolve (codes "n1") two_groups ≡ err e
        → groups_set_note groups_json contacts_json settings_json
            (codes "n1")
            (some (codes "jobs"))
            start
          ≡ (err e, start))
groups_set_note_exact_example =
    groups_set_note_exact groups_json contacts_json settings_json (codes "n1") (some (codes "jobs"))
      start

abbrev nowhere : FileSystem
nowhere = record { home_dir = none; exists = λ p. false; metadata = λ p. none; walk = λ p. [] }

-- A pasted address is an address, whatever the settings are.
paths_resolve_example :
    paths_resolve nowhere (codes " http://x ") state ≡ Resolution.url (codes "http://x")
unfolding paths_resolve effective_search_roots default_roots resolve trim
paths_resolve_example = refl

-- A byte inside a character is no place to cut.
abbrev accented : AppState
accented = record state {
  contacts = record one_contact {
    by_pubkey =
        (
          codes "elevenbytes" ++ 0xc3 ∷ 0xa9 ∷ [],
          record ann { identity_pubkey = codes "elevenbytes" ++ 0xc3 ∷ 0xa9 ∷ [] },
        )
        ∷ [];
  };
}

context_dump_panics : context_dump plain_hex toy_dalek accented ≡ panic
unfolding context_dump contact_section slice_to Contacts.list
context_dump_panics = refl
