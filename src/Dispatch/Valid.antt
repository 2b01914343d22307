-- ===== src/Dispatch/Valid.antt =====
-- That no call of a method damages the index of groups or the contact book.
use shmark.Base.{ℕ, Text, sym, Option, none, some, List, [], ◌∷◌, inl, inr, subst}
use shmark.Errors.{Result, ok, err, panic, Result-cases}
use shmark.Json.{Json}
use shmark.Action.{Action, Held, pure, ◌>>◌, state_then_pure}
use shmark.Groups
use shmark.Groups.{LocalGroup, StoredGroups, Groups, make_local_group}
use shmark.Groups.Valid as GroupsValid
use shmark.Contacts
use shmark.Contacts.{Contact, ContactsFile, Contacts}
use shmark.Contacts.Valid as ContactsValid
use shmark.Settings
use shmark.Settings.{Settings, StoredSettings, Change}
use shmark.Resolve.{trim}
use shmark.Dispatch.{
  AppState, in_groups, in_contacts, in_settings, signal, short_alias, groups_new, groups_join,
  groups_mark_seen, groups_rename, groups_remove, groups_set_note, contacts_upsert, contacts_remove,
  contacts_set_note, settings_set, daemon_stop,
}
use shmark.Crypto.{Bytes}
use shmark.Device.{Suite}
use shmark.Pairing.Code.{PairCode, Base64}
use shmark.Dispatch.Devices.{Joiner, devices_pair_create, devices_pair_join}
use shmark.Dispatch.Preserved.{IsValidState, pair_create-Preserves, pair_join-Preserves}

-- A call of a method that changes the state, with its parameters, the time and what the document
-- store, the system's generator and the other device answer.
pub data Request : Type 0 where
  new_group : ℕ → Result Text → Text → Request
  join_group : ℕ → (Text → Result Text) → Text → Option Text → Request
  see_group : ℕ → Text → Request
  rename_group : Text → Text → Request
  drop_group : Text → Request
  note_group : Text → Option Text → Request
  add_contact : ℕ → Text → Text → Request
  drop_contact : Text → Request
  note_contact : Text → Option Text → Request
  change_settings : Result (Unit {0}) → Result Text → Change → Request
  offer_pairing : Suite → Json PairCode → Base64 → Bytes → ℕ → Bytes → Request
  join_device : Joiner → Text → Option Text → Request
  stop : Request

module _ (groups_json : Json StoredGroups) (contacts_json : Json ContactsFile)
    (settings_json : Json StoredSettings) where
  abbrev pub dropped : {A : Type 0} → Action AppState A → Action AppState Unit
  dropped m = m >> pure tt

  unfoldable pub serve : Request → Action AppState Unit
  serve (new_group now created alias) =
      dropped (groups_new groups_json contacts_json settings_json now created alias)
  serve (join_group now import code alias) =
      dropped (groups_join groups_json contacts_json settings_json now import code alias)
  serve (see_group now q) = dropped (groups_mark_seen groups_json contacts_json settings_json now q)
  serve (rename_group q a) = dropped (groups_rename groups_json contacts_json settings_json q a)
  serve (drop_group q) = dropped (groups_remove groups_json contacts_json settings_json q)
  serve (note_group q n) = dropped (groups_set_note groups_json contacts_json settings_json q n)
  serve (add_contact now k n) =
      dropped (contacts_upsert groups_json contacts_json settings_json now k n)
  serve (drop_contact q) = dropped (contacts_remove groups_json contacts_json settings_json q)
  serve (note_contact q n) = dropped (contacts_set_note groups_json contacts_json settings_json q n)
  serve (change_settings ensure at c) =
      dropped (settings_set groups_json contacts_json settings_json ensure at c)
  serve (offer_pairing k postcard base64 random clock addr) =
      dropped (devices_pair_create k postcard base64 random clock addr)
  serve (join_device j code name) = dropped (devices_pair_join j code name)
  serve stop = daemon_stop

  abbrev pub serve_all : List Request → Held AppState → Held AppState
  serve_all [] s = s
  serve_all (r ∷ rs) s = serve_all rs (serve r s).1

  module _ (s : Held AppState) (v : IsValidState s.value) where
    added-IsValid :
        (g : LocalGroup)
        → IsValidState ((in_groups (Groups.upsert groups_json g) >> pure g) s).1.value
    unfolding in_groups
    added-IsValid g = rw (state_then_pure (in_groups (Groups.upsert groups_json g)) g s) (record {
      groups =
          GroupsValid.upsert-IsValid groups_json g
            (record { value = s.value.groups; disk = s.disk }) v.groups;
      contacts = v.contacts;
    })

    new-IsValid :
        (now : ℕ) (created : Result Text) (alias : Text)
        → IsValidState
            (groups_new groups_json contacts_json settings_json now created alias s).1.value
    unfolding groups_new
    new-IsValid now (ok ns) alias = added-IsValid _
    new-IsValid now (err e) alias = v
    new-IsValid now panic alias = v

    join-IsValid :
        (now : ℕ) (import : Text → Result Text) (code : Text) (alias : Option Text)
        → IsValidState
            (groups_join groups_json contacts_json settings_json now import code alias s).1.value
    unfolding groups_join
    join-IsValid now import code alias = elim (Result-cases (import (trim code))) [
      | inl (ns, e) ↦ elim (Result-cases (elim alias [ none ↦ short_alias ns | some a ↦ ok a ])) [
        | inl (name, e') ↦ rw (e, e') (added-IsValid _)
        | inr (inl (y, e')) ↦ rw (e, e') v
        | inr (inr e') ↦ rw (e, e') v
      ]
      | inr (inl (y, e)) ↦ rw e v
      | inr (inr e) ↦ rw e v
    ]

    note-IsValid :
        (q : Text) (n : Option Text)
        → IsValidState (groups_set_note groups_json contacts_json settings_json q n s).1.value
    unfolding groups_set_note in_contacts
    note-IsValid q n = elim (Result-cases (Groups.resolve q s.value.groups)) [
      | inl (g, e) ↦ rw e (
          subst (λ (h : Held AppState). IsValidState h.value)
            (sym (
              state_then_pure (in_contacts (Contacts.set_group_note contacts_json g.local_alias n))
                g.local_alias s))
            (record {
              groups = v.groups;
              contacts =
                  ContactsValid.set_group_note-IsValid contacts_json g.local_alias n
                    (record { value = s.value.contacts; disk = s.disk }) v.contacts;
            }))
      | inr (inl (y, e)) ↦ rw e v
      | inr (inr e) ↦ rw e v
    ]

    settings-IsValid :
        (ensure : Result (Unit {0})) (at : Result Text) (c : Change)
        → IsValidState (settings_set groups_json contacts_json settings_json ensure at c s).1.value
    unfolding settings_set in_settings signal
    settings-IsValid ensure at c =
        let unchanged : IsValidState (record s.value {
          settings =
              (Settings.settings_set settings_json ensure at c
                (record { value = s.value.settings; disk = s.disk })).1.value;
        }) =
          record { groups = v.groups; contacts = v.contacts } in
        elim (Result-cases
          (Settings.settings_set settings_json ensure at c
            (record { value = s.value.settings; disk = s.disk })).0) [
              | inl (x, e) ↦ rw e (record { groups = v.groups; contacts = v.contacts })
              | inr (inl (y, e)) ↦ rw e unchanged
              | inr (inr e) ↦ rw e unchanged
            ]

    -- A method of one part that keeps the part valid.
    groups_part :
        (m : Action Groups LocalGroup)
        → GroupsValid.IsValid (m (record { value = s.value.groups; disk = s.disk })).1.value
        → IsValidState ((in_groups m >> pure tt) s).1.value
    unfolding in_groups
    groups_part m w =
        rw (state_then_pure (in_groups m) tt s) (record { groups = w; contacts = v.contacts })

    contacts_part :
        (m : Action Contacts Contact)
        → ContactsValid.IsValid (m (record { value = s.value.contacts; disk = s.disk })).1.value
        → IsValidState ((in_contacts m >> pure tt) s).1.value
    unfolding in_contacts
    contacts_part m w =
        rw (state_then_pure (in_contacts m) tt s) (record { groups = v.groups; contacts = w })

    after_dropped :
        {A : Type 0} (m : Action AppState A)
        → IsValidState (m s).1.value
        → IsValidState (dropped m s).1.value
    after_dropped m w = rw (state_then_pure m tt s) w

    pub serve-IsValid : (r : Request) → IsValidState (serve r s).1.value
    unfolding serve groups_mark_seen groups_rename groups_remove contacts_upsert contacts_remove
        contacts_set_note daemon_stop signal
    serve-IsValid (new_group now created alias) =
        after_dropped (groups_new groups_json contacts_json settings_json now created alias)
          (new-IsValid now created alias)
    serve-IsValid (join_group now import code alias) =
        after_dropped (groups_join groups_json contacts_json settings_json now import code alias)
          (join-IsValid now import code alias)
    serve-IsValid (see_group now q) =
        groups_part _ (GroupsValid.mark_seen-IsValid groups_json q now _ v.groups)
    serve-IsValid (rename_group q a) =
        groups_part _ (GroupsValid.rename-IsValid groups_json q a _ v.groups)
    serve-IsValid (drop_group q) =
        groups_part _ (GroupsValid.remove_group-IsValid groups_json q _ v.groups)
    serve-IsValid (note_group q n) =
        after_dropped (groups_set_note groups_json contacts_json settings_json q n)
          (note-IsValid q n)
    serve-IsValid (add_contact now k n) =
        contacts_part _ (ContactsValid.upsert-IsValid contacts_json now k n _ v.contacts)
    serve-IsValid (drop_contact q) =
        contacts_part _ (ContactsValid.remove_contact-IsValid contacts_json q _ v.contacts)
    serve-IsValid (note_contact q n) =
        contacts_part _ (ContactsValid.set_contact_note-IsValid contacts_json q n _ v.contacts)
    serve-IsValid (change_settings ensure at c) =
        after_dropped (settings_set groups_json contacts_json settings_json ensure at c)
          (settings-IsValid ensure at c)
    serve-IsValid (offer_pairing k postcard base64 random clock addr) =
        after_dropped (devices_pair_create k postcard base64 random clock addr)
          (pair_create-Preserves k postcard base64 random clock addr s v)
    serve-IsValid (join_device j code name) =
        after_dropped (devices_pair_join j code name) (pair_join-Preserves j code name s v)
    serve-IsValid stop = record { groups = v.groups; contacts = v.contacts }

  -- From a valid state, any sequence of calls of the methods that change it, failed ones included,
  -- whatever the document store and the other device of a pairing answer and whatever each write
  -- does, ends in a state with a valid index of groups and a valid contact book.
  pub serve_all-IsValid :
      (rs : List Request) (s : Held AppState)
      → IsValidState s.value
      → IsValidState (serve_all rs s).value
  serve_all-IsValid [] s v = v
  serve_all-IsValid (r ∷ rs) s v = serve_all-IsValid rs (serve r s).1 (serve-IsValid s v r)
