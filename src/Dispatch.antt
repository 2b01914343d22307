-- ===== src/Dispatch.antt =====
-- crates/shmark-api/src/dispatch.rs: the methods that the clients call, over the daemon's state. The
-- parameters of a method come here as they are after `serde_json::from_value`.
pub mod Recipients
pub mod Notes
pub mod Valid
pub mod Preserved
pub mod Methods
pub mod Devices
pub mod Sharing
mod Examples
use shmark.Base.{
  ℕ, Text, codes, ◌++◌, ◌&&◌, leb, ltb, Option, none, some, Bool, true, false, List, [], ◌∷◌,
  length, take, drop, is_empty, or_else, if◌then◌else◌,
}
use shmark.Errors
use shmark.Errors.{Result, ok, err, panic, foreign, message, ok_or, with_context}
use shmark.Disk.{Disk}
use shmark.Json.{Json}
use shmark.Action.{Action, Held, pure, lift, ◌>>=◌, ◌>>◌, this, assign}
use shmark.Crypto.{Hex, Ed25519}
use shmark.Identity
use shmark.Identity.{Identity}
use shmark.Device.{Device}
use shmark.Groups
use shmark.Groups.{LocalGroup, StoredGroups, Groups, make_local_group}
use shmark.Contacts
use shmark.Contacts.{Contact, ContactsFile, Contacts}
use shmark.Pairing.{PairingHost}
use shmark.Settings
use shmark.Settings.{Settings, StoredSettings, Change, effective_search_roots}
use shmark.Resolve
use shmark.Resolve.{FileSystem, Resolution, trim}

-- The notifications of `AppState`
pub data Signal : Type 0 where
  shutdown settings_changed reload_requested : Signal

-- The parts of `AppState` that the methods of this file use. `signals` are the notifications so far,
-- the last one first.
pub record AppState : Type 0 where
  pub identity : Identity
  pub device : Device
  pub groups : Groups
  pub contacts : Contacts
  pub settings : Settings
  pub pairing : PairingHost
  pub started_at : ℕ
  pub signals : List Signal

-- A method of one part, run under its lock.
unfoldable pub in_groups : {A : Type 0} → Action Groups A → Action AppState A
in_groups m s =
    let (r, h) = m (record { value = s.value.groups; disk = s.disk }) in
    (r, record { value = record s.value { groups = h.value }; disk = h.disk })

pub in_contacts : {A : Type 0} → Action Contacts A → Action AppState A
in_contacts m s =
    let (r, h) = m (record { value = s.value.contacts; disk = s.disk }) in
    (r, record { value = record s.value { contacts = h.value }; disk = h.disk })

pub in_settings : {A : Type 0} → Action Settings A → Action AppState A
in_settings m s =
    let (r, h) = m (record { value = s.value.settings; disk = s.disk }) in
    (r, record { value = record s.value { settings = h.value }; disk = h.disk })

unfoldable pub signal : Signal → Action AppState Unit
signal x s = (ok tt, record s { value = record s.value { signals = x ∷ s.value.signals } })

-- `&s[..n]` for `n` at most the length: it panics inside a character.
pub slice_to : ℕ → Text → Result Text
slice_to n s = elim (drop n s) [
  | [] ↦ ok s
  | c ∷ rest ↦ if leb 0x80 c && ltb c 0xc0 then panic else ok (take n s)
]

pub short_alias : Text → Result Text
unfolding slice_to
short_alias ns_id = Errors.◌>>=◌ (slice_to 8 ns_id) λ front. ok (codes "group-" ++ front)

-- What `resolve_recipient` returns.
pub data Recipient : Type 0 where
  group : LocalGroup → Recipient
  contact : Contact → Recipient
  candidates : LocalGroup → Contact → Recipient
  nothing : Text → Recipient

-- `.ok()`; a panic goes on.
optional {ℓ} : {A : Type ℓ} → Result A → Result (Option A)
optional (ok a) = ok (some a)
optional (err e) = ok none
optional panic = panic

pair_matches : Text → Option LocalGroup → Option Contact → Recipient
pair_matches q (some g) none = group g
pair_matches q none (some c) = contact c
pair_matches q (some g) (some c) = candidates g c
pair_matches q none none = nothing q

pub resolve_recipient : Text → AppState → Result Recipient
unfolding optional pair_matches
resolve_recipient query s =
    let q = trim query in
    Errors.◌>>=◌ (optional (Groups.resolve q s.groups)) λ group_match.
      Errors.◌>>=◌ (optional (Contacts.resolve q s.contacts))
        λ contact_match. ok (pair_matches q group_match contact_match)

module _ (groups_json : Json StoredGroups) (contacts_json : Json ContactsFile)
    (settings_json : Json StoredSettings) where
  -- `created` is the namespace of the new document, or the failure of `Docs::create`.
  pub groups_new : ℕ → Result Text → Text → Action AppState LocalGroup
  groups_new now created alias = do
    ns ← lift created
    let local = make_local_group now ns alias true
    in_groups (Groups.upsert groups_json local)
    pure local

  -- `import` is `DocTicket::from_str`, and then `Docs::import`, which gives the namespace.
  pub groups_join : ℕ → (Text → Result Text) → Text → Option Text → Action AppState LocalGroup
  unfolding short_alias
  groups_join now import code alias = do
    ns_id ← lift (import (trim code))
    name ← lift (elim alias [ none ↦ short_alias ns_id | some a ↦ ok a ])
    let local = make_local_group now ns_id name false
    in_groups (Groups.upsert groups_json local)
    pure local

  pub groups_mark_seen : ℕ → Text → Action AppState LocalGroup
  groups_mark_seen now name_or_id = in_groups (Groups.mark_seen groups_json name_or_id now)

  pub groups_rename : Text → Text → Action AppState LocalGroup
  groups_rename name_or_id new_alias = in_groups (Groups.rename groups_json name_or_id new_alias)

  pub groups_remove : Text → Action AppState LocalGroup
  groups_remove name_or_id = in_groups (Groups.remove_group groups_json name_or_id)

  -- The note is stored under the alias of the group.
  pub groups_set_note : Text → Option Text → Action AppState Text
  groups_set_note q new_note = do
    self ← this
    found ← lift (Groups.resolve q self.groups)
    in_contacts (Contacts.set_group_note contacts_json found.local_alias new_note)
    pure found.local_alias

  pub contacts_upsert : ℕ → Text → Text → Action AppState Contact
  contacts_upsert now identity_pubkey display_name =
      in_contacts (Contacts.upsert contacts_json now identity_pubkey display_name)

  pub contacts_remove : Text → Action AppState Contact
  contacts_remove name_or_pubkey =
      in_contacts (Contacts.remove_contact contacts_json name_or_pubkey)

  pub contacts_set_note : Text → Option Text → Action AppState Contact
  contacts_set_note name_or_pubkey new_note =
      in_contacts (Contacts.set_contact_note contacts_json name_or_pubkey new_note)

  pub settings_set : Result (Unit {0}) → Result Text → Change → Action AppState Settings
  unfolding signal
  settings_set ensure at c = do
    snapshot ← in_settings (Settings.settings_set settings_json ensure at c)
    signal settings_changed
    pure snapshot

pub daemon_stop : Action AppState Unit
unfolding signal
daemon_stop = signal shutdown

pub paths_resolve : FileSystem → Text → AppState → Resolution
paths_resolve fs raw s = Resolve.resolve fs raw (effective_search_roots fs s.settings)

-- The sections of `context_dump`
group_section : Contacts → List LocalGroup → Text
group_section contacts [] = []
group_section contacts (g ∷ gs) =
    (((codes "### " ++ g.local_alias) ++ 0x0a ∷ 0x0a ∷ [])
      ++ or_else (codes "(no note)") (Contacts.group_note g.local_alias contacts)
      ++ 0x0a ∷ 0x0a ∷ [])
    ++ group_section contacts gs

contact_section : List Contact → Result Text
unfolding slice_to
contact_section [] = ok []
contact_section (c ∷ cs) = Errors.◌>>=◌ (slice_to 12 c.identity_pubkey) λ front.
    Errors.◌>>=◌ (contact_section cs) λ rest. ok (
      ((((codes "### " ++ c.display_name) ++ (codes " (" ++ front)) ++ codes ")")
        ++ 0x0a ∷ 0x0a ∷ [])
      ++ or_else (codes "(no note)") c.note
      ++ 0x0a ∷ 0x0a ∷ []
      ++ rest)

abbrev blank_line : Text
blank_line = 0x0a ∷ 0x0a ∷ []

module _ (hex : Hex) (dalek : Ed25519) where
  pub context_dump : AppState → Result Text
  unfolding group_section contact_section
  context_dump s =
      let groups = Groups.list s.groups in
      let contacts = Contacts.list s.contacts in
      Errors.◌>>=◌
        (if is_empty contacts
          then ok (codes "(no contacts yet)" ++ blank_line)
          else contact_section contacts)
        λ contact_text. ok (
          ((codes "# shmark context" ++ blank_line) ++ (codes "## Identity" ++ blank_line))
          ++ (((codes "- display name: " ++ s.identity.display_name) ++ 0x0a ∷ [])
              ++ ((codes "- identity_pubkey: " ++ Identity.pubkey_hex hex dalek s.identity)
                  ++ blank_line))
          ++ ((codes "## Groups" ++ blank_line)
              ++ (if is_empty groups
                  then codes "(no groups yet)" ++ blank_line
                  else group_section s.contacts groups))
          ++ ((codes "## Contacts" ++ blank_line) ++ contact_text))
