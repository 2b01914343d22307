-- ===== src/State/Confined.antt =====
-- That `Node::boot` of crates/shmark-core/src/node.rs works in directories of its own, and what a start
-- reads is elsewhere.
use shmark.Base.{Text, codes, ◌≡◌, ◌≢◌, ◌⊎◌, ◌∙◌, false, ◌++◌, inl, inr, refl, arith}
use shmark.Errors.{Result, ok, Result-cases, ok-injective}
use shmark.Disk.{Disk}
use shmark.Disk.Frames.{Untouched, read_to_string-Untouched}
use shmark.Json.{Json}
use shmark.Paths.{
  Surroundings, is_absolute, join, data_dir, ensure_data_dir, in_data_dir, identity_path,
  device_path, groups_state_path, settings_path, contacts_state_path,
}
use shmark.Paths.Names.{join-injective}
use shmark.Groups
use shmark.Groups.{Groups, StoredGroups}
use shmark.Contacts
use shmark.Contacts.{Contacts, ContactsFile}
use shmark.Settings
use shmark.Settings.{Settings, StoredSettings}
use shmark.State.{Moment}

-- A file of the node's stores: below `blobs` or `docs` in the data directory.
abbrev pub NodeFile : Text → Text → Type 0
NodeFile dir path =
    ((rest : Text) × (path ≡ join dir (codes "blobs/" ++ rest)))
    ⊎ ((rest : Text) × (path ≡ join dir (codes "docs/" ++ rest)))

-- The node leaves every other file alone.
abbrev pub Confined : Moment → Type 0
Confined t =
    (secret dir path : Text) (d : Disk)
    → ¬ NodeFile dir path
    → Untouched path d (t.node_boot secret dir d).1

named_apart :
    (e : Surroundings) (dir name path : Text)
    → is_absolute name ≡ false
    → ((rest : Text) → name ≢ codes "blobs/" ++ rest)
    → ((rest : Text) → name ≢ codes "docs/" ++ rest)
    → data_dir e ≡ ok dir
    → in_data_dir name e ≡ ok path
    → ¬ NodeFile dir path
unfolding in_data_dir
named_apart e dir name path below blobs docs at named (inl (rest, same)) = blobs rest (
    join-injective dir name (codes "blobs/" ++ rest) below refl
      (ok-injective (rw at at named) ∙ same))
named_apart e dir name path below blobs docs at named (inr (rest, same)) = docs rest (
    join-injective dir name (codes "docs/" ++ rest) below refl
      (ok-injective (rw at at named) ∙ same))

pub data_dir_of-ensure_data_dir :
    (create_dir_all : Text → Result (Unit {0})) (e : Surroundings) (dir : Text)
    → ensure_data_dir create_dir_all e ≡ ok dir
    → data_dir e ≡ ok dir
unfolding ensure_data_dir
data_dir_of-ensure_data_dir create_dir_all e dir h = elim (Result-cases (data_dir e)) [
  | inl (found, k) ↦ elim (Result-cases (create_dir_all found)) [
    | inl (u, made) ↦ k ∙ rw (k, made) at h
    | inr (inl (y, made)) ↦ cc (rw (k, made) at h)
    | inr (inr made) ↦ cc (rw (k, made) at h)
  ]
  | inr (inl (y, k)) ↦ cc (rw k at h)
  | inr (inr k) ↦ cc (rw k at h)
]

module _ (e : Surroundings) (dir path : Text) (at : data_dir e ≡ ok dir) where
  pub identity_path-apart : identity_path e ≡ ok path → ¬ NodeFile dir path
  unfolding identity_path
  identity_path-apart =
      named_apart e dir (codes "identity.json") path refl (λ r h. ground arith)
        (λ r h. ground arith) at

  pub device_path-apart : device_path e ≡ ok path → ¬ NodeFile dir path
  unfolding device_path
  device_path-apart =
      named_apart e dir (codes "device.json") path refl (λ r h. ground arith) (λ r h. ground arith)
        at

  pub groups_state_path-apart : groups_state_path e ≡ ok path → ¬ NodeFile dir path
  unfolding groups_state_path
  groups_state_path-apart =
      named_apart e dir (codes "groups.json") path refl (λ r h. ground arith) (λ r h. ground arith)
        at

  pub settings_path-apart : settings_path e ≡ ok path → ¬ NodeFile dir path
  unfolding settings_path
  settings_path-apart =
      named_apart e dir (codes "settings.json") path refl (λ r h. ground arith)
        (λ r h. ground arith) at

  pub contacts_state_path-apart : contacts_state_path e ≡ ok path → ¬ NodeFile dir path
  unfolding contacts_state_path
  contacts_state_path-apart =
      named_apart e dir (codes "contacts.json") path refl (λ r h. ground arith)
        (λ r h. ground arith) at

-- What a start reads of a file that was left alone.
module _ {path : Text} {d d' : Disk} (u : Untouched path d d') where
  pub Groups_load-Untouched :
      (json : Json StoredGroups) → Groups.load json path d' ≡ Groups.load json path d
  unfolding Groups.load Groups.read_stored
  Groups_load-Untouched json =
      let (same, present) = read_to_string-Untouched u in rw (same, present) refl

  pub Contacts_load-Untouched :
      (json : Json ContactsFile) → Contacts.load json path d' ≡ Contacts.load json path d
  unfolding Contacts.load Contacts.read_stored
  Contacts_load-Untouched json =
      let (same, present) = read_to_string-Untouched u in rw (same, present) refl

  pub load_or_default-Untouched :
      (json : Json StoredSettings)
      → Settings.load_or_default json path d' ≡ Settings.load_or_default json path d
  unfolding Settings.load_or_default Settings.load
  load_or_default-Untouched json =
      let (same, present) = read_to_string-Untouched u in rw (same, present) refl
