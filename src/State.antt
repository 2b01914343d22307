-- ===== src/State.antt =====
-- crates/shmark-core/src/state.rs: how a start of the daemon puts its state together.
pub mod Confined
pub mod Stored
pub mod Restart
pub mod Joined
mod Runs
mod Examples
mod JoinExamples
use shmark.Base.{ℕ, Text, List, []}
use shmark.Errors.{Result}
use shmark.Disk.{Disk}
use shmark.Json.{Json}
use shmark.Crypto.{Bytes}
use shmark.Action.{Action, pure, lift, on_disk, ◌>>=◌, ◌>>◌}
use shmark.Paths
use shmark.Paths.{Surroundings}
use shmark.Identity
use shmark.Identity.{Identity, StoredIdentity}
use shmark.Device
use shmark.Device.{Device, Suite}
use shmark.Groups
use shmark.Groups.{StoredGroups}
use shmark.Contacts
use shmark.Contacts.{ContactsFile}
use shmark.Settings
use shmark.Settings.{StoredSettings}
use shmark.Pairing
use shmark.Dispatch.{AppState}

-- What a start uses of the other crates and of its surroundings.
pub record Starter : Type 0 where
  pub suite : Suite
  pub identity_json : Json StoredIdentity
  pub groups_json : Json StoredGroups
  pub contacts_json : Json ContactsFile
  pub settings_json : Json StoredSettings
  pub surroundings : Surroundings

-- What one start finds in its surroundings: `std::fs::create_dir_all`, `Node::boot` for a secret and a
-- directory, which also opens the node's own stores on the disk, `author_default`, the random bytes for a new identity and a new device, and
-- the times that the three calls of `now_secs` give.
pub record Moment : Type 0 where
  pub create_dir_all : Text → Result (Unit {0})
  pub node_boot : Bytes → Text → Disk → Result (Unit {0}) × Disk
  pub author_default : Result Text
  pub identity_bytes : Bytes
  pub device_bytes : Bytes
  pub identity_time : ℕ
  pub device_time : ℕ
  pub started_time : ℕ

module _ (b : Starter) where
  -- The end of `boot_with_dev`: the parts that the start only reads. Nothing was signalled to the
  -- new state, and no pairing token is pending.
  load_parts : {C : Type 0} → Moment → Text → Identity → Device → Action C AppState
  load_parts t groups_state_path identity device = do
    groups ← (λ s. (Groups.load b.groups_json groups_state_path s.disk, s))
    settings_path ← lift (Paths.settings_path b.surroundings)
    settings ← (λ s. (Settings.load_or_default b.settings_json settings_path s.disk, s))
    contacts_path ← lift (Paths.contacts_state_path b.surroundings)
    contacts ← (λ s. (Contacts.load b.contacts_json contacts_path s.disk, s))
    pure (record {
      identity = identity;
      device = device;
      groups = groups;
      contacts = contacts;
      settings = settings;
      pairing = Pairing.new;
      started_at = t.started_time;
      signals = [];
    })

  -- The middle of it: the keys, and the node that runs with them.
  boot_node : {C : Type 0} → Moment → Text → Text → Text → Text → Text → Action C AppState
  unfolding load_parts
  boot_node t default_display_name data_dir identity_path device_path groups_state_path = do
    identity ←
        Identity.load_or_create b.suite.hex b.identity_json t.identity_bytes t.identity_time
          identity_path default_display_name
    device ← Device.load_or_create b.suite t.device_bytes t.device_time device_path identity
    on_disk (t.node_boot device.iroh_secret data_dir)
    lift t.author_default
    load_parts t groups_state_path identity device

  -- `boot_with_dev`
  pub boot : {C : Type 0} → Moment → Text → Action C AppState
  unfolding boot_node
  boot t default_display_name = do
    data_dir ← lift (Paths.ensure_data_dir t.create_dir_all b.surroundings)
    identity_path ← lift (Paths.identity_path b.surroundings)
    device_path ← lift (Paths.device_path b.surroundings)
    groups_state_path ← lift (Paths.groups_state_path b.surroundings)
    boot_node t default_display_name data_dir identity_path device_path groups_state_path
