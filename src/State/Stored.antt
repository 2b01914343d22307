-- ===== src/State/Stored.antt =====
-- A disk from which a start of the daemon gets its state again.
use shmark.Base.{Text, ◌≡◌, []}
use shmark.Errors.{ok}
use shmark.Disk.{Disk}
use shmark.Action.{Held}
use shmark.Paths
use shmark.Identity.Kept as IdentityKept
use shmark.Device.{Device}
use shmark.Device.Kept as DeviceKept
use shmark.Groups
use shmark.Groups.{Groups}
use shmark.Contacts
use shmark.Contacts.{Contacts}
use shmark.Settings
use shmark.Settings.{Settings}
use shmark.Pairing
use shmark.Dispatch.{AppState}
use shmark.State.{Starter, Moment, load_parts, boot_node, boot}
use shmark.State.Confined.{
  NodeFile, Confined, data_dir_of-ensure_data_dir, groups_state_path-apart, settings_path-apart,
  contacts_state_path-apart, Groups_load-Untouched, Contacts_load-Untouched,
  load_or_default-Untouched,
}

-- What a start needs of the other crates: a data directory, a node that keeps to its own directories,
-- and an author.
pub record Runs (b : Starter) (t : Moment) (dev : Device) (d : Disk) (dir : Text) : Type 0 where
  pub author : Text
  pub ensured : Paths.ensure_data_dir t.create_dir_all b.surroundings ≡ ok dir
  pub booted : (t.node_boot dev.iroh_secret dir d).0 ≡ ok tt
  pub confined : Confined t
  pub authored : t.author_default ≡ ok author

module _ (b : Starter) where
  -- A disk from which a start gives the parts of the state.
  pub record Stores (a : AppState) (d : Disk) : Type 0 where
    pub identity_path : Text
    pub device_path : Text
    pub groups_path : Text
    pub settings_path : Text
    pub contacts_path : Text
    pub identity_at : Paths.identity_path b.surroundings ≡ ok identity_path
    pub device_at : Paths.device_path b.surroundings ≡ ok device_path
    pub groups_at : Paths.groups_state_path b.surroundings ≡ ok groups_path
    pub settings_at : Paths.settings_path b.surroundings ≡ ok settings_path
    pub contacts_at : Paths.contacts_state_path b.surroundings ≡ ok contacts_path
    pub identity : IdentityKept.Kept b.suite.hex b.identity_json identity_path a.identity d
    pub device : DeviceKept.Kept b.suite device_path a.device d
    pub groups : Groups.load b.groups_json groups_path d ≡ ok a.groups
    pub settings : Settings.load_or_default b.settings_json settings_path d ≡ ok a.settings
    pub contacts : Contacts.load b.contacts_json contacts_path d ≡ ok a.contacts

  -- The state after a start: the parts as they are, and nothing pending.
  abbrev pub restarted : Moment → AppState → AppState
  restarted t a = record a { pairing = Pairing.new; started_at = t.started_time; signals = [] }

  -- What the node does to the disk.
  abbrev pub node_disk : Moment → Device → Text → Disk → Disk
  node_disk t dev dir d = (t.node_boot dev.iroh_secret dir d).1

  pub boot_of-Stores :
      {C : Type 0} (t : Moment) (name dir : Text) (a : AppState) (s : Held C)
      → Stores a s.disk
      → Runs b t a.device s.disk dir
      → boot b t name s ≡ (ok (restarted t a), record s { disk = node_disk t a.device dir s.disk })
  unfolding boot boot_node load_parts
  boot_of-Stores t name dir a s h r =
      let at = data_dir_of-ensure_data_dir t.create_dir_all b.surroundings dir r.ensured in
      let left = λ (path : Text) (apart : ¬ NodeFile dir path).
        r.confined a.device.iroh_secret dir path s.disk apart in
      rw (
        r.ensured,
        h.identity_at,
        h.device_at,
        h.groups_at,
        IdentityKept.load_or_create_of-Kept b.suite.hex b.identity_json t.identity_bytes
            t.identity_time h.identity_path name a.identity s h.identity,
        DeviceKept.load_or_create_of-Kept b.suite t.device_bytes t.device_time h.device_path
            a.identity a.device s h.device,
        r.booted,
        r.authored,
        Groups_load-Untouched
            (left h.groups_path
              (groups_state_path-apart b.surroundings dir h.groups_path at h.groups_at))
            b.groups_json,
        h.groups,
        h.settings_at,
        load_or_default-Untouched
            (left h.settings_path
              (settings_path-apart b.surroundings dir h.settings_path at h.settings_at))
            b.settings_json,
        h.settings,
        h.contacts_at,
        Contacts_load-Untouched
            (left h.contacts_path
              (contacts_state_path-apart b.surroundings dir h.contacts_path at h.contacts_at))
            b.contacts_json,
        h.contacts,
      )
