-- ===== src/State/Joined.antt =====
-- A start after `devices_pair_join`, and pairing from one daemon's host to the other's restart.
use shmark.Base.{map, ℕ, Text, ◌≡◌, sym, ap, ◌∙◌, subst, length, Option, or_else}
use shmark.Errors.{ok, ok-injective}
use shmark.Json.{Json}
use shmark.Action.{Held, on_disk, ran, ran_lift}
use shmark.Paths
use shmark.Identity
use shmark.Identity.{Identity}
use shmark.Identity.Kept as IdentityKept
use shmark.Device
use shmark.Device.{Device}
use shmark.Device.Kept as DeviceKept
use shmark.Groups
use shmark.Contacts
use shmark.Contacts.{ContactsFile}
use shmark.Settings
use shmark.Settings.{StoredSettings}
use shmark.Pairing.Protocol.{
  Session, PairProtocol, PairResponse, respond_with, gather_group_tickets,
}
use shmark.Pairing.Code.{PairCode}
use shmark.Pairing.Protocol.Handshake.{honest, CanPair, reply, handshake}
use shmark.Dispatch.{AppState}
use shmark.Dispatch.Devices.{Joiner, PairJoined, devices_pair_join}
use shmark.Dispatch.Devices.Stored.{Ready}
use shmark.Dispatch.Devices.Join.{Joined, devices_pair_join_lem}
use shmark.State.{Starter, Moment, load_parts, boot_node, boot}

module _ (b : Starter) {C : Type 0} (t : Moment) where
  keys-load_parts :
      (gp : Text) (id : Identity) (dev : Device) (a : AppState) (s f : Held C)
      → load_parts b t gp id dev s ≡ (ok a, f)
      → (a.identity ≡ id) × (a.device ≡ dev)
  unfolding load_parts
  keys-load_parts gp id dev a s f h =
      let (gs, groups, h1) = ran_lift (Groups.load b.groups_json gp s.disk) _ s f a h in
      let (sp, settings_at, h2) = ran_lift (Paths.settings_path b.surroundings) _ s f a h1 in
      let (st, settings, h3) =
        ran_lift (Settings.load_or_default b.settings_json sp s.disk) _ s f a h2 in
      let (cp, contacts_at, h4) = ran_lift (Paths.contacts_state_path b.surroundings) _ s f a h3 in
      let (ct, contacts, h5) = ran_lift (Contacts.load b.contacts_json cp s.disk) _ s f a h4 in
      let value = sym (ok-injective (ap (λ p. p.0) h5)) in
      (ap (λ (v : AppState). v.identity) value, ap (λ (v : AppState). v.device) value)

  -- The keys of a start on a disk that has them.
  keys-boot_node :
      (name dir ip dp gp : Text) (id : Identity) (dev : Device) (a : AppState) (s f : Held C)
      → IdentityKept.Kept b.suite.hex b.identity_json ip id s.disk
      → DeviceKept.Kept b.suite dp dev s.disk
      → boot_node b t name dir ip dp gp s ≡ (ok a, f)
      → (a.identity ≡ id) × (a.device ≡ dev)
  unfolding boot_node
  keys-boot_node name dir ip dp gp id dev a s f kept_id kept_dev h =
      let made =
        IdentityKept.load_or_create_of-Kept b.suite.hex b.identity_json t.identity_bytes
          t.identity_time ip name id s kept_id in
      let found =
        DeviceKept.load_or_create_of-Kept b.suite t.device_bytes t.device_time dp id dev s
          kept_dev in
      let (u, s3, booted, h1) =
        ran (on_disk (t.node_boot dev.iroh_secret dir)) _ s f a (rw (made, found) at h) in
      let (author, authored, h2) = ran_lift t.author_default _ s3 f a h1 in
      keys-load_parts gp id dev a s3 f h2

  pub keys-boot :
      (name ip dp : Text) (id : Identity) (dev : Device) (a : AppState) (s f : Held C)
      → Paths.identity_path b.surroundings ≡ ok ip
      → Paths.device_path b.surroundings ≡ ok dp
      → IdentityKept.Kept b.suite.hex b.identity_json ip id s.disk
      → DeviceKept.Kept b.suite dp dev s.disk
      → boot b t name s ≡ (ok a, f)
      → (a.identity ≡ id) × (a.device ≡ dev)
  unfolding boot
  keys-boot name ip dp id dev a s f identity_at device_at kept_id kept_dev h =
      let (dir, ensured, h1) =
        ran_lift (Paths.ensure_data_dir t.create_dir_all b.surroundings) _ s f a h in
      let (gp, groups_at, h2) =
        ran_lift (Paths.groups_state_path b.surroundings) _ s f a
          (rw (identity_at, device_at) at h1) in
      keys-boot_node name dir ip dp gp id dev a s f kept_id kept_dev h2

-- The starts of the daemon that joins.
abbrev pub starter : Joiner → Json ContactsFile → Json StoredSettings → Starter
starter j contacts_json settings_json = record {
  suite = j.suite;
  identity_json = j.identity_json;
  groups_json = j.groups_json;
  contacts_json = contacts_json;
  settings_json = settings_json;
  surroundings = j.surroundings;
}

module _ (j : Joiner) (contacts_json : Json ContactsFile)
    (settings_json : Json StoredSettings) where
  pub boot_after_join :
      (code : Text) (name : Option Text) (s f g : Held AppState) (out : PairJoined) (t : Moment)
      (default_name : Text) (a : AppState)
      → (joined : Joined j code name s f out)
      → boot (starter j contacts_json settings_json) t default_name f ≡ (ok a, g)
      → (a.identity ≡ joined.new_identity)
        × (a.device ≡ record s.value.device { cert = joined.resp.signed_cert })
  boot_after_join code name s f g out t default_name a joined h =
      let k = joined.adopted in
      keys-boot (starter j contacts_json settings_json) t default_name k.identity_path k.device_path
        joined.new_identity (record s.value.device { cert = joined.resp.signed_cert }) a f g
        k.identity_at k.device_at k.identity k.device h

-- A joining daemon whose network brings each request to the host `p` in the state `hs`.
abbrev pub over : Joiner → PairProtocol → ℕ → ℕ → Held Session → Joiner
over j p clock now hs = record j {
  suite = p.suite;
  messages = p.messages;
  net = honest p clock now hs;
}

module _ (j : Joiner) (p : PairProtocol) (clock now : ℕ) (hs : Held Session)
    (contacts_json : Json ContactsFile) (settings_json : Json StoredSettings) where
  -- Over an honest network, with a code and a token that are good, messages that fit, and a host
  -- identity of 32 bytes: if the join of a ready daemon succeeds, and the start after it does, then
  -- that start runs with the host's identity and with the old node key, under the certificate that
  -- the host issued, which verifies. The join returned the aliases of the groups that the host gave.
  pub pairing_takes_over :
      (code : Text) (name : Option Text) (pc : PairCode) (s f g : Held AppState) (out : PairJoined)
      (t : Moment) (default_name : Text) (a : AppState)
      (c : CanPair p j.postcard j.base64 clock now hs s.value.device code
        (or_else s.value.identity.display_name name)
        pc)
      → length p.identity.signing_key ≡ 32
      → Ready (over j p clock now hs) s
      → devices_pair_join (over j p clock now hs) code name s ≡ (ok out, f)
      → boot (starter (over j p clock now hs) contacts_json settings_json) t default_name f
        ≡ (ok a, g)
      → (a.identity ≡ p.identity)
        × (a.device ≡ record s.value.device { cert = c.cert })
        × (Device.verify p.suite c.cert ≡ ok tt)
        × (out.imported_groups
            ≡ map
                (λ gt. gt.local_alias)
                (gather_group_tickets p.groups_json p.docs p.groups_state_path hs.disk))
  unfolding respond_with
  pairing_takes_over code name pc s f g out t default_name a c size r done started =
      let over_net : Joiner = over j p clock now hs in
      let joined = devices_pair_join_lem over_net code name s f out r done in
      let shake =
        handshake p j.postcard j.base64 clock now hs s.value.device code
          (or_else s.value.identity.display_name name) pc c size in
      let answer : PairResponse =
        reply p j.postcard j.base64 clock now hs s.value.device code
          (or_else s.value.identity.display_name name) pc c in
      let same : answer ≡ joined.resp = ok-injective (sym shake.0 ∙ joined.answered) in
      let host : joined.new_identity ≡ p.identity = ok-injective (
        sym joined.received
        ∙ subst
            (λ (x : PairResponse).
              Identity.from_received_secret p.suite.hex x.identity_secret_hex
                x.identity_display_name x.identity_created_at
              ≡ ok p.identity)
            same shake.1) in
      let cert : joined.resp.signed_cert ≡ c.cert =
        ap (λ (x : PairResponse). x.signed_cert) (sym same) in
      let (identity, device) =
        boot_after_join over_net contacts_json settings_json code name s f g out t default_name a
          joined started in
      (
        identity ∙ host,
        device ∙ (λ i. record s.value.device { cert = cert i }),
        subst (λ x. Device.verify p.suite x ≡ ok tt) cert joined.adopted.device.verifies,
        joined.adopted.imported
            ∙ ap (λ (x : PairResponse). map (λ gt. gt.local_alias) x.group_tickets) (sym same),
      )
