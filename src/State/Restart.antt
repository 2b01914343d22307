-- ===== src/State/Restart.antt =====
-- What a second start makes of the disk that a first one left.
use shmark.Base.{Text, ◌≡◌, refl, ap, ◌∙◌, sym, length, false, subst, []}
use shmark.Errors.{ok, ok-injective}
use shmark.Disk.{Disk}
use shmark.Disk.Frames.{Untouched}
use shmark.Action.{Held, pure, on_disk, ran, ran_lift}
use shmark.Paths
use shmark.Paths.Names.{device_path-ne-identity_path}
use shmark.Identity
use shmark.Identity.{Identity}
use shmark.Identity.Kept as IdentityKept
use shmark.Device
use shmark.Device.{Device}
use shmark.Device.Kept as DeviceKept
use shmark.Groups
use shmark.Groups.{Groups}
use shmark.Contacts
use shmark.Contacts.{Contacts}
use shmark.Settings
use shmark.Settings.{Settings}
use shmark.Pairing
use shmark.Dispatch.{AppState}
use shmark.State.{Starter, Moment, load_parts, boot_node, boot}
use shmark.State.Confined.{
  NodeFile, Confined, data_dir_of-ensure_data_dir, identity_path-apart, device_path-apart,
}
use shmark.State.Stored.{Runs, Stores, restarted, boot_of-Stores}

module _ (b : Starter) where
  -- What a start needs of its disk, of the random generator and of the node: it can read its two secret
  -- files, it draws 32 bytes for each key, and the node keeps to its own directories.
  pub record CanRead (t : Moment) (d : Disk) : Type 0 where
    pub identity_size : length t.identity_bytes ≡ 32
    pub device_size : length t.device_bytes ≡ 32
    pub readable : (path : Text) → d.unreadable path ≡ false
    pub confined : Confined t

  built-Stores :
      {C : Type 0} (t : Moment) (x a : AppState) (mid f : Held C)
      → Stores b x mid.disk
      → restarted b t x ≡ x
      → pure x mid ≡ (ok a, f)
      → Stores b a f.disk × (restarted b t a ≡ a)
  built-Stores {C} t x a mid f h e same =
      let value : x ≡ a = ok-injective (ap (λ p. p.0) same) in
      let ending : mid ≡ f = ap (λ p. p.1) same in
      (
        subst (λ (r : Held C). Stores b a r.disk) ending (subst (λ y. Stores b y mid.disk) value h),
        subst (λ y. restarted b t y ≡ y) value e,
      )

  -- The files of a start, and the keys that it found or made.
  record Keys (ip dp gp : Text) (id : Identity) (dev : Device) (d : Disk) : Type 0 where
    identity_at : Paths.identity_path b.surroundings ≡ ok ip
    device_at : Paths.device_path b.surroundings ≡ ok dp
    groups_at : Paths.groups_state_path b.surroundings ≡ ok gp
    identity : IdentityKept.Kept b.suite.hex b.identity_json ip id d
    device : DeviceKept.Kept b.suite dp dev d

  Keys-Untouched :
      {ip dp gp : Text} {id : Identity} {dev : Device} {d d' : Disk}
      → Untouched ip d d'
      → Untouched dp d d'
      → Keys ip dp gp id dev d
      → Keys ip dp gp id dev d'
  Keys-Untouched u v keys = record {
    identity_at = keys.identity_at;
    device_at = keys.device_at;
    groups_at = keys.groups_at;
    identity = IdentityKept.Kept-Untouched b.suite.hex b.identity_json u keys.identity;
    device = DeviceKept.Kept-Untouched b.suite v keys.device;
  }

  -- The node leaves the keys alone.
  node-Keys :
      {C : Type 0} (t : Moment) (dir ip dp gp : Text) (id : Identity) (dev : Device) (s s' : Held C)
      → Confined t
      → Paths.data_dir b.surroundings ≡ ok dir
      → on_disk (t.node_boot dev.iroh_secret dir) s ≡ (ok tt, s')
      → Keys ip dp gp id dev s.disk
      → Keys ip dp gp id dev s'.disk
  node-Keys {C} t dir ip dp gp id dev s s' confined at booted keys =
      let left = λ (path : Text) (apart : ¬ NodeFile dir path).
        subst (λ (r : Held C). Untouched path s.disk r.disk) (ap (λ p. p.1) booted)
          (confined dev.iroh_secret dir path s.disk apart) in
      Keys-Untouched (left ip (identity_path-apart b.surroundings dir ip at keys.identity_at))
        (left dp (device_path-apart b.surroundings dir dp at keys.device_at)) keys

  load_parts-Stores :
      {C : Type 0} (t : Moment) (ip dp gp : Text) (id : Identity) (dev : Device) (a : AppState)
      (s f : Held C)
      → Keys ip dp gp id dev s.disk
      → load_parts b t gp id dev s ≡ (ok a, f)
      → Stores b a f.disk × (restarted b t a ≡ a)
  unfolding load_parts
  load_parts-Stores t ip dp gp id dev a s f keys h =
      let (gs, groups, h1) = ran_lift (Groups.load b.groups_json gp s.disk) _ s f a h in
      let (sp, settings_at, h2) = ran_lift (Paths.settings_path b.surroundings) _ s f a h1 in
      let (st, settings, h3) =
        ran_lift (Settings.load_or_default b.settings_json sp s.disk) _ s f a h2 in
      let (cp, contacts_at, h4) = ran_lift (Paths.contacts_state_path b.surroundings) _ s f a h3 in
      let (ct, contacts, h5) = ran_lift (Contacts.load b.contacts_json cp s.disk) _ s f a h4 in
      let x : AppState = record {
        identity = id;
        device = dev;
        groups = gs;
        contacts = ct;
        settings = st;
        pairing = Pairing.new;
        started_at = t.started_time;
        signals = [];
      } in
      built-Stores t x a s f
        (record {
          identity_path = ip;
          device_path = dp;
          groups_path = gp;
          settings_path = sp;
          contacts_path = cp;
          identity_at = keys.identity_at;
          device_at = keys.device_at;
          groups_at = keys.groups_at;
          settings_at = settings_at;
          contacts_at = contacts_at;
          identity = keys.identity;
          device = keys.device;
          groups = groups;
          settings = settings;
          contacts = contacts;
        })
        refl h5

  -- The keys that a start found or made are on the disk that it leaves.
  made-Keys :
      {C : Type 0} (t : Moment) (name ip dp gp : Text) (id : Identity) (dev : Device)
      (s s1 s2 : Held C)
      → CanRead t s.disk
      → Paths.identity_path b.surroundings ≡ ok ip
      → Paths.device_path b.surroundings ≡ ok dp
      → Paths.groups_state_path b.surroundings ≡ ok gp
      → Identity.load_or_create b.suite.hex b.identity_json t.identity_bytes t.identity_time ip name
          s
        ≡ (ok id, s1)
      → Device.load_or_create b.suite t.device_bytes t.device_time dp id s1 ≡ (ok dev, s2)
      → Keys ip dp gp id dev s2.disk
  made-Keys {C} t name ip dp gp id dev s s1 s2 c identity_at device_at groups_at made_id made_dev =
      let apart = device_path-ne-identity_path b.surroundings dp ip device_at identity_at in
      let first : IdentityKept.Kept b.suite.hex b.identity_json ip id s1.disk =
        subst (λ (r : Held C). IdentityKept.Kept b.suite.hex b.identity_json ip id r.disk)
          (ap (λ p. p.1) made_id)
          (IdentityKept.load_or_create-Kept b.suite.hex b.identity_json t.identity_bytes
            t.identity_time ip name s id c.identity_size (c.readable ip) (ap (λ p. p.0) made_id)) in
      let same : Untouched dp s.disk s1.disk =
        subst (λ (r : Held C). Untouched dp s.disk r.disk) (ap (λ p. p.1) made_id)
          (IdentityKept.load_or_create-Spares b.suite.hex b.identity_json t.identity_bytes
            t.identity_time dp ip name (λ e. apart (sym e)) s) in
      let after : Untouched ip s1.disk s2.disk =
        subst (λ (r : Held C). Untouched ip s1.disk r.disk) (ap (λ p. p.1) made_dev)
          (DeviceKept.load_or_create-Spares b.suite t.device_bytes t.device_time ip dp id apart
            s1) in
      record {
        identity_at = identity_at;
        device_at = device_at;
        groups_at = groups_at;
        identity = IdentityKept.Kept-Untouched b.suite.hex b.identity_json after first;
        device =
            subst (λ (r : Held C). DeviceKept.Kept b.suite dp dev r.disk) (ap (λ p. p.1) made_dev)
              (DeviceKept.load_or_create-Kept b.suite t.device_bytes t.device_time dp id s1 dev
                c.device_size (rw same.readable (c.readable dp)) (ap (λ p. p.0) made_dev));
      }

  boot_node-Stores :
      {C : Type 0} (t : Moment) (name dir ip dp gp : Text) (a : AppState) (s f : Held C)
      → CanRead t s.disk
      → Paths.data_dir b.surroundings ≡ ok dir
      → Paths.identity_path b.surroundings ≡ ok ip
      → Paths.device_path b.surroundings ≡ ok dp
      → Paths.groups_state_path b.surroundings ≡ ok gp
      → boot_node b t name dir ip dp gp s ≡ (ok a, f)
      → Stores b a f.disk × (restarted b t a ≡ a)
  unfolding boot_node
  boot_node-Stores t name dir ip dp gp a s f c at identity_at device_at groups_at h =
      let (id, s1, made_id, h1) =
        ran
          (Identity.load_or_create b.suite.hex b.identity_json t.identity_bytes t.identity_time ip
            name)
          _ s f a h in
      let (dev, s2, made_dev, h2) =
        ran (Device.load_or_create b.suite t.device_bytes t.device_time dp id) _ s1 f a h1 in
      let (u, s3, booted, h3) = ran (on_disk (t.node_boot dev.iroh_secret dir)) _ s2 f a h2 in
      let (author, authored, h4) = ran_lift t.author_default _ s3 f a h3 in
      load_parts-Stores t ip dp gp id dev a s3 f
        (node-Keys t dir ip dp gp id dev s2 s3 c.confined at booted (
          made-Keys t name ip dp gp id dev s s1 s2 c identity_at device_at groups_at made_id
            made_dev))
        h4

  pub boot-Stores :
      {C : Type 0} (t : Moment) (name : Text) (a : AppState) (s f : Held C)
      → CanRead t s.disk
      → boot b t name s ≡ (ok a, f)
      → Stores b a f.disk × (restarted b t a ≡ a)
  unfolding boot
  boot-Stores t name a s f c h =
      let (dir, ensured, h1) =
        ran_lift (Paths.ensure_data_dir t.create_dir_all b.surroundings) _ s f a h in
      let (ip, identity_at, h2) = ran_lift (Paths.identity_path b.surroundings) _ s f a h1 in
      let (dp, device_at, h3) = ran_lift (Paths.device_path b.surroundings) _ s f a h2 in
      let (gp, groups_at, h4) = ran_lift (Paths.groups_state_path b.surroundings) _ s f a h3 in
      boot_node-Stores t name dir ip dp gp a s f c
        (data_dir_of-ensure_data_dir t.create_dir_all b.surroundings dir ensured) identity_at
        device_at groups_at h4

  -- If a start succeeds that can read its disk and draws 32 bytes for each key, then every later
  -- start on the disk it leaves, for which directory, node and author succeed, succeeds with the
  -- same identity, device, groups, contacts and settings, whatever bytes, times and name it gets. It
  -- writes nothing to the disk itself: the disk is as the node leaves it, and unchanged outside the
  -- node's directories. In both starts the node may change only the files below them.
  pub boot_stable :
      {C : Type 0} (t : Moment) (name : Text) (a : AppState) (s f : Held C)
      → CanRead t s.disk
      → boot b t name s ≡ (ok a, f)
      → (t' : Moment) (name' dir : Text) → Runs b t' a.device f.disk dir
      → let after = (t'.node_boot a.device.iroh_secret dir f.disk).1 in
        (boot b t' name' f
          ≡ (ok (record a { started_at = t'.started_time }), record f { disk = after }))
        × ((path : Text) → ¬ NodeFile dir path → Untouched path f.disk after)
  boot_stable t name a s f c h t' name' dir r =
      let (stores, same) = boot-Stores t name a s f c h in
      let after : Disk = (t'.node_boot a.device.iroh_secret dir f.disk).1 in
      (
        boot_of-Stores b t' name' dir a f stores r ∙ (λ i.
            (ok (record (same i) { started_at = t'.started_time }), record f { disk = after })),
        λ path apart. r.confined a.device.iroh_secret dir path f.disk apart,
      )
