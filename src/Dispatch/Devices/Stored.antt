-- ===== src/Dispatch/Devices/Stored.antt =====
-- What `devices_pair_join` writes: the identity file and the device file.
use shmark.Base.{ℕ, Text, ◌≡◌, ◌≢◌, sym, ap, ◌∙◌, subst, false, length, inl, inr, arith}
use shmark.Errors.{ok, Result-cases, ok-injective}
use shmark.Crypto.{Hex}
use shmark.Disk.Frames.{Untouched}
use shmark.Action.{Held, ran_lift}
use shmark.Paths
use shmark.Identity
use shmark.Identity.{Identity}
use shmark.Identity.Kept as IdentityKept
use shmark.Device
use shmark.Device.{Device, SignedDeviceCert, Suite}
use shmark.Device.Certs.{replace_cert_exact}
use shmark.Device.Kept as DeviceKept
use shmark.Dispatch.{AppState}
use shmark.Dispatch.Devices.{Joiner, with_cert, replace_stored_cert, save_identity}

pub size_received :
    (hex : Hex) (secret name : Text) (time : ℕ) (id : Identity)
    → Identity.from_received_secret hex secret name time ≡ ok id
    → length id.signing_key ≡ 32
unfolding Identity.from_received_secret
size_received hex secret name time id h = ground arith

with_cert_lem :
    (k : Suite) (cert : SignedDeviceCert) (dev changed : Device)
    → with_cert k cert dev ≡ ok changed
    → (changed ≡ record dev { cert = cert }) × (Device.verify k cert ≡ ok tt)
unfolding with_cert
with_cert_lem k cert dev changed h =
    let (accepts, after) = replace_cert_exact k cert dev in
    elim (Result-cases (Device.replace_cert k cert dev).0) [
      | inl (u, e) ↦
          let same : (Device.replace_cert k cert dev).1 ≡ changed = ok-injective (rw e at h) in
          (sym same ∙ rw e at after, (accepts.0 e).0)
      | inr (inl (y, e)) ↦ cc (rw e at h)
      | inr (inr e) ↦ cc (rw e at h)
    ]

module _ (j : Joiner) where
  -- What a join needs of this daemon: the index of groups has its file, the disk can be read, and
  -- the device file holds the running device, whose secret has 32 bytes.
  pub record Ready (s : Held AppState) : Type 0 where
    pub groups_at : Paths.groups_state_path j.surroundings ≡ ok s.value.groups.state_path
    pub readable : (path : Text) → s.disk.unreadable path ≡ false
    pub size : length s.value.device.iroh_secret ≡ 32
    pub device_path : Text
    pub device_at : Paths.device_path j.surroundings ≡ ok device_path
    pub stored : Device.load j.suite device_path s.disk ≡ ok s.value.device

  pub saved_identity :
      (id : Identity) (s f : Held AppState)
      → length id.signing_key ≡ 32
      → ((path : Text) → s.disk.unreadable path ≡ false)
      → save_identity j id s ≡ (ok tt, f)
      → (path : Text) × (Paths.identity_path j.surroundings ≡ ok path)
        × IdentityKept.Kept j.suite.hex j.identity_json path id f.disk
        × (f.value ≡ s.value)
        × ((other : Text) → path ≢ other → Untouched other s.disk f.disk)
  unfolding save_identity
  saved_identity id s f size readable h =
      let (path, at, h1) = ran_lift (Paths.identity_path j.surroundings) _ s f tt h in
      let ending = ap (λ p. p.1) h1 in
      (
        path,
        at,
        subst (λ (t : Held AppState). IdentityKept.Kept j.suite.hex j.identity_json path id t.disk)
            ending
            (IdentityKept.save-Kept j.suite.hex j.identity_json id path s size (readable path)
              (ap (λ p. p.0) h1)),
        sym (ap (λ (t : Held AppState). t.value) ending)
            ∙ IdentityKept.value-save j.suite.hex j.identity_json id path s,
        λ other apart.
            subst (λ (t : Held AppState). Untouched other s.disk t.disk) ending
              (IdentityKept.save-Spares j.suite.hex j.identity_json id other path apart s),
      )

  pub replaced_cert :
      (cert : SignedDeviceCert) (dev : Device) (path : Text) (s f : Held AppState)
      → length dev.iroh_secret ≡ 32
      → ((p : Text) → s.disk.unreadable p ≡ false)
      → Paths.device_path j.surroundings ≡ ok path
      → Device.load j.suite path s.disk ≡ ok dev
      → replace_stored_cert j cert s ≡ (ok tt, f)
      → DeviceKept.Kept j.suite path (record dev { cert = cert }) f.disk
        × (f.value ≡ s.value)
        × ((other : Text) → path ≢ other → Untouched other s.disk f.disk)
  unfolding replace_stored_cert
  replaced_cert cert dev path s f size readable at loads h =
      let (changed, adopted, h1) =
        ran_lift (with_cert j.suite cert dev) _ s f tt (rw (at, loads) at h) in
      let (same, good) = with_cert_lem j.suite cert dev changed adopted in
      let new : Device = record dev { cert = cert } in
      let saved : Device.save j.suite new path s ≡ (ok tt, f) =
        subst (λ x. Device.save j.suite x path s ≡ (ok tt, f)) same h1 in
      let ending = ap (λ p. p.1) saved in
      (
        subst (λ (t : Held AppState). DeviceKept.Kept j.suite path new t.disk) ending
            (DeviceKept.save-Kept j.suite new path s size good (readable path)
              (ap (λ p. p.0) saved)),
        sym (ap (λ (t : Held AppState). t.value) ending) ∙ DeviceKept.value-save j.suite new path s,
        λ other apart.
            subst (λ (t : Held AppState). Untouched other s.disk t.disk) ending
              (DeviceKept.save-Spares j.suite new other path apart s),
      )
