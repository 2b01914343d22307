-- ===== src/Device/Stored.antt =====
-- The device's file across restarts.
use shmark.Base.{
  ℕ, Text, ◌≡◌, ap, sym, subst, some, false, length, Option-cases, Bool-cases, inl, inr,
}
use shmark.Errors.{ok, Result-cases, err-ne-ok, ok-injective}
use shmark.Maps.{lookup}
use shmark.Disk
use shmark.Disk.{Disk}
use shmark.Disk.Laws.{read_file}
use shmark.Crypto.{Bytes}
use shmark.Action.{Held, Action, done_then_pure, state_then_pure, value_then_pure}
use shmark.Identity.{Identity, secret_mode}
use shmark.Identity.Stored.{write_secret-done}
use shmark.Device.{
  Device, Suite, create, create_cert, parse, load, save, checked, load_or_create, verify,
}
use shmark.Device.Certs.{verify-create_cert}

-- What the file of a saved device holds.
pub record Holds (k : Suite) (dev : Device) (path : Text) (d : Disk) : Type 0 where
  pub text : Text
  pub encoded :
      k.device_json.to_string
        (record { iroh_secret_hex = k.hex.encode dev.iroh_secret; cert = dev.cert })
      ≡ some text
  pub file : lookup path d.files ≡ some text
  pub mode : lookup path d.modes ≡ some secret_mode
  pub readable : d.unreadable path ≡ false

module _ (k : Suite) where
  pub save-Holds :
      {C : Type 0} (dev : Device) (path : Text) (s : Held C)
      → s.disk.unreadable path ≡ false
      → (save k dev path s).0 ≡ ok tt
      → Holds k dev path (save k dev path s).1.disk
  unfolding save
  save-Holds dev path s readable done =
      elim (Option-cases (
        k.device_json.to_string
          (record { iroh_secret_hex = k.hex.encode dev.iroh_secret; cert = dev.cert }))) [
            | inl failed ↦ absurd (err-ne-ok (rw failed at done))
            | inr (text, encoded) ↦
                let (file, mode, same) = write_secret-done path text s (rw encoded at done) in
                rw encoded (record {
                  text = text;
                  encoded = encoded;
                  file = file;
                  mode = mode;
                  readable = rw same readable;
                })
          ]

  pub load_of-Holds :
      (dev : Device) (path : Text) (d : Disk)
      → length dev.iroh_secret ≡ 32
      → Holds k dev path d
      → load k path d ≡ ok dev
  unfolding load parse
  load_of-Holds dev path d size h =
      let (there, same) = read_file path h.text d h.file h.readable in
      rw (
        same,
        k.device_json.from_str-to_string _ h.text h.encoded,
        k.hex.decode-encode dev.iroh_secret,
        size,
      )

  pub created-verifies :
      (random : Bytes) (now : ℕ) (identity : Identity) (dev : Device)
      → create k random now identity ≡ ok dev
      → (verify k dev.cert ≡ ok tt) × (dev.iroh_secret ≡ random)
  unfolding create
  created-verifies random now identity dev h =
      elim (Result-cases (create_cert k now identity (k.node_public random))) [
        | inl (c, issued) ↦
            let same : record { iroh_secret = random; cert = c } ≡ dev =
              ok-injective (rw issued at h) in
            (
              subst (λ (x : Device). verify k x.cert ≡ ok tt) same
                  (verify-create_cert k now identity (k.node_public random) c issued).0,
              ap (λ (x : Device). x.iroh_secret) (sym same),
            )
        | inr (inl (e, failed)) ↦ cc (rw failed at h)
        | inr (inr failed) ↦ cc (rw failed at h)
      ]

  -- If a start succeeds, on a disk where the device file can be read and with 32 random bytes, then
  -- every later start on the disk it leaves accepts and returns the same device and changes nothing,
  -- whatever identity it passes.
  pub load_or_create_device_stable :
      {C : Type 0} (random : Bytes) (now : ℕ) (path : Text) (identity : Identity) (s : Held C)
      (dev : Device)
      → length random ≡ 32
      → s.disk.unreadable path ≡ false
      → (load_or_create k random now path identity s).0 ≡ ok dev
      → (random' : Bytes) (now' : ℕ) (identity' : Identity)
      → load_or_create k random' now' path identity' (load_or_create k random now path identity s).1
        ≡ (ok dev, (load_or_create k random now path identity s).1)
  unfolding load_or_create checked
  load_or_create_device_stable {C} random now path identity s dev size readable done random' now'
        identity' =
      elim (Bool-cases (Disk.exists path s.disk)) [
        | inl there ↦ rw (there, there) (λ i. ((rw there at done) i, s))
        | inr missing ↦ elim (Result-cases (create k random now identity)) [
          | inl (fresh, made) ↦
              let m : Action C (Unit {0}) = save k fresh path in
              let (_, saved) = done_then_pure m fresh s (rw (missing, made) at done) in
              let same : fresh ≡ dev = value_then_pure m fresh s (rw (missing, made) at done) in
              let (verifies, secret) = created-verifies random now identity fresh made in
              let holds = save-Holds fresh path s readable saved in
              let (there, _) = read_file path holds.text (m s).1.disk holds.file holds.readable in
              let loaded = load_of-Holds fresh path (m s).1.disk (rw secret size) holds in
              rw (missing, made)
                (rw (state_then_pure m fresh s)
                  (rw (there, loaded, verifies) (λ i. (ok (same i), (m s).1))))
          | inr (inl (e, failed)) ↦ cc (rw (missing, failed) at done)
          | inr (inr failed) ↦ cc (rw (missing, failed) at done)
        ]
      ]
