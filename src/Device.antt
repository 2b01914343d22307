-- ===== src/Device.antt =====
-- crates/shmark-core/src/device.rs: device certificates and the device's own file.
pub mod Certs
pub mod Stored
pub mod Kept
mod Examples
use shmark.Base.{ℕ, Text, codes, ◌++◌, ◌==◌, Option, none, some, Bool, if◌then◌else◌}
use shmark.Errors
use shmark.Errors.{Result, ok, err, panic, message, foreign, serde, ok_or, with_context}
use shmark.Disk.{Disk, exists, read_to_string}
use shmark.Json.{Json}
use shmark.Crypto.{Bytes, Hex, Ed25519, to_array}
use shmark.Action.{Action, Held, pure, lift, ◌>>=◌, ◌>>◌, write_file}
use shmark.Identity
use shmark.Identity.{Identity, set_secret_perms}

pub record DeviceCert : Type 0 where
  pub identity_pubkey_hex : Text
  pub node_pubkey_hex : Text
  pub created_at : ℕ

pub record SignedDeviceCert : Type 0 where
  pub cert : DeviceCert
  pub signature_hex : Text

pub record Device : Type 0 where
  pub iroh_secret : Bytes
  pub cert : SignedDeviceCert

pub record StoredDevice : Type 0 where
  pub iroh_secret_hex : Text
  pub cert : SignedDeviceCert

-- What the functions of this file take from other crates: the codecs, the identity's keys, and
-- `node_public`, the public key of an `iroh::SecretKey`.
pub record Suite : Type 0 where
  pub hex : Hex
  pub dalek : Ed25519
  pub node_public : Bytes → Bytes
  pub cert_json : Json DeviceCert
  pub device_json : Json StoredDevice

module _ (k : Suite) where
  -- `SignedDeviceCert::create`
  unfoldable pub create_cert : ℕ → Identity → Bytes → Result SignedDeviceCert
  create_cert now identity node_pubkey_bytes =
      let cert : DeviceCert = record {
        identity_pubkey_hex = Identity.pubkey_hex k.hex k.dalek identity;
        node_pubkey_hex = k.hex.encode node_pubkey_bytes;
        created_at = now;
      } in
      Errors.◌>>=◌ (ok_or serde (k.cert_json.to_string cert)) (λ payload. ok (record {
        cert = cert;
        signature_hex = k.hex.encode (Identity.sign k.hex k.dalek identity payload);
      }))

  unfoldable pub verify_signature : SignedDeviceCert → Bytes → Bytes → Result (Unit {0})
  verify_signature c id_bytes sig_bytes =
      Errors.◌>>=◌ (ok_or serde (k.cert_json.to_string c.cert)) (λ payload.
        if k.dalek.verify id_bytes payload sig_bytes
        then ok tt
        else with_context (codes "device cert signature invalid") (err foreign))

  -- `SignedDeviceCert::verify`
  unfoldable pub verify : SignedDeviceCert → Result (Unit {0})
  unfolding verify_signature
  verify c =
      Errors.◌>>=◌
        (with_context (codes "decode identity_pubkey_hex")
          (ok_or foreign (k.hex.decode c.cert.identity_pubkey_hex)))
        (λ id.
          Errors.◌>>=◌
            (with_context (codes "identity_pubkey must be 32 bytes")
              (ok_or foreign (to_array 32 id)))
            (λ id_bytes.
              if k.dalek.is_key id_bytes
              then Errors.◌>>=◌
                  (with_context (codes "decode signature_hex")
                    (ok_or foreign (k.hex.decode c.signature_hex)))
                  (λ sig.
                    Errors.◌>>=◌
                      (with_context (codes "signature must be 64 bytes")
                        (ok_or foreign (to_array 64 sig)))
                      (λ sig_bytes. verify_signature c id_bytes sig_bytes))
              else with_context (codes "invalid identity pubkey") (err foreign)))

  unfoldable pub node_pubkey_hex : Device → Text
  node_pubkey_hex dev = k.hex.encode (k.node_public dev.iroh_secret)

  -- `Device::create`; `random` is what `SecretKey::generate` draws.
  unfoldable pub create : Bytes → ℕ → Identity → Result Device
  create random now identity =
      Errors.◌>>=◌ (create_cert now identity (k.node_public random))
        (λ cert. ok (record { iroh_secret = random; cert = cert }))

  unfoldable pub parse : Text → Text → Result Device
  parse path s =
      Errors.◌>>=◌
        (with_context (codes "parse device at " ++ path) (ok_or serde (k.device_json.from_str s)))
        (λ stored.
          Errors.◌>>=◌
            (with_context (codes "decode iroh_secret")
              (ok_or foreign (k.hex.decode stored.iroh_secret_hex)))
            (λ bytes.
              Errors.◌>>=◌
                (with_context (codes "iroh_secret must be 32 bytes")
                  (ok_or foreign (to_array 32 bytes)))
                (λ secret. ok (record { iroh_secret = secret; cert = stored.cert }))))

  unfoldable pub load : Text → Disk → Result Device
  unfolding parse
  load path d =
      Errors.◌>>=◌ (with_context (codes "read device from " ++ path) (read_to_string path d))
        (parse path)

  unfoldable pub save : {C : Type 0} → Device → Text → Action C (Unit {0})
  unfolding set_secret_perms
  save dev path = do
    s ← lift (
        ok_or serde (
          k.device_json.to_string
            (record { iroh_secret_hex = k.hex.encode dev.iroh_secret; cert = dev.cert })))
    write_file path s
    set_secret_perms path

  unfoldable pub checked : Device → Result Device
  checked dev = Errors.◌>>=◌ (verify dev.cert) (λ _. ok dev)

  unfoldable pub load_or_create : {C : Type 0} → Bytes → ℕ → Text → Identity → Action C Device
  unfolding checked
  load_or_create random now path identity s =
      if exists path s.disk
      then (Errors.◌>>=◌ (load path s.disk) checked, s)
      else (do dev ← lift (create random now identity); save dev path; pure dev) s

  -- `replace_cert` of a device: its result, and the device after it
  unfoldable pub replace_cert : SignedDeviceCert → Device → Result (Unit {0}) × Device
  replace_cert cert dev = elim (with_context (codes "verify replacement cert") (verify cert)) [
    | ok _ ↦
        if cert.cert.node_pubkey_hex == node_pubkey_hex dev
        then (ok tt, record dev { cert = cert })
        else (
          err (
              message (
                codes "cert's node_pubkey "
                ++ cert.cert.node_pubkey_hex
                ++ codes " does not match this device's "
                ++ node_pubkey_hex dev)),
          dev,
        )
    | err e ↦ (err e, dev)
    | panic ↦ (panic, dev)
  ]
