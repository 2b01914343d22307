-- ===== src/Device/Examples.antt =====
-- A certificate that is issued and accepted, and two starts of a device.
use shmark.Base.{Text, codes, ◌≡◌, ◌↔◌, refl, [], ◌∷◌, ◌++◌}
use shmark.Errors.{ok, err, panic}
use shmark.Maps.{lookup, insert}
use shmark.Disk.{write, set_mode}
use shmark.Action.{Held}
use shmark.Identity
use shmark.Identity.{Identity, set_secret_perms}
use shmark.Samples.{suite, me, empty_disk}
use shmark.Device.{
  Device, SignedDeviceCert, create_cert, verify, node_pubkey_hex, replace_cert, create, save,
  load_or_create,
}
use shmark.Device.Certs.{Genuine, verify_exact, replace_cert_exact}

abbrev secret : Text
secret = suite.node_public (codes "node")

abbrev cert : SignedDeviceCert
cert = record {
  cert = record {
    identity_pubkey_hex = suite.dalek.public me.signing_key;
    node_pubkey_hex = secret;
    created_at = 2;
  };
  signature_hex =
      suite.dalek.sign me.signing_key
        ((32 ∷ suite.dalek.public me.signing_key) ++ ((32 ∷ secret) ++ 2 ∷ []));
}

abbrev device : Device
device = record { iroh_secret = secret; cert = cert }

cert_issued : create_cert suite 2 me secret ≡ ok cert
unfolding create_cert Identity.pubkey_hex Identity.sign
cert_issued = refl

verify_exact_example : (verify suite cert ≡ ok tt) ↔ Genuine suite cert
verify_exact_example = verify_exact suite cert

replace_cert_exact_example :
    (((replace_cert suite cert device).0 ≡ ok tt)
      ↔ ((verify suite cert ≡ ok tt) × (cert.cert.node_pubkey_hex ≡ node_pubkey_hex suite device)))
    × ((replace_cert suite cert device).1 ≡ (elim (replace_cert suite cert device).0 [
      | ok _ ↦ record device { cert = cert }
      | err e ↦ device
      | panic ↦ device
    ]))
replace_cert_exact_example = replace_cert_exact suite cert device

abbrev start : Held {0} Unit
start = record { value = tt; disk = empty_disk }

device_made : (load_or_create suite secret 2 (codes "device.json") me start).0 ≡ ok device
unfolding load_or_create create create_cert Identity.pubkey_hex Identity.sign save set_secret_perms
    lookup insert write set_mode
device_made = refl
