-- ===== src/Identity.antt =====
-- crates/shmark-core/src/identity.rs: the human's key pair and its file.
pub mod Stored
pub mod Kept
mod Examples
use shmark.Base.{ℕ, Text, codes, ◌++◌, Option, none, some, Bool, if◌then◌else◌}
use shmark.Errors
use shmark.Errors.{Result, ok, err, foreign, serde, message, ok_or, with_context}
use shmark.Disk
use shmark.Disk.{Disk, exists, read_to_string, set_mode}
use shmark.Json.{Json}
use shmark.Crypto.{Bytes, Hex, Ed25519, to_array}
use shmark.Action.{Action, Held, pure, lift, ◌>>=◌, ◌>>◌, write_file}

pub record Identity : Type 0 where
  pub signing_key : Bytes
  pub display_name : Text
  pub created_at : ℕ

pub record StoredIdentity : Type 0 where
  pub secret_key_hex : Text
  pub display_name : Text
  pub created_at : ℕ

-- 0o600
abbrev pub secret_mode : ℕ
secret_mode = 0o600

unfoldable pub set_secret_perms : {C : Type 0} → Text → Action C (Unit {0})
set_secret_perms path s =
    let (r, d) = set_mode path secret_mode s.disk in (r, record s { disk = d })

module _ (hex : Hex) (dalek : Ed25519) where
  unfoldable pub pubkey_bytes : Identity → Bytes
  pubkey_bytes id = dalek.public id.signing_key

  unfoldable pub pubkey_hex : Identity → Text
  unfolding pubkey_bytes
  pubkey_hex id = hex.encode (pubkey_bytes id)

  unfoldable pub sign : Identity → Bytes → Bytes
  sign id m = dalek.sign id.signing_key m

  unfoldable pub verify : Bytes → Bytes → Bytes → Result (Unit {0})
  verify pubkey m signature =
      if dalek.is_key pubkey
      then if dalek.verify pubkey m signature
        then ok tt
        else with_context (codes "identity signature invalid") (err foreign)
      else with_context (codes "invalid identity pubkey") (err foreign)

-- `SigningKey::generate` draws the bytes `random`.
unfoldable pub create : Bytes → ℕ → Text → Identity
create random now display_name = record {
  signing_key = random;
  display_name = display_name;
  created_at = now;
}

module _ (hex : Hex) where
  unfoldable pub from_received_secret : Text → Text → ℕ → Result Identity
  from_received_secret secret_hex display_name created_at =
      Errors.◌>>=◌
        (with_context (codes "decode received identity secret")
          (ok_or foreign (hex.decode secret_hex)))
        (λ bytes.
          Errors.◌>>=◌
            (with_context (codes "identity secret must be 32 bytes")
              (ok_or foreign (to_array 32 bytes)))
            (λ key.
              ok (record {
                signing_key = key;
                display_name = display_name;
                created_at = created_at;
              })))

  module _ (json : Json StoredIdentity) where
    unfoldable pub parse : Text → Text → Result Identity
    parse path s =
        Errors.◌>>=◌
          (with_context (codes "parse identity at " ++ path) (ok_or serde (json.from_str s)))
          (λ stored.
            Errors.◌>>=◌
              (with_context (codes "decode identity secret_key")
                (ok_or foreign (hex.decode stored.secret_key_hex)))
              (λ bytes.
                Errors.◌>>=◌
                  (with_context (codes "identity secret_key must be 32 bytes")
                    (ok_or foreign (to_array 32 bytes)))
                  (λ key. ok (record {
                    signing_key = key;
                    display_name = stored.display_name;
                    created_at = stored.created_at;
                  }))))

    unfoldable pub load : Text → Disk → Result Identity
    unfolding parse
    load path d =
        Errors.◌>>=◌ (with_context (codes "read identity from " ++ path) (read_to_string path d))
          (parse path)

    -- The state of the action is of no use to it but for the disk.
    unfoldable pub save : {C : Type 0} → Identity → Text → Action C (Unit {0})
    unfolding set_secret_perms
    save id path = do
      s ← lift (
          ok_or serde (
            json.to_string (record {
              secret_key_hex = hex.encode id.signing_key;
              display_name = id.display_name;
              created_at = id.created_at;
            })))
      write_file path s
      set_secret_perms path

    unfoldable pub load_or_create : {C : Type 0} → Bytes → ℕ → Text → Text → Action C Identity
    unfolding load save create
    load_or_create random now path default_display_name s =
        if exists path s.disk
        then (load path s.disk, s)
        else (do
          save (create random now default_display_name) path
          pure (create random now default_display_name))
            s
