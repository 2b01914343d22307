-- ===== src/Dispatch/Devices.antt =====
-- The methods of crates/shmark-api/src/dispatch.rs on this device: `identity_show`, `daemon_status`,
-- `devices_list`, `devices_pair_create` and `devices_pair_join`.
pub mod Import
pub mod Stored
pub mod Adopting
pub mod Join
pub mod Offer
mod Examples
use shmark.Base.{
  ℕ, ◌+◌, ◌-◌, ◌/◌, ◌^◌, Text, codes, ◌++◌, Option, none, some, Bool, false, List, [], ◌∷◌, ◌⊎◌,
  inl, inr, or_else,
}
use shmark.Errors
use shmark.Errors.{Result, ok, err, message}
use shmark.Json.{Json}
use shmark.Action.{Action, Held, pure, lift, ◌>>=◌, ◌>>◌, this}
use shmark.Crypto.{Bytes}
use shmark.Paths
use shmark.Paths.{Surroundings}
use shmark.Identity
use shmark.Identity.{Identity, StoredIdentity}
use shmark.Device
use shmark.Device.{Device, SignedDeviceCert, Suite}
use shmark.Groups
use shmark.Groups.{LocalGroup, StoredGroups, make_local_group}
use shmark.Pairing.{token_ttl, mint_token}
use shmark.Pairing.Code
use shmark.Pairing.Code.{PairCode, Base64}
use shmark.Pairing.Protocol.{GroupTicket, PairResponse, Messages, Network, pair_join}
use shmark.Resolve.{trim}
use shmark.Dispatch.{AppState, reload_requested, signal, in_groups}

-- What the methods return, with the keys of their JSON objects as fields.
pub record DeviceShown : Type 0 where
  pub node_pubkey : Text
  pub endpoint_id : Text
  pub cert_created_at : ℕ

pub record IdentityShown : Type 0 where
  pub identity_pubkey : Text
  pub display_name : Text
  pub created_at : ℕ
  pub device : DeviceShown

pub record DaemonStatus : Type 0 where
  pub pid : ℕ
  pub started_at : ℕ
  pub uptime_secs : ℕ

pub record DeviceListed : Type 0 where
  pub node_pubkey : Text
  pub identity_pubkey : Text
  pub cert_created_at : ℕ

pub record PairOffer : Type 0 where
  pub code : Text
  pub expires_in_secs : ℕ

pub record PairJoined : Type 0 where
  pub identity_pubkey : Text
  pub imported_groups : List Text

-- `saturating_sub` is the subtraction of ℕ.
pub daemon_status : ℕ → ℕ → AppState → DaemonStatus
daemon_status pid now s = record {
  pid = pid;
  started_at = s.started_at;
  uptime_secs = now - s.started_at;
}

module _ (k : Suite) where
  -- `endpoint_id` is the id of the endpoint, as `iroh` prints it.
  pub identity_show : Text → AppState → IdentityShown
  identity_show endpoint_id s = record {
    identity_pubkey = Identity.pubkey_hex k.hex k.dalek s.identity;
    display_name = s.identity.display_name;
    created_at = s.identity.created_at;
    device = record {
      node_pubkey = Device.node_pubkey_hex k s.device;
      endpoint_id = endpoint_id;
      cert_created_at = s.device.cert.cert.created_at;
    };
  }

  pub devices_list : AppState → List DeviceListed
  devices_list s =
      record {
        node_pubkey = Device.node_pubkey_hex k s.device;
        identity_pubkey = Identity.pubkey_hex k.hex k.dalek s.identity;
        cert_created_at = s.device.cert.cert.created_at;
      }
      ∷ []

  unfoldable pub mint : Bytes → ℕ → Action AppState Text
  mint random clock s =
      let (token, host) = mint_token k.hex random clock s.value.pairing in
      (ok token, record s { value = record s.value { pairing = host } })

  module _ (postcard : Json PairCode) (base64 : Base64) where
    -- `addr` is the address of the endpoint once it is online.
    unfoldable pub devices_pair_create : Bytes → ℕ → Bytes → Action AppState PairOffer
    unfolding mint
    devices_pair_create random clock addr = do
      token ← mint random clock
      code ← lift (Code.encode postcard base64 (record { addr = addr; token = token }))
      pure (record { code = code; expires_in_secs = token_ttl / 10 ^ 9 })

-- What `devices_pair_join` uses of the other crates and of its surroundings. `parse_ticket` is
-- `DocTicket::from_str`, with the text of its error on the left; `import` is `Docs::import`, which
-- gives the namespace; `now` is the time in each round of the loop.
pub record Joiner : Type 0 where
  pub suite : Suite
  pub messages : Messages
  pub postcard : Json PairCode
  pub base64 : Base64
  pub net : Network
  pub surroundings : Surroundings
  pub identity_json : Json StoredIdentity
  pub groups_json : Json StoredGroups
  pub parse_ticket : Text → Text ⊎ Text
  pub import : Text → Result Text
  pub now : ℕ → ℕ

unfoldable pub ticket_parsed : Text → Text ⊎ Text → Result Text
ticket_parsed alias (inl e) =
    err (message (((codes "invalid ticket for " ++ alias) ++ codes ": ") ++ e))
ticket_parsed alias (inr ticket) = ok ticket

-- `replace_cert` of the copy of the device
unfoldable pub with_cert : Suite → SignedDeviceCert → Device → Result Device
with_cert k cert dev =
    let (r, changed) = Device.replace_cert k cert dev in Errors.◌>>=◌ r λ _. ok changed

module _ (j : Joiner) where
  -- One round of the loop over the tickets.
  unfoldable pub import_ticket : ℕ → GroupTicket → Action AppState Text
  unfolding ticket_parsed
  import_ticket round gt = do
    ticket ← lift (ticket_parsed gt.local_alias (j.parse_ticket (trim gt.ticket)))
    ns_id ← lift (j.import ticket)
    in_groups
        (Groups.upsert j.groups_json (make_local_group (j.now round) ns_id gt.local_alias false))
    pure gt.local_alias

  unfoldable pub import_tickets : ℕ → List GroupTicket → Action AppState (List Text)
  unfolding import_ticket
  import_tickets round [] = pure []
  import_tickets round (gt ∷ gts) = do
    alias ← import_ticket round gt
    rest ← import_tickets (round + 1) gts
    pure (alias ∷ rest)

  -- The new certificate, on the device as the disk has it.
  unfoldable pub replace_stored_cert : SignedDeviceCert → Action AppState Unit
  unfolding with_cert
  replace_stored_cert cert = do
    path ← lift (Paths.device_path j.surroundings)
    device ← (λ s. (Device.load j.suite path s.disk, s))
    changed ← lift (with_cert j.suite cert device)
    Device.save j.suite changed path

  unfoldable pub save_identity : Identity → Action AppState Unit
  save_identity new_identity = do
    path ← lift (Paths.identity_path j.surroundings)
    Identity.save j.suite.hex j.identity_json new_identity path

  -- What follows the answer of the other device.
  unfoldable pub adopt : PairResponse → Identity → Action AppState PairJoined
  unfolding save_identity replace_stored_cert import_tickets signal
  adopt resp new_identity = do
    save_identity new_identity
    replace_stored_cert resp.signed_cert
    imported ← import_tickets 0 resp.group_tickets
    signal reload_requested
    pure (record { identity_pubkey = resp.identity_pubkey_hex; imported_groups = imported })

  unfoldable pub devices_pair_join : Text → Option Text → Action AppState PairJoined
  unfolding adopt
  devices_pair_join code display_name = do
    self ← this
    resp ← lift (
        pair_join j.suite j.messages j.postcard j.base64 j.net code
          (Device.node_pubkey_hex j.suite self.device)
          (or_else self.identity.display_name display_name))
    new_identity ← lift (
        Identity.from_received_secret j.suite.hex resp.identity_secret_hex
          resp.identity_display_name resp.identity_created_at)
    adopt resp new_identity
