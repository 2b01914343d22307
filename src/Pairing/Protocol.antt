-- ===== src/Pairing/Protocol.antt =====
-- The two ends of the pairing exchange of crates/shmark-core/src/pairing.rs.
pub mod Handshake
mod Examples
use shmark.Base.{
  ℕ, ◌*◌, Text, codes, ◌++◌, leb, length, Option, none, some, Bool, true, false, List, [], ◌∷◌,
  if◌then◌else◌,
}
use shmark.Errors
use shmark.Errors.{Error, Result, ok, err, panic, message, foreign, ok_or, with_context}
use shmark.Json.{Json}
use shmark.Disk.{Disk}
use shmark.Crypto.{Bytes, Hex, to_array}
use shmark.Action.{Action, Held, pure, lift, ◌>>=◌, ◌>>◌, this, assign}
use shmark.Identity
use shmark.Identity.{Identity}
use shmark.Device
use shmark.Device.{SignedDeviceCert, Suite}
use shmark.Groups
use shmark.Groups.{LocalGroup, StoredGroups, Groups}
use shmark.Pairing.{PairingHost, validate_and_consume}
use shmark.Pairing.Code
use shmark.Pairing.Code.{PairCode, Base64}

abbrev pub max_msg_bytes : ℕ
max_msg_bytes = 1024 * 64

pub record PairRequest : Type 0 where
  pub token : Text
  pub node_pubkey_hex : Text
  pub display_name : Text

pub record GroupTicket : Type 0 where
  pub local_alias : Text
  pub ticket : Text

pub record PairResponse : Type 0 where
  pub identity_secret_hex : Text
  pub identity_pubkey_hex : Text
  pub identity_display_name : Text
  pub identity_created_at : ℕ
  pub signed_cert : SignedDeviceCert
  pub group_tickets : List GroupTicket

-- What the host uses of `iroh-docs`: `NamespaceId::from_str`, `Docs::open` (is the document there),
-- and `Doc::share` with write access.
pub record Docs : Type 0 where
  pub parse_ns : Text → Option Text
  pub open_doc : Text → Result Bool
  pub share : Text → Result Text

-- `postcard` for the two messages
pub record Messages : Type 0 where
  pub request : Json PairRequest
  pub response : Json PairResponse

-- One incoming connection: the outcome of each call on it.
pub record Connection : Type 0 where
  pub accept_bi : Result (Unit {0})
  pub incoming : Result Bytes
  pub write_all : Result (Unit {0})
  pub finish : Result (Unit {0})

-- `read_to_end` with a limit on the size
abbrev pub read_to_end : Result Bytes → Result Bytes
read_to_end r =
    Errors.◌>>=◌ r (λ bytes. if leb (length bytes) max_msg_bytes then ok bytes else err foreign)

-- The host's state, and the payloads that went out.
pub record Session : Type 0 where
  pub host : PairingHost
  pub sent : List Bytes

-- One round of the loop of `gather_group_tickets`.
unfoldable pub ticket_of : Docs → LocalGroup → Option GroupTicket
ticket_of docs g = elim (docs.parse_ns g.namespace_id) [
  | none ↦ none
  | some ns ↦ elim (docs.open_doc ns) [
    | ok true ↦ elim (docs.share ns) [
      | ok ticket ↦ some (record { local_alias = g.local_alias; ticket = ticket })
      | err e ↦ none
      | panic ↦ none
    ]
    | ok false ↦ none
    | err e ↦ none
    | panic ↦ none
  ]
]

unfoldable pub gather : Docs → List LocalGroup → List GroupTicket
unfolding ticket_of
gather docs [] = []
gather docs (g ∷ gs) = elim (ticket_of docs g) [
  | none ↦ gather docs gs
  | some t ↦ t ∷ gather docs gs
]

unfoldable pub gather_group_tickets : Json StoredGroups → Docs → Text → Disk → List GroupTicket
unfolding gather
gather_group_tickets json docs path d = elim (Groups.load json path d) [
  | ok groups ↦ gather docs (Groups.list groups)
  | err e ↦ []
  | panic ↦ []
]

-- `PairProtocol`
pub record PairProtocol : Type 0 where
  pub suite : Suite
  pub messages : Messages
  pub groups_json : Json StoredGroups
  pub docs : Docs
  pub identity : Identity
  pub groups_state_path : Text

abbrev pub invalid_token : Error
invalid_token = message (codes "invalid or expired pairing token")

unless : Bool → Error → Action Session Unit
unless true e = pure tt
unless false e = lift (err e)

unfoldable pub respond_with : PairProtocol → SignedDeviceCert → List GroupTicket → PairResponse
respond_with p signed_cert group_tickets = record {
  identity_secret_hex = p.suite.hex.encode p.identity.signing_key;
  identity_pubkey_hex = Identity.pubkey_hex p.suite.hex p.suite.dalek p.identity;
  identity_display_name = p.identity.display_name;
  identity_created_at = p.identity.created_at;
  signed_cert = signed_cert;
  group_tickets = group_tickets;
}

-- `self.host.validate_and_consume(&req.token)`
consume : ℕ → Text → Action Session Bool
consume now token s =
    let (good, host) = validate_and_consume token now s.value.host in
    (ok good, record s { value = record s.value { host = host } })

-- `send.write_all(&payload)`: the payload is out if the call succeeds.
send_all : Connection → Bytes → Action Session Unit
send_all conn payload s = elim (with_context (codes "write pair response") conn.write_all) [
  | ok _ ↦ (ok tt, record s { value = record s.value { sent = payload ∷ s.value.sent } })
  | err e ↦ (err e, s)
  | panic ↦ (panic, s)
]

-- The part of `handle` that runs once the token is good.
pub answer : PairProtocol → Connection → ℕ → PairRequest → Action Session Unit
unfolding send_all respond_with
answer p conn now req s =
    (do
      vec ← lift (
          with_context (codes "decode node_pubkey hex")
            (ok_or foreign (p.suite.hex.decode req.node_pubkey_hex)))
      node_bytes ← lift (ok_or (message (codes "node_pubkey must be 32 bytes")) (to_array 32 vec))
      signed_cert ← lift (Device.create_cert p.suite now p.identity node_bytes)
      payload ← lift (
          with_context (codes "encode pair response") (
            ok_or foreign (
              p.messages.response.to_string (
                respond_with p signed_cert
                  (gather_group_tickets p.groups_json p.docs p.groups_state_path s.disk)))))
      send_all conn payload
      lift (with_context (codes "finish pair response stream") conn.finish))
      s

-- `clock` is the monotonic time, `now` the time of day.
pub handle : PairProtocol → Connection → ℕ → ℕ → Action Session Unit
unfolding consume unless answer
handle p conn clock now = do
  lift (with_context (codes "accept_bi") conn.accept_bi)
  bytes ← lift (with_context (codes "read pair request") (read_to_end conn.incoming))
  req ← lift (
      with_context (codes "decode pair request")
        (ok_or foreign (p.messages.request.from_str bytes)))
  good ← consume clock req.token
  unless good invalid_token
  answer p conn now req

-- The network as the joining device sees it: the outcome of each call, and what comes back for an
-- address and a request.
pub record Network : Type 0 where
  pub connect : Bytes → Result (Unit {0})
  pub open_bi : Result (Unit {0})
  pub write_all : Result (Unit {0})
  pub finish : Result (Unit {0})
  pub exchange : Bytes → Bytes → Result Bytes

abbrev then_do {ℓ κ} : {A : Type ℓ} {B : Type κ} → Result A → (A → Result B) → Result B
then_do = Errors.◌>>=◌

module _ (k : Suite) (m : Messages) (postcard : Json PairCode) (base64 : Base64)
    (net : Network) where
  unfoldable pub pair_join : Text → Text → Text → Result PairResponse
  pair_join code node_pubkey_hex display_name = then_do (Code.decode postcard base64 code) λ pc.
      then_do (with_context (codes "dial pair endpoint") (net.connect pc.addr)) λ _.
        then_do (with_context (codes "open_bi") net.open_bi) λ _.
          then_do
            (with_context (codes "encode pair request") (
              ok_or foreign (
                m.request.to_string (record {
                  token = pc.token;
                  node_pubkey_hex = node_pubkey_hex;
                  display_name = display_name;
                }))))
            λ payload. then_do (with_context (codes "write pair request") net.write_all) λ _.
              then_do (with_context (codes "finish pair request stream") net.finish) λ _.
                then_do
                  (with_context (codes "read pair response")
                    (read_to_end (net.exchange pc.addr payload)))
                  λ resp_bytes.
                    then_do
                      (with_context (codes "decode pair response")
                        (ok_or foreign (m.response.from_str resp_bytes)))
                      λ resp.
                        then_do
                          (with_context (codes "verify signed cert")
                            (Device.verify k resp.signed_cert))
                          λ _. ok resp
