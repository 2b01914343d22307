-- ===== src/Pairing/Protocol/Examples.antt =====
-- A pairing from end to end.
use shmark.Base.{
  ℕ, ◌==◌, none, ◌-◌, ◌*◌, ◌^◌, ◌<◌, if◌then◌else◌, ◌≤◌, Text, codes, ◌≡◌, ◌⊎◌, refl, length, some,
  none, true, false, [], ◌∷◌, ◌++◌, leb→le,
}
use shmark.Errors.{ok}
use shmark.Maps.{lookup}
use shmark.Action.{Held}
use shmark.Identity
use shmark.Identity.{Identity}
use shmark.Device
use shmark.Device.{Device, SignedDeviceCert, create_cert}
use shmark.Groups
use shmark.Samples.{
  plain_hex, plain_base64, suite, messages, groups_json, code_postcard, me, empty_disk,
}
use shmark.Pairing.{fresh, validate, validate_and_consume}
use shmark.Pairing.Code
use shmark.Pairing.Code.{PairCode, decode-encode}
use shmark.Pairing.Protocol.{
  PairRequest, PairResponse, Docs, Session, PairProtocol, handle, respond_with,
  gather_group_tickets, gather, pair_join,
}
use shmark.Pairing.Protocol.Handshake.{
  Delivers, handle_consumes, clean, honest, CanPair, reply, handshake,
}

abbrev token : Text
token = codes "token"

abbrev pair_code : PairCode
pair_code = record { addr = codes "addr"; token = token }

abbrev written_code : Text
written_code = codes "shpair-" ++ ((4 ∷ codes "addr") ++ (5 ∷ token))

abbrev no_docs : Docs
no_docs = record { parse_ns = λ t. none; open_doc = λ t. ok false; share = λ t. ok t }

abbrev protocol : PairProtocol
protocol = record {
  suite = suite;
  messages = messages;
  groups_json = groups_json;
  docs = no_docs;
  identity = me;
  groups_state_path = codes "groups.json";
}

abbrev session : Held Session
session = record {
  value = record { host = record { pending = (token, 3) ∷ [] }; sent = [] };
  disk = empty_disk;
}

abbrev joining : Device
joining = record {
  iroh_secret = suite.node_public (codes "node");
  cert = record {
    cert = record { identity_pubkey_hex = []; node_pubkey_hex = []; created_at = 0 };
    signature_hex = [];
  };
}

abbrev cert : SignedDeviceCert
cert = record {
  cert = record {
    identity_pubkey_hex = suite.dalek.public me.signing_key;
    node_pubkey_hex = suite.node_public joining.iroh_secret;
    created_at = 7;
  };
  signature_hex = suite.dalek.sign me.signing_key (
      (32 ∷ suite.dalek.public me.signing_key)
      ++ ((32 ∷ suite.node_public joining.iroh_secret) ++ 7 ∷ []));
}

abbrev question : Text
question = (5 ∷ token) ++ ((32 ∷ suite.node_public joining.iroh_secret) ++ (3 ∷ codes "new"))

no_tickets : gather_group_tickets groups_json no_docs (codes "groups.json") empty_disk ≡ []
unfolding gather_group_tickets gather Groups.load Groups.list lookup
no_tickets = refl

abbrev answer_of : PairResponse
answer_of =
    respond_with protocol cert
      (gather_group_tickets groups_json no_docs (codes "groups.json") empty_disk)

abbrev payload_of : PairResponse → Text
payload_of r = elim (messages.response.to_string r) [ none ↦ [] | some t ↦ t ]

short_answer : length (payload_of answer_of) ≤ 65536
unfolding respond_with Identity.pubkey_hex Identity.pubkey_bytes
short_answer = rw no_tickets (leb→le _ 65536 refl)

code_written : Code.encode code_postcard plain_base64 pair_code ≡ ok written_code
unfolding Code.encode
code_written = refl

asked :
    messages.request.to_string (record {
      token = token;
      node_pubkey_hex = Device.node_pubkey_hex suite joining;
      display_name = codes "new";
    })
    ≡ some question
unfolding Device.node_pubkey_hex
asked = refl

good : (validate_and_consume token 5 session.value.host).0 ≡ true
unfolding validate_and_consume validate fresh lookup
good = refl

issued : create_cert suite 7 me (suite.node_public joining.iroh_secret) ≡ ok cert
unfolding create_cert Identity.pubkey_hex Identity.pubkey_bytes Identity.sign
issued = refl

can_pair :
    CanPair protocol code_postcard plain_base64 5 7 session joining written_code
      (codes "new")
      pair_code
can_pair = record {
  code_decodes = decode-encode code_postcard plain_base64 pair_code written_code code_written;
  question = question;
  asked = asked;
  short_question = leb→le _ 65536 refl;
  good = good;
  node_size = refl;
  cert = cert;
  issued = issued;
  payload = payload_of answer_of;
  encoded = refl;
  short_payload = short_answer;
}

abbrev answer_sent : PairResponse
answer_sent =
    reply protocol code_postcard plain_base64 5 7 session joining written_code (codes "new")
      pair_code can_pair

handshake_example :
    (pair_join suite messages code_postcard plain_base64
        (honest protocol 5 7 session)
        written_code
        (Device.node_pubkey_hex suite joining)
        (codes "new")
      ≡ ok answer_sent)
    × (Identity.from_received_secret plain_hex answer_sent.identity_secret_hex
          answer_sent.identity_display_name answer_sent.identity_created_at
        ≡ ok me)
    × ((Device.replace_cert suite answer_sent.signed_cert joining).0 ≡ ok tt)
handshake_example =
    handshake protocol code_postcard plain_base64 5 7 session joining written_code (codes "new")
      pair_code can_pair refl

abbrev late : Held Session
late = record session { value = record session.value { host = record { pending = [] } } }

abbrev asked_for : PairRequest
asked_for = record {
  token = token;
  node_pubkey_hex = Device.node_pubkey_hex suite joining;
  display_name = codes "new";
}

delivered : Delivers protocol (clean question) asked_for
delivered = record {
  bytes = question;
  accepted = refl;
  received = refl;
  short = leb→le _ 65536 refl;
  decoded = messages.request.from_str-to_string asked_for question asked;
}

unknown_token : (validate_and_consume asked_for.token 5 late.value.host).0 ≡ false
unfolding validate_and_consume validate lookup
unknown_token = refl

handle_consumes_example :
    let after = (handle protocol (clean question) 5 7 session).1.value in
    (lookup token after.host.pending
      ≡ (if asked_for.token == token then none else lookup token session.value.host.pending))
    × ((after.sent ≡ [])
        ⊎ ((mint : ℕ) × (lookup asked_for.token session.value.host.pending ≡ some mint)
            × (5 - mint < 5 * 60 * 10 ^ 9)))
handle_consumes_example =
    handle_consumes protocol (clean question) 5 7 session asked_for token delivered
