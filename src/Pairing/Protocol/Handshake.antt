-- ===== src/Pairing/Protocol/Handshake.antt =====
-- What the host gives away and to whom, and the exchange from end to end.
use shmark.Base.{
  ℕ, ◌-◌, ◌*◌, ◌^◌, ◌≤◌, ◌<◌, ◌==◌, if◌then◌else◌, none, Option-cases, Text, length, ◌≡◌, ◌⊎◌, refl,
  ap, ◌∙◌, some, true, false, [], ◌∷◌, arith, Bool-cases, inl, inr,
}
use shmark.Errors.{Result, ok, err, foreign}
use shmark.Json.{Json}
use shmark.Crypto.{Bytes}
use shmark.Action.{Held}
use shmark.Identity
use shmark.Identity.{Identity}
use shmark.Device
use shmark.Device.{Device, SignedDeviceCert, Suite, replace_cert}
use shmark.Device.Certs.{verify-create_cert, replace_cert_exact}
use shmark.Pairing.{PairingHost, validate_and_consume, validate, fresh}
use shmark.Maps.{lookup}
use shmark.Maps.Laws.{lookup-remove}
use shmark.Pairing.Code.{PairCode, Base64}
use shmark.Pairing.Code
use shmark.Pairing.Protocol.{
  PairRequest, PairResponse, Connection, Session, PairProtocol, Network, max_msg_bytes, read_to_end,
  invalid_token, unless, consume, send_all, answer, handle, respond_with, gather_group_tickets,
  pair_join,
}

-- The request of a connection arrives and decodes to `req`.
pub record Delivers (p : PairProtocol) (conn : Connection) (req : PairRequest) : Type 0 where
  pub bytes : Bytes
  pub accepted : conn.accept_bi ≡ ok tt
  pub received : conn.incoming ≡ ok bytes
  pub short : length bytes ≤ max_msg_bytes
  pub decoded : p.messages.request.from_str bytes ≡ some req

abbrev pub consumed : ℕ → Text → Held Session → Held Session
consumed clock token s = record s {
  value = record s.value { host = (validate_and_consume token clock s.value.host).1 };
}

lookup-consumed :
    (token k : Text) (clock : ℕ) (host : PairingHost)
    → lookup k (validate_and_consume token clock host).1.pending
      ≡ (if token == k then none else lookup k host.pending)
unfolding validate_and_consume
lookup-consumed token k clock host = lookup-remove token k host.pending

good_token :
    (token : Text) (clock : ℕ) (host : PairingHost)
    → (validate_and_consume token clock host).0 ≡ true
    → (mint : ℕ) × (lookup token host.pending ≡ some mint) × (clock - mint < 5 * 60 * 10 ^ 9)
unfolding validate_and_consume validate fresh
good_token token clock host good = elim (Option-cases (lookup token host.pending)) [
  | inl absent ↦ cc (rw absent at good)
  | inr (mint, e) ↦ (mint, e, ground (arith, rw e at good))
]

module _ (p : PairProtocol) (conn : Connection) (clock now : ℕ) (s : Held Session) where
  reads : (req : PairRequest) (d : Delivers p conn req) → read_to_end conn.incoming ≡ ok d.bytes
  reads req d = rw d.received (ground (arith, d.short))

  -- A request that arrives and decodes, and whose token is not good, gets the error and no answer,
  -- and the token is used up.
  pub handle_bad_token :
      (req : PairRequest)
      → Delivers p conn req
      → (validate_and_consume req.token clock s.value.host).0 ≡ false
      → handle p conn clock now s ≡ (err invalid_token, consumed clock req.token s)
  unfolding handle consume unless
  handle_bad_token req d bad = rw (d.accepted, reads req d, d.decoded, bad)

  handle_good_token :
      (req : PairRequest)
      → Delivers p conn req
      → (validate_and_consume req.token clock s.value.host).0 ≡ true
      → handle p conn clock now s ≡ answer p conn now req (consumed clock req.token s)
  unfolding handle consume unless
  handle_good_token req d good = rw (d.accepted, reads req d, d.decoded, good)

  -- The parts that an answer needs: a node key of 32 bytes, and a certificate and a response that
  -- can be serialized.
  pub record Answers (req : PairRequest) : Type 0 where
    pub node : Bytes
    pub cert : SignedDeviceCert
    pub payload : Bytes
    pub node_decoded : p.suite.hex.decode req.node_pubkey_hex ≡ some node
    pub node_size : length node ≡ 32
    pub issued : Device.create_cert p.suite now p.identity node ≡ ok cert
    pub encoded :
        p.messages.response.to_string (
          respond_with p cert
            (gather_group_tickets p.groups_json p.docs p.groups_state_path s.disk))
        ≡ some payload
    pub written : conn.write_all ≡ ok tt
    pub finished : conn.finish ≡ ok tt

  answer_sends :
      (req : PairRequest) (a : Answers req)
      → answer p conn now req (consumed clock req.token s) ≡ (
        ok tt,
        record s {
          value = record {
            host = (validate_and_consume req.token clock s.value.host).1;
            sent = a.payload ∷ s.value.sent;
          };
        },
      )
  unfolding answer send_all
  answer_sends req a = rw (a.node_decoded, a.node_size, a.issued, a.encoded, a.written, a.finished)

  host-answer :
      (req : PairRequest) (t : Held Session) → (answer p conn now req t).1.value.host ≡ t.value.host
  unfolding answer send_all
  host-answer req t = ground arith

  -- Once a request is decoded its token is gone from the host's table, and no other, whatever happens
  -- after: a token that is not good, a malformed node key, or a failure to answer. Nothing is sent unless
  -- the table had the token, and it was minted less than five minutes before.
  pub handle_consumes :
      (req : PairRequest) (k : Text)
      → Delivers p conn req
      → let after = (handle p conn clock now s).1.value in
        (lookup k after.host.pending
          ≡ (if req.token == k then none else lookup k s.value.host.pending))
        × ((after.sent ≡ s.value.sent)
            ⊎ ((mint : ℕ) × (lookup req.token s.value.host.pending ≡ some mint)
                × (clock - mint < 5 * 60 * 10 ^ 9)))
  handle_consumes req k d =
      elim (Bool-cases (validate_and_consume req.token clock s.value.host).0) [
        | inl good ↦ (
          rw (handle_good_token req d good, host-answer req (consumed clock req.token s))
              (lookup-consumed req.token k clock s.value.host),
          inr (good_token req.token clock s.value.host good),
        )
        | inr bad ↦ (
          rw (handle_bad_token req d bad) (lookup-consumed req.token k clock s.value.host),
          rw (handle_bad_token req d bad) (inl refl),
        )
      ]

-- A connection on which nothing fails.
abbrev pub clean : Bytes → Connection
clean payload = record {
  accept_bi = ok tt;
  incoming = ok payload;
  write_all = ok tt;
  finish = ok tt;
}

abbrev last_sent : Result (Unit {0}) × Held Session → Result Bytes
last_sent outcome = elim outcome.1.value.sent [ [] ↦ err foreign | out ∷ rest ↦ ok out ]

-- A network that brings each request to the host in the state `s`, and the host's answer back.
abbrev pub honest : PairProtocol → ℕ → ℕ → Held Session → Network
honest p clock now s = record {
  connect = λ addr. ok tt;
  open_bi = ok tt;
  write_all = ok tt;
  finish = ok tt;
  exchange = λ addr payload. last_sent (handle p (clean payload) clock now s);
}

module _ (p : PairProtocol) (postcard : Json PairCode) (base64 : Base64) (clock now : ℕ)
    (s : Held Session) (dev : Device) (code name : Text) (pc : PairCode) where
  abbrev request : PairRequest
  request = record {
    token = pc.token;
    node_pubkey_hex = Device.node_pubkey_hex p.suite dev;
    display_name = name;
  }

  -- What a pairing needs: a code that decodes, a token that is good, a device key of 32 bytes, and
  -- messages that can be serialized and are not too long.
  pub record CanPair : Type 0 where
    pub code_decodes : Code.decode postcard base64 code ≡ ok pc
    pub question : Bytes
    pub asked : p.messages.request.to_string request ≡ some question
    pub short_question : length question ≤ max_msg_bytes
    pub good : (validate_and_consume pc.token clock s.value.host).0 ≡ true
    pub node_size : length (p.suite.node_public dev.iroh_secret) ≡ 32
    pub cert : SignedDeviceCert
    pub issued :
        Device.create_cert p.suite now p.identity (p.suite.node_public dev.iroh_secret) ≡ ok cert
    pub payload : Bytes
    pub encoded :
        p.messages.response.to_string (
          respond_with p cert
            (gather_group_tickets p.groups_json p.docs p.groups_state_path s.disk))
        ≡ some payload
    pub short_payload : length payload ≤ max_msg_bytes

  module _ (c : CanPair) where
    abbrev pub reply : PairResponse
    reply =
        respond_with p c.cert (gather_group_tickets p.groups_json p.docs p.groups_state_path s.disk)

    delivered : Delivers p (clean c.question) request
    delivered = record {
      bytes = c.question;
      accepted = refl;
      received = refl;
      short = c.short_question;
      decoded = p.messages.request.from_str-to_string request c.question c.asked;
    }

    answerable : Answers p (clean c.question) clock now s request
    unfolding Device.node_pubkey_hex
    answerable = record {
      node = p.suite.node_public dev.iroh_secret;
      cert = c.cert;
      payload = c.payload;
      node_decoded = p.suite.hex.decode-encode _;
      node_size = c.node_size;
      issued = c.issued;
      encoded = c.encoded;
      written = refl;
      finished = refl;
    }

    exchanged : (honest p clock now s).exchange pc.addr c.question ≡ ok c.payload
    unfolding answerable
    exchanged = ap last_sent (
        handle_good_token p (clean c.question) clock now s request delivered c.good
        ∙ answer_sends p (clean c.question) clock now s request answerable)

    reply_arrives : read_to_end ((honest p clock now s).exchange pc.addr c.question) ≡ ok c.payload
    reply_arrives = rw exchanged (ground (arith, c.short_payload))

    -- An honest exchange gives the joining device exactly the host's answer.
    joins :
        pair_join p.suite p.messages postcard base64
          (honest p clock now s)
          code
          (Device.node_pubkey_hex p.suite dev)
          name
        ≡ ok reply
    unfolding pair_join respond_with
    joins = rw (
      c.code_decodes,
      c.asked,
      reply_arrives,
      p.messages.response.from_str-to_string reply c.payload c.encoded,
      (verify-create_cert p.suite now p.identity _ c.cert c.issued).0,
    )

    -- The device accepts the certificate of the answer.
    accepted_cert : (replace_cert p.suite c.cert dev).0 ≡ ok tt
    unfolding Device.node_pubkey_hex
    accepted_cert =
        let (genuine, named, bound, timed) =
          verify-create_cert p.suite now p.identity _ c.cert c.issued in
        (replace_cert_exact p.suite c.cert dev).0.1 (genuine, bound)

    -- With a code that decodes, a good token, a 32-byte node key and messages that fit, an exchange
    -- over an honest network ends with the host's answer on the joining device. The secret in it
    -- gives back the host's identity, if that has 32 bytes, and the device accepts the certificate.
    pub handshake :
        length p.identity.signing_key ≡ 32
        → (pair_join p.suite p.messages postcard base64
              (honest p clock now s)
              code
              (Device.node_pubkey_hex p.suite dev)
              name
            ≡ ok reply)
          × (Identity.from_received_secret p.suite.hex reply.identity_secret_hex
                reply.identity_display_name reply.identity_created_at
              ≡ ok p.identity)
          × ((Device.replace_cert p.suite reply.signed_cert dev).0 ≡ ok tt)
    unfolding Identity.from_received_secret respond_with
    handshake size =
        (joins, rw (p.suite.hex.decode-encode p.identity.signing_key, size) refl, accepted_cert)
