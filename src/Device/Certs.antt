-- ===== src/Device/Certs.antt =====
-- Certificates: what is issued verifies, and what is accepted was signed for this device.
use shmark.Base.{
  ℕ, Text, eq_iff, ◌≡◌, ◌↔◌, ap, subst, sym, some, [], true, arith, Option-cases, inl, inr, length,
}
use shmark.Errors.{ok, err, panic, err-ne-ok, ok-injective}
use shmark.Crypto.{Bytes}
use shmark.Identity
use shmark.Identity.{Identity}
use shmark.Device.{
  SignedDeviceCert, Device, Suite, create_cert, verify, verify_signature, node_pubkey_hex,
  replace_cert,
}

-- A certificate that was signed: its fields decode to a public key and a signature of the right
-- lengths, and the key verifies the signature of its serialized body.
pub record Genuine (k : Suite) (c : SignedDeviceCert) : Type 0 where
  pub id : Bytes
  pub signature : Bytes
  pub payload : Text
  pub id_decoded : k.hex.decode c.cert.identity_pubkey_hex ≡ some id
  pub id_size : length id ≡ 32
  pub id_key : k.dalek.is_key id ≡ true
  pub signature_decoded : k.hex.decode c.signature_hex ≡ some signature
  pub signature_size : length signature ≡ 64
  pub encoded : k.cert_json.to_string c.cert ≡ some payload
  pub signed : k.dalek.verify id payload signature ≡ true

module _ (k : Suite) where
  verify_of-Genuine : (c : SignedDeviceCert) → Genuine k c → verify k c ≡ ok tt
  unfolding verify verify_signature
  verify_of-Genuine c g = rw (
    g.id_decoded, g.id_size, g.id_key, g.signature_decoded, g.signature_size, g.encoded, g.signed,
  )

  signature_Genuine :
      (c : SignedDeviceCert) (id signature : Bytes)
      → k.hex.decode c.cert.identity_pubkey_hex ≡ some id
      → length id ≡ 32
      → k.dalek.is_key id ≡ true
      → k.hex.decode c.signature_hex ≡ some signature
      → length signature ≡ 64
      → verify_signature k c id signature ≡ ok tt
      → Genuine k c
  unfolding verify_signature
  signature_Genuine c id signature d n key e m h =
      elim (Option-cases (k.cert_json.to_string c.cert)) [
        | inl failed ↦ cc (rw failed at h)
        | inr (payload, encoded) ↦ record {
          id = id;
          signature = signature;
          payload = payload;
          id_decoded = d;
          id_size = n;
          id_key = key;
          signature_decoded = e;
          signature_size = m;
          encoded = encoded;
          signed = ground arith;
        }
      ]

  verify-Genuine : (c : SignedDeviceCert) → verify k c ≡ ok tt → Genuine k c
  unfolding verify
  verify-Genuine c h = elim (Option-cases (k.hex.decode c.cert.identity_pubkey_hex)) [
    | inl failed ↦ cc (rw failed at h)
    | inr (id, decoded) ↦ elim (Option-cases (k.hex.decode c.signature_hex)) [
      | inl failed ↦ absurd (ground arith)
      | inr (signature, decoded') ↦
          signature_Genuine c id signature decoded (ground arith) (ground arith) decoded'
            (ground arith) (ground arith)
    ]
  ]

  -- `verify` accepts exactly the genuine certificates.
  pub verify_exact : (c : SignedDeviceCert) → (verify k c ≡ ok tt) ↔ Genuine k c
  verify_exact c = (verify-Genuine c, verify_of-Genuine c)

  issued_cert : ℕ → Identity → Bytes → Text → SignedDeviceCert
  issued_cert now identity node payload = record {
    cert = record {
      identity_pubkey_hex = k.hex.encode (k.dalek.public identity.signing_key);
      node_pubkey_hex = k.hex.encode node;
      created_at = now;
    };
    signature_hex = k.hex.encode (k.dalek.sign identity.signing_key payload);
  }

  issued_cert-Genuine :
      (now : ℕ) (identity : Identity) (node : Bytes) (payload : Text)
      → k.cert_json.to_string (issued_cert now identity node payload).cert ≡ some payload
      → Genuine k (issued_cert now identity node payload)
  unfolding issued_cert
  issued_cert-Genuine now identity node payload encoded = record {
    id = k.dalek.public identity.signing_key;
    signature = k.dalek.sign identity.signing_key payload;
    payload = payload;
    id_decoded = k.hex.decode-encode _;
    id_size = k.dalek.length-public _;
    id_key = k.dalek.public-is_key _;
    signature_decoded = k.hex.decode-encode _;
    signature_size = k.dalek.length-sign _ _;
    encoded = encoded;
    signed = k.dalek.verify-sign _ _;
  }

  -- A certificate that `create` issues verifies, names the public key of the identity that issued it
  -- and the node key that it was asked for, and has the time of issue.
  pub verify-create_cert :
      (now : ℕ) (identity : Identity) (node : Bytes) (c : SignedDeviceCert)
      → create_cert k now identity node ≡ ok c
      → (verify k c ≡ ok tt)
        × (c.cert.identity_pubkey_hex ≡ k.hex.encode (k.dalek.public identity.signing_key))
        × (c.cert.node_pubkey_hex ≡ k.hex.encode node)
        × (c.cert.created_at ≡ now)
  unfolding create_cert Identity.pubkey_hex Identity.sign issued_cert
  verify-create_cert now identity node c issued =
      elim (Option-cases (k.cert_json.to_string (issued_cert now identity node []).cert)) [
        | inl failed ↦ absurd (err-ne-ok (rw failed at issued))
        | inr (payload, encoded) ↦
            let same : issued_cert now identity node payload ≡ c =
              ok-injective (rw encoded at issued) in
            (
              subst (λ x. verify k x ≡ ok tt) same
                  (verify_of-Genuine _ (issued_cert-Genuine now identity node payload encoded)),
              ap (λ (x : SignedDeviceCert). x.cert.identity_pubkey_hex) (sym same),
              ap (λ (x : SignedDeviceCert). x.cert.node_pubkey_hex) (sym same),
              ap (λ (x : SignedDeviceCert). x.cert.created_at) (sym same),
            )
      ]

  accepts :
      (cert : SignedDeviceCert) (dev : Device)
      → ((replace_cert k cert dev).0 ≡ ok tt)
        ↔ ((verify k cert ≡ ok tt) × (cert.cert.node_pubkey_hex ≡ node_pubkey_hex k dev))
  unfolding replace_cert
  accepts cert dev = (
    λ h. ground (arith, eq_iff cert.cert.node_pubkey_hex (node_pubkey_hex k dev)),
    λ h. ground (arith, eq_iff cert.cert.node_pubkey_hex (node_pubkey_hex k dev)),
  )

  device_after :
      (cert : SignedDeviceCert) (dev : Device)
      → (replace_cert k cert dev).1 ≡ (elim (replace_cert k cert dev).0 [
        | ok _ ↦ record dev { cert = cert }
        | err e ↦ dev
        | panic ↦ dev
      ])
  unfolding replace_cert
  device_after cert dev = ground arith

  -- `replace_cert` accepts a certificate exactly when it verifies and names this device's node key.
  -- It then replaces the certificate and keeps the secret; else the device is as before.
  pub replace_cert_exact :
      (cert : SignedDeviceCert) (dev : Device)
      → (((replace_cert k cert dev).0 ≡ ok tt)
          ↔ ((verify k cert ≡ ok tt) × (cert.cert.node_pubkey_hex ≡ node_pubkey_hex k dev)))
        × ((replace_cert k cert dev).1 ≡ (elim (replace_cert k cert dev).0 [
          | ok _ ↦ record dev { cert = cert }
          | err e ↦ dev
          | panic ↦ dev
        ]))
  replace_cert_exact cert dev = (accepts cert dev, device_after cert dev)
