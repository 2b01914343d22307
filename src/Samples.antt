-- ===== src/Samples.antt =====
-- Concrete values for the parameters of the model, and small states, for the examples.
use shmark.Base.{
  ℕ, zero, suc, ◌≡◌, refl, codes, ◌==◌, eq_refl, eqb, length, length-append, none, some, true,
  false, [], ◌∷◌, ◌++◌,
}
use shmark.Codec.{Codec, number, bool, text, pair, mapped, list, option, json}
use shmark.Json.{Json}
use shmark.Crypto.{Bytes, Hex, Ed25519}
use shmark.Disk.{Disk, done}
use shmark.Identity.{Identity, StoredIdentity}
use shmark.Device.{DeviceCert, SignedDeviceCert, Device, StoredDevice, Suite}
use shmark.Groups.{LocalGroup, StoredGroups, Groups}
use shmark.Contacts.{Contact, ContactsFile, Contacts}
use shmark.Settings.{StoredSettings}
use shmark.Pairing.Code.{PairCode, Base64}
use shmark.Pairing.Protocol.{GroupTicket, Messages}
use shmark.Shares.{ShareItem, ShareRecord}

-- Bytes stand for themselves.
abbrev pub plain_hex : Hex
plain_hex = record { encode = λ b. b; decode = λ t. some t; decode-encode = λ b. refl }

abbrev pub plain_base64 : Base64
plain_base64 = record { encode = λ b. b; decode = λ t. some t; decode-encode = λ b. refl }

-- The first n bytes, with zeros behind them.
abbrev pad : ℕ → Bytes → Bytes
pad zero b = []
pad (suc n) [] = 0 ∷ pad n []
pad (suc n) (x ∷ b) = x ∷ pad n b

pub length-pad : (n : ℕ) (b : Bytes) → length (pad n b) ≡ n
length-pad zero b = refl
length-pad (suc n) [] = λ i. suc (length-pad n [] i)
length-pad (suc n) (x ∷ b) = λ i. suc (length-pad n b i)

pub length-signature : (k m : Bytes) → length (pad 32 k ++ pad 32 m) ≡ 64
length-signature k m =
    rw (length-append (pad 32 k) (pad 32 m), length-pad 32 k, length-pad 32 m) refl

pub is_key-pad : (k : Bytes) → eqb (length (pad 32 k)) 32 ≡ true
is_key-pad k = rw (length-pad 32 k) refl

-- A toy scheme with the laws of a signature: the key is its own public key.
abbrev pub toy_dalek : Ed25519
toy_dalek = record {
  public = pad 32;
  is_key = λ b. eqb (length b) 32;
  sign = λ k m. pad 32 k ++ pad 32 m;
  verify = λ p m s. s == (p ++ pad 32 m);
  length-public = length-pad 32;
  length-sign = length-signature;
  public-is_key = is_key-pad;
  verify-sign = λ k m. eq_refl (pad 32 k ++ pad 32 m);
}

abbrev pub empty_disk : Disk
empty_disk = record {
  files = [];
  modes = [];
  writes = 0;
  fate = λ n. done;
  unreadable = λ p. false;
  locked_mode = λ p. false;
}

abbrev group_codec : Codec LocalGroup
group_codec =
    mapped (pair text (pair text (pair bool (pair number number))))
      (λ p. record {
        namespace_id = p.0;
        local_alias = p.1.0;
        created_locally = p.1.1.0;
        joined_at = p.1.1.1.0;
        last_seen_at = p.1.1.1.1;
      })
      (λ g. (g.namespace_id, (g.local_alias, (g.created_locally, (g.joined_at, g.last_seen_at)))))
      (λ g. refl)

abbrev pub groups_json : Json StoredGroups
groups_json =
    json (mapped (list group_codec) (λ l. record { groups = l }) (λ s. s.groups) (λ s. refl))

abbrev contact_codec : Codec Contact
contact_codec =
    mapped (pair text (pair text (pair (option text) number)))
      (λ p. record {
        identity_pubkey = p.0;
        display_name = p.1.0;
        note = p.1.1.0;
        added_at = p.1.1.1;
      })
      (λ c. (c.identity_pubkey, (c.display_name, (c.note, c.added_at)))) (λ c. refl)

abbrev pub contacts_json : Json ContactsFile
contacts_json = json (
    mapped (pair (list contact_codec) (list (pair text text)))
      (λ p. record { contacts = p.0; group_notes = p.1 }) (λ s. (s.contacts, s.group_notes))
      (λ s. refl))

abbrev pub identity_json : Json StoredIdentity
identity_json = json (
    mapped (pair text (pair text number))
      (λ p. record { secret_key_hex = p.0; display_name = p.1.0; created_at = p.1.1 })
      (λ s. (s.secret_key_hex, (s.display_name, s.created_at))) (λ s. refl))

abbrev cert_codec : Codec DeviceCert
cert_codec =
    mapped (pair text (pair text number))
      (λ p. record { identity_pubkey_hex = p.0; node_pubkey_hex = p.1.0; created_at = p.1.1 })
      (λ c. (c.identity_pubkey_hex, (c.node_pubkey_hex, c.created_at))) (λ c. refl)

abbrev signed_codec : Codec SignedDeviceCert
signed_codec =
    mapped (pair cert_codec text) (λ p. record { cert = p.0; signature_hex = p.1 })
      (λ c. (c.cert, c.signature_hex)) (λ c. refl)

abbrev device_codec : Codec StoredDevice
device_codec =
    mapped (pair text signed_codec) (λ p. record { iroh_secret_hex = p.0; cert = p.1 })
      (λ d. (d.iroh_secret_hex, d.cert)) (λ d. refl)

abbrev pub suite : Suite
suite = record {
  hex = plain_hex;
  dalek = toy_dalek;
  node_public = pad 32;
  cert_json = json cert_codec;
  device_json = json device_codec;
}

abbrev pub settings_json : Json StoredSettings
settings_json = json (
    mapped (pair (option text) (pair (option (list text)) (option bool)))
      (λ p. record { hotkey = p.0; search_roots = p.1.0; auto_pin = p.1.1 })
      (λ s. (s.hotkey, (s.search_roots, s.auto_pin))) (λ s. refl))

abbrev pub code_postcard : Json PairCode
code_postcard = json (
    mapped (pair text text) (λ p. record { addr = p.0; token = p.1 }) (λ c. (c.addr, c.token))
      (λ c. refl))

abbrev ticket_codec : Codec GroupTicket
ticket_codec =
    mapped (pair text text) (λ p. record { local_alias = p.0; ticket = p.1 })
      (λ t. (t.local_alias, t.ticket)) (λ t. refl)

abbrev pub messages : Messages
messages = record {
  request = json (
      mapped (pair text (pair text text))
        (λ p. record { token = p.0; node_pubkey_hex = p.1.0; display_name = p.1.1 })
        (λ r. (r.token, (r.node_pubkey_hex, r.display_name))) (λ r. refl));
  response = json (
      mapped
        (pair text (pair text (pair text (pair number (pair signed_codec (list ticket_codec))))))
        (λ p. record {
          identity_secret_hex = p.0;
          identity_pubkey_hex = p.1.0;
          identity_display_name = p.1.1.0;
          identity_created_at = p.1.1.1.0;
          signed_cert = p.1.1.1.1.0;
          group_tickets = p.1.1.1.1.1;
        })
        (λ r. (
          r.identity_secret_hex,
          (
            r.identity_pubkey_hex,
            (r.identity_display_name, (r.identity_created_at, (r.signed_cert, r.group_tickets))),
          ),
        ))
        (λ r. refl));
}

abbrev item_codec : Codec ShareItem
item_codec =
    mapped (pair (option text) (pair text number))
      (λ p. record { path = p.0; blob_hash = p.1.0; size_bytes = p.1.1 })
      (λ i. (i.path, (i.blob_hash, i.size_bytes))) (λ i. refl)

abbrev pub share_json : Json ShareRecord
share_json = json (
    mapped
      (pair text
        (pair text (pair (option text) (pair (list item_codec) (pair text (pair text number))))))
      (λ p. record {
        share_id = p.0;
        name = p.1.0;
        description = p.1.1.0;
        items = p.1.1.1.0;
        author_identity = p.1.1.1.1.0;
        author_node = p.1.1.1.1.1.0;
        created_at = p.1.1.1.1.1.1;
      })
      (λ r. (
        r.share_id,
        (r.name, (r.description, (r.items, (r.author_identity, (r.author_node, r.created_at))))),
      ))
      (λ r. refl))

abbrev pub work : LocalGroup
work = record {
  namespace_id = codes "n1";
  local_alias = codes "work";
  created_locally = true;
  joined_at = 5;
  last_seen_at = 0;
}

abbrev pub home : LocalGroup
home = record {
  namespace_id = codes "n2";
  local_alias = codes "home";
  created_locally = false;
  joined_at = 7;
  last_seen_at = 0;
}

abbrev pub two_groups : Groups
two_groups = record {
  state_path = codes "groups.json";
  by_namespace = (codes "n1", work) ∷ (codes "n2", home) ∷ [];
}

abbrev pub ann : Contact
ann = record { identity_pubkey = codes "k1"; display_name = codes "ann"; note = none; added_at = 3 }

abbrev pub one_contact : Contacts
one_contact = record {
  path = codes "contacts.json";
  by_pubkey = (codes "k1", ann) ∷ [];
  group_notes = [];
}

abbrev pub me : Identity
me = record { signing_key = pad 32 (codes "secret"); display_name = codes "me"; created_at = 1 }

abbrev pub laptop : Device
laptop = record {
  iroh_secret = [];
  cert = record {
    cert = record { identity_pubkey_hex = []; node_pubkey_hex = []; created_at = 0 };
    signature_hex = [];
  };
}
