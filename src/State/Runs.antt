-- ===== src/State/Runs.antt =====
-- The states of the examples: a first start, a host, and a daemon that joins it.
use shmark.Base.{true, false, ℕ, Text, codes, none, some, [], ◌∷◌, ◌++◌, inr}
use shmark.Errors.{Result, ok, err, panic}
use shmark.Maps.{values, insert}
use shmark.Action.{Held}
use shmark.Crypto.{Bytes}
use shmark.Paths.{Surroundings, join}
use shmark.Identity
use shmark.Identity.{Identity, set_secret_perms}
use shmark.Device
use shmark.Device.{SignedDeviceCert, create_cert}
use shmark.Settings.{default_settings}
use shmark.Dispatch.{AppState}
use shmark.Samples.{
  suite, messages, identity_json, groups_json, contacts_json, settings_json, code_postcard,
  plain_base64, empty_disk, me, two_groups, work, home,
}
use shmark.Pairing.Code.{PairCode}
use shmark.Json.{Json}
use shmark.Pairing.Protocol.{
  Session, PairProtocol, PairRequest, PairResponse, respond_with, gather_group_tickets,
}
use shmark.Pairing.Protocol.Handshake.{honest}
use shmark.Dispatch.Devices.{Joiner, PairJoined, devices_pair_join}
use shmark.State.{Starter, Moment, boot}
use shmark.State.Joined.{starter, over}

abbrev pub surroundings : Surroundings
surroundings = record { custom = some (codes "/d"); os_data_dir = none }

abbrev pub sample : Starter
sample = record {
  suite = suite;
  identity_json = identity_json;
  groups_json = groups_json;
  contacts_json = contacts_json;
  settings_json = settings_json;
  surroundings = surroundings;
}

abbrev pub moment : Bytes → ℕ → Moment
moment random time = record {
  create_dir_all = λ dir. ok tt;
  node_boot = λ secret dir d.
      (ok tt, record d { files = insert (join dir (codes "docs/" ++ secret)) [] d.files });
  author_default = ok (codes "author");
  identity_bytes = suite.node_public random;
  device_bytes = suite.node_public random;
  identity_time = time;
  device_time = time;
  started_time = time;
}

abbrev pub start : Held {0} Unit
start = record { value = tt; disk = empty_disk }

abbrev pub the {ℓ} : {A : Type ℓ} → A → Result A → A
the other r = elim r [ ok a ↦ a | err e ↦ other | panic ↦ other ]

abbrev pub no_cert : SignedDeviceCert
no_cert = record {
  cert = record { identity_pubkey_hex = []; node_pubkey_hex = []; created_at = 0 };
  signature_hex = [];
}

abbrev pub first_identity : Identity
first_identity = record {
  signing_key = suite.node_public (codes "one");
  display_name = codes "me";
  created_at = 5;
}

abbrev pub first_secret : Bytes
first_secret = suite.node_public (codes "one")

abbrev pub first : AppState
first = record {
  identity = first_identity;
  device = record {
    iroh_secret = first_secret;
    cert = the no_cert (create_cert suite 5 first_identity (suite.node_public first_secret));
  };
  groups = record { state_path = codes "/d/groups.json"; by_namespace = [] };
  contacts = record { path = codes "/d/contacts.json"; by_pubkey = []; group_notes = [] };
  settings = default_settings;
  pairing = record { pending = [] };
  started_at = 5;
  signals = [];
}

abbrev pub first_end : Held {0} Unit
first_end = (boot sample (moment (codes "one") 5) (codes "me") start).1

-- Another daemon, whose identity is `me`, and on which a token is pending.
abbrev pub token : Text
token = codes "token"

abbrev pub pair_code : PairCode
pair_code = record { addr = codes "addr"; token = token }

abbrev pub written_code : Text
written_code = codes "shpair-" ++ ((4 ∷ codes "addr") ++ (5 ∷ token))

abbrev pub host : PairProtocol
host = record {
  suite = suite;
  messages = messages;
  groups_json = groups_json;
  docs = record { parse_ns = λ t. some t; open_doc = λ t. ok true; share = λ t. ok t };
  identity = me;
  groups_state_path = codes "groups.json";
}

abbrev pub group_text : Text
group_text = elim (groups_json.to_string (record { groups = values two_groups.by_namespace })) [
  | none ↦ []
  | some t ↦ t
]

-- The host's disk has its two groups.
abbrev pub host_state : Held Session
host_state = record {
  value = record { host = record { pending = (token, 3) ∷ [] }; sent = [] };
  disk = record empty_disk { files = (codes "groups.json", group_text) ∷ [] };
}

abbrev pub joiner : Joiner
joiner = record {
  suite = suite;
  messages = messages;
  postcard = code_postcard;
  base64 = plain_base64;
  net = honest host 5 7 host_state;
  surroundings = surroundings;
  identity_json = identity_json;
  groups_json = groups_json;
  parse_ticket = λ t. inr t;
  import = λ t. ok t;
  now = λ n. n;
}

abbrev pub encoded {ℓ} : {A : Type ℓ} → Json A → A → Text
encoded json a = elim (json.to_string a) [ none ↦ [] | some t ↦ t ]

abbrev pub before : Held AppState
before = record {
  value = first;
  disk = record empty_disk {
    files =
        (
          codes "/d/device.json",
          encoded suite.device_json
              (record { iroh_secret_hex = first_secret; cert = first.device.cert }),
        )
        ∷ [];
  };
}

abbrev pub issued : SignedDeviceCert
issued = the no_cert (create_cert suite 7 me (suite.node_public first.device.iroh_secret))

abbrev pub request : PairRequest
request = record {
  token = token;
  node_pubkey_hex = Device.node_pubkey_hex suite first.device;
  display_name = codes "me";
}

abbrev pub response : PairResponse
response =
    respond_with host issued
      (gather_group_tickets groups_json host.docs host.groups_state_path host_state.disk)

abbrev pub wrong : PairResponse
wrong =
    respond_with host (the no_cert (create_cert suite 7 me (suite.node_public (codes "other")))) []

abbrev pub joined : PairJoined
joined = record {
  identity_pubkey = Identity.pubkey_hex suite.hex suite.dalek me;
  imported_groups = codes "work" ∷ codes "home" ∷ [];
}

abbrev pub after : Held AppState
after = (devices_pair_join (over joiner host 5 7 host_state) written_code none before).1

abbrev pub renewed : AppState
renewed = record first {
  identity = me;
  device = record { iroh_secret = first_secret; cert = issued };
  groups = record {
    state_path = codes "/d/groups.json";
    by_namespace =
        (codes "n1", record work { created_locally = false; joined_at = 0 })
        ∷ (codes "n2", record home { created_locally = false; joined_at = 1 })
        ∷ [];
  };
  started_at = 9;
}

abbrev pub second_end : Held AppState
second_end =
    (boot (starter (over joiner host 5 7 host_state) contacts_json settings_json)
      (moment (codes "two") 9) (codes "other") after).1

-- A daemon whose network brings back an answer with a certificate for another device.
abbrev pub misled : Joiner
misled = record joiner {
  net = record (honest host 5 7 host_state) {
    exchange = λ addr payload. ok (encoded messages.response wrong);
  };
}
