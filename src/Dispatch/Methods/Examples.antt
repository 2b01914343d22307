-- ===== src/Dispatch/Methods/Examples.antt =====
-- A connection to a daemon: a method by its name, and a name that no method has.
use shmark.Base.{Text, codes, ◌≡◌, refl, none, some, List, [], ◌∷◌, ◌++◌, inr, true, false}
use shmark.Errors.{Error, Result, ok, err, os, serde, message}
use shmark.Maps.{lookup, update}
use shmark.Disk.{write}
use shmark.Resolve.{trim, strip_all, strip_any}
use shmark.Samples.{
  suite, messages, code_postcard, plain_base64, identity_json, groups_json, contacts_json,
  settings_json, share_json, me, laptop, two_groups, one_contact, empty_disk,
}
use shmark.Settings.{default_settings}
use shmark.Groups
use shmark.Shares.{Node}
use shmark.Shares.Create.{Sources}
use shmark.Server.{ok_response, err_response, Served, handle_conn, respond, answer, flatten_chain}
use shmark.Dispatch.{groups_mark_seen, in_groups}
use shmark.Dispatch.Devices.{Joiner}
use shmark.Dispatch.Preserved.{IsValidState}
use shmark.Dispatch.Methods.{Reply, group, Params, Daemon, Service, changing}
use shmark.Dispatch.Methods.Table.{
  dispatch, methods, identity_methods, group_methods, share_methods, device_methods,
  contact_methods,
}
use shmark.Dispatch.Methods.Served.{Lines, api, served-IsValid}

abbrev unreachable : {A : Type 0} → Result A
unreachable = err os

abbrev node : Node Unit
node = record {
  parse_ns = λ t. some t;
  parse_hash = λ t. some t;
  parse_endpoint = λ t. some t;
  opened = λ ns s. unreachable;
  get_many = λ ns prefix s. unreachable;
  get_bytes = λ hash s. unreachable;
  has = λ hash s. none;
  set_bytes = λ ns key value s. (unreachable, s);
  add_path = λ p s. (unreachable, s);
  download = λ hash provider s. (unreachable, s);
  export = λ hash p s. (unreachable, s);
}

abbrev sources : Sources Unit
sources = record {
  absolute = λ p. ok p;
  metadata = λ p. unreachable;
  walk = λ p. [];
  client = ok tt;
  send = λ u. unreachable;
  body = λ u. unreachable;
  temp_file = λ b s. (unreachable, s);
  create_dir_all = λ p s. (unreachable, s);
  last_segment = λ u. none;
}

abbrev joiner : Joiner
joiner = record {
  suite = suite;
  messages = messages;
  postcard = code_postcard;
  base64 = plain_base64;
  net = record {
    connect = λ addr. unreachable;
    open_bi = unreachable;
    write_all = unreachable;
    finish = unreachable;
    exchange = λ addr question. unreachable;
  };
  surroundings = record { custom = some (codes "/d"); os_data_dir = none };
  identity_json = identity_json;
  groups_json = groups_json;
  parse_ticket = λ t. inr t;
  import = λ t. unreachable;
  now = λ n. n;
}

-- The parameters are one text.
abbrev params : Params Text
params = record {
  groups_new = λ v. ok v;
  groups_mark_seen = λ v. ok v;
  groups_share_code = λ v. ok (v, true);
  groups_join = λ v. ok (v, none);
  groups_rename = λ v. ok (v, v);
  groups_remove = λ v. ok v;
  paths_resolve = λ v. ok v;
  settings_set = λ v. err serde;
  share_create = λ v. err serde;
  shares_list = λ v. none;
  share_get_bytes = λ v. err serde;
  share_download = λ v. err serde;
  devices_pair_join = λ v. ok (v, none);
  contacts_upsert = λ v. ok (v, v);
  contacts_remove = λ v. ok v;
  contacts_set_note = λ v. ok (v, none);
  groups_set_note = λ v. ok (v, none);
  resolve_recipient = λ v. ok v;
}

abbrev shown : Reply → Result Text
shown (group g) = ok g.local_alias
shown r = err serde

abbrev daemon : Daemon Unit Text
daemon = record {
  joiner = joiner;
  contacts_json = contacts_json;
  settings_json = settings_json;
  share_json = share_json;
  node = node;
  sources = sources;
  fs = record { home_dir = none; exists = λ p. false; metadata = λ p. none; walk = λ p. [] };
  settings_path = ok (codes "/d/settings.json");
  parse_ns = λ t. inr t;
  base64 = λ t. t;
  endpoint_id = codes "node";
  pid = 7;
  params = params;
  to_value = shown;
  draws = λ n. record {
    now = n;
    clock = n;
    random = codes "token";
    uuid = codes "u";
    created = unreachable;
    import = λ t. unreachable;
    opened = λ t. unreachable;
    share = λ r t. unreachable;
    addr = codes "addr";
    current_dir = unreachable;
    data_dir_ready = ok tt;
  };
}

abbrev print : Error → Text
print (message t) = t
print e = codes "error"

-- A request is the name of a method; its parameter is always `work`.
abbrev text_lines : Lines Text
text_lines = record {
  display = print;
  from_str = λ t. inr (record { method = t; params = codes "work" });
  to_string = λ r. some (elim r [ ok_response v ↦ v | err_response e ↦ e.message ]);
}

abbrev start : Served (Service Unit)
start = record {
  sent = [];
  state = record {
    app = record {
      value = record {
        identity = me;
        device = laptop;
        groups = two_groups;
        contacts = one_contact;
        settings = default_settings;
        pairing = record { pending = [] };
        started_at = 0;
        signals = [];
      };
      disk = empty_disk;
    };
    node = tt;
    spawned = [];
    calls = 0;
  };
}

abbrev lines : List (Result Text)
lines = ok (codes "groups_mark_seen") ∷ ok (codes "nonsense") ∷ []

answered :
    (handle_conn (api text_lines daemon) (λ n. ok tt) lines start).1.sent
    ≡ (codes "work" ++ 0x0a ∷ []) ∷ (codes "unknown method: nonsense" ++ 0x0a ∷ []) ∷ []
unfolding handle_conn respond answer flatten_chain trim strip_all strip_any dispatch methods
    identity_methods group_methods changing lookup update write in_groups groups_mark_seen
    Groups.mark_seen Groups.change_entry Groups.resolve_key Groups.choose Groups.save share_methods
    device_methods contact_methods
answered = refl

start-IsValid : IsValidState start.state.app.value
unfolding lookup
start-IsValid = record {
  groups = record { keyed = (refl, (refl, tt)); distinct = (refl, (refl, tt)) };
  contacts = record { keyed = (refl, tt); ordered = (tt, tt) };
}

served-IsValid_example :
    IsValidState (handle_conn (api text_lines daemon) (λ n. ok tt) lines start).1.state.app.value
served-IsValid_example = served-IsValid text_lines daemon (λ n. ok tt) lines start start-IsValid
