-- ===== src/Dispatch/Methods.antt =====
-- `dispatch` of crates/shmark-api/src/dispatch.rs: the method that a name stands for, its parameters
-- and its answer as JSON. The dev_* methods are not among them.
pub mod Table
pub mod Calls
pub mod Served
mod Examples
use shmark.Base.{ℕ, ◌+◌, Text, codes, ◌++◌, Option, none, some, Bool, List, [], ◌∷◌, ◌⊎◌}
use shmark.Errors
use shmark.Errors.{Result, ok, err, panic, message}
use shmark.Maps.{Map, lookup}
use shmark.Json.{Json}
use shmark.Action.{Action, Held}
use shmark.Crypto.{Bytes}
use shmark.Groups.{LocalGroup}
use shmark.Contacts
use shmark.Contacts.{Contact, ContactsFile}
use shmark.Settings.{Settings, StoredSettings, Change, default_roots, effective_search_roots}
use shmark.Resolve.{FileSystem, Resolution}
use shmark.Shares.{Node, Io, ShareRecord}
use shmark.Shares.Create.{Sources}
use shmark.Dispatch.{
  AppState, Recipient, resolve_recipient, groups_new, groups_join, groups_mark_seen, groups_rename,
  groups_remove, groups_set_note, contacts_upsert, contacts_remove, contacts_set_note, settings_set,
  daemon_stop, paths_resolve, context_dump,
}
use shmark.Dispatch.Devices.{
  IdentityShown, DaemonStatus, DeviceListed, PairOffer, PairJoined, Joiner, daemon_status,
  identity_show, devices_list, devices_pair_create, devices_pair_join,
}
use shmark.Dispatch.Sharing.{
  GroupRow, ShareRow, ShareCode, groups_list, groups_share_code, shares_list, share_create,
  share_get_bytes, share_download,
}

-- What `settings_get` returns.
pub record SettingsShown : Type 0 where
  pub settings : Settings
  pub effective_search_roots : List Text
  pub default_roots : List Text

unfoldable pub settings_get : FileSystem → AppState → SettingsShown
settings_get fs a = record {
  settings = a.settings;
  effective_search_roots = effective_search_roots fs a.settings;
  default_roots = default_roots fs;
}

-- What a method answers, before it is JSON.
pub data Reply : Type 0 where
  identity : IdentityShown → Reply
  status : DaemonStatus → Reply
  stopping : Reply
  group : LocalGroup → Reply
  groups : List GroupRow → Reply
  share_code : ShareCode → Reply
  resolution : Resolution → Reply
  all_settings : SettingsShown → Reply
  new_settings : Settings → Reply
  share : ShareRecord → Reply
  shares : List ShareRow → Reply
  content : Text × ℕ → Reply
  written : Text → Reply
  offer : PairOffer → Reply
  joined : PairJoined → Reply
  devices : List DeviceListed → Reply
  contact : Contact → Reply
  contacts : List Contact → Reply
  noted : Text → Reply
  markdown : Text → Reply
  recipient : Recipient → Reply

-- `serde_json::from_value` for the parameters of each method, with the defaults filled in.
pub record Params (Value : Type 0) : Type 0 where
  pub groups_new : Value → Result Text
  pub groups_mark_seen : Value → Result Text
  pub groups_share_code : Value → Result (Text × Bool)
  pub groups_join : Value → Result (Text × Option Text)
  pub groups_rename : Value → Result (Text × Text)
  pub groups_remove : Value → Result Text
  pub paths_resolve : Value → Result Text
  pub settings_set : Value → Result Change
  pub share_create : Value → Result (Text × Text × Option Text × Option Text)
  pub shares_list : Value → Option Text
  pub share_get_bytes : Value → Result (Text × Text × ℕ)
  pub share_download : Value → Result (Text × Text × Option Text)
  pub devices_pair_join : Value → Result (Text × Option Text)
  pub contacts_upsert : Value → Result (Text × Text)
  pub contacts_remove : Value → Result Text
  pub contacts_set_note : Value → Result (Text × Option Text)
  pub groups_set_note : Value → Result (Text × Option Text)
  pub resolve_recipient : Value → Result Text

-- What a call draws from its surroundings: times, random bytes, and what the document store and the
-- system answer to it.
pub record Draws : Type 0 where
  pub now : ℕ
  pub clock : ℕ
  pub random : Bytes
  pub uuid : Text
  pub created : Result Text
  pub import : Text → Result Text
  pub opened : Text → Result Bool
  pub share : Bool → Text → Result Text
  pub addr : Bytes
  pub current_dir : Result Text
  pub data_dir_ready : Result (Unit {0})

pub record Daemon (S Value : Type 0) : Type 0 where
  pub joiner : Joiner
  pub contacts_json : Json ContactsFile
  pub settings_json : Json StoredSettings
  pub share_json : Json ShareRecord
  pub node : Node S
  pub sources : Sources S
  pub fs : FileSystem
  pub settings_path : Result Text
  pub parse_ns : Text → Text ⊎ Text
  pub base64 : Text → Text
  pub endpoint_id : Text
  pub pid : ℕ
  pub params : Params Value
  pub to_value : Reply → Result Value
  pub draws : ℕ → Draws

-- The state that the methods run on, with the tasks that they spawned and the number of calls.
pub record Service (S : Type 0) : Type 0 where
  pub app : Held AppState
  pub node : S
  pub spawned : List ShareRecord
  pub calls : ℕ

abbrev pub Handler : Type 0 → Type 0 → Type 0
Handler S Value = Value → Service S → Result Value × Service S

abbrev no_params : {Value : Type 0} → Value → Result (Unit {0})
no_params v = ok tt

module _ {S Value : Type 0} (d : Daemon S Value) where
  abbrev answered : {A : Type 0} → (A → Reply) → Result A → Result Value
  answered shown r = Errors.◌>>=◌ r λ a. d.to_value (shown a)

  -- A method that changes the state of the daemon.
  unfoldable pub changing :
      {P A : Type 0}
      → (Value → Result P)
      → (P → Action AppState A)
      → (P → A → Reply)
      → Handler S Value
  changing parse m shown v s = elim (parse v) [
    | ok p ↦ let (r, app) = m p s.app in (answered (shown p) r, record s { app = app })
    | err e ↦ (err e, s)
    | panic ↦ (panic, s)
  ]

  -- A method that only looks at the state.
  unfoldable pub looking :
      {P A : Type 0}
      → (Value → Result P)
      → (P → Service S → Result A)
      → (A → Reply)
      → Handler S Value
  looking parse m shown v s = elim (parse v) [
    | ok p ↦ (answered shown (m p s), s)
    | err e ↦ (err e, s)
    | panic ↦ (panic, s)
  ]

  -- A method that works on the node.
  unfoldable pub on_node :
      {P A : Type 0} → (Value → Result P) → (P → AppState → Io S A) → (A → Reply) → Handler S Value
  on_node parse m shown v s = elim (parse v) [
    | ok p ↦ let (r, node) = m p s.app.value s.node in (answered shown r, record s { node = node })
    | err e ↦ (err e, s)
    | panic ↦ (panic, s)
  ]

  unfoldable pub shares_list_handler : Handler S Value
  shares_list_handler v s =
      let (r, tasks) =
        shares_list d.node d.joiner.suite d.share_json (d.params.shares_list v) s.app.value
          s.node in
      (answered shares r, record s { spawned = s.spawned ++ tasks })
