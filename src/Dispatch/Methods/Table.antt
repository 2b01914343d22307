-- ===== src/Dispatch/Methods/Table.antt =====
-- The `match` of `dispatch`, as a table from names to methods.
use shmark.Base.{◌+◌, Text, codes, ◌++◌, none, some, [], ◌∷◌}
use shmark.Errors.{Result, ok, err, message}
use shmark.Maps.{Map, lookup}
use shmark.Contacts
use shmark.Contacts.{Contact, ContactsFile}
use shmark.Dispatch.{
  resolve_recipient, groups_new, groups_join, groups_mark_seen, groups_rename, groups_remove,
  groups_set_note, contacts_upsert, contacts_remove, contacts_set_note, settings_set, daemon_stop,
  paths_resolve, context_dump,
}
use shmark.Dispatch.Devices.{
  daemon_status, identity_show, devices_list, devices_pair_create, devices_pair_join,
}
use shmark.Dispatch.Sharing.{
  groups_list, groups_share_code, share_create, share_get_bytes, share_download,
}
use shmark.Dispatch.Methods.{
  Reply, Draws, Daemon, Service, Handler, no_params, changing, looking, on_node,
  shares_list_handler, settings_get,
}

module _ {S Value : Type 0} (d : Daemon S Value) where
  unfoldable pub identity_methods : Draws → Map (Handler S Value)
  identity_methods w =
      (
        codes "identity_show",
        looking d no_params (λ p s. ok (identity_show d.joiner.suite d.endpoint_id s.app.value))
            Reply.identity,
      )
      ∷ (
        codes "daemon_status",
        looking d no_params (λ p s. ok (daemon_status d.pid w.now s.app.value)) Reply.status,
      )
      ∷ (codes "daemon_stop", changing d no_params (λ p. daemon_stop) (λ p a. Reply.stopping))
      ∷ []

  unfoldable pub group_methods : Draws → Map (Handler S Value)
  group_methods w =
      (
        codes "groups_new",
        changing d d.params.groups_new
            (λ alias.
              groups_new d.joiner.groups_json d.contacts_json d.settings_json w.now w.created alias)
            (λ p g. Reply.group g),
      )
      ∷ (
        codes "groups_list",
        looking d no_params
            (λ p s. groups_list d.node d.joiner.suite d.share_json s.app.value s.node) Reply.groups,
      )
      ∷ (
        codes "groups_mark_seen",
        changing d d.params.groups_mark_seen
            (λ q. groups_mark_seen d.joiner.groups_json d.contacts_json d.settings_json w.now q)
            (λ p g. Reply.group g),
      )
      ∷ (
        codes "groups_share_code",
        looking d d.params.groups_share_code
            (λ p s. groups_share_code d.parse_ns w.opened w.share p.0 p.1 s.app.value)
            Reply.share_code,
      )
      ∷ (
        codes "groups_join",
        changing d d.params.groups_join
            (λ p.
              groups_join d.joiner.groups_json d.contacts_json d.settings_json w.now w.import p.0
                p.1)
            (λ p g. Reply.group g),
      )
      ∷ (
        codes "groups_rename",
        changing d d.params.groups_rename
            (λ p. groups_rename d.joiner.groups_json d.contacts_json d.settings_json p.0 p.1)
            (λ p g. Reply.group g),
      )
      ∷ (
        codes "groups_remove",
        changing d d.params.groups_remove
            (λ q. groups_remove d.joiner.groups_json d.contacts_json d.settings_json q)
            (λ p g. Reply.group g),
      )
      ∷ []

  unfoldable pub share_methods : Draws → Map (Handler S Value)
  share_methods w =
      (
        codes "paths_resolve",
        looking d d.params.paths_resolve (λ raw s. ok (paths_resolve d.fs raw s.app.value))
            Reply.resolution,
      )
      ∷ (
        codes "settings_get",
        looking d no_params (λ p s. ok (settings_get d.fs s.app.value)) Reply.all_settings,
      )
      ∷ (
        codes "settings_set",
        changing d d.params.settings_set
            (λ c.
              settings_set d.joiner.groups_json d.contacts_json d.settings_json w.data_dir_ready
                d.settings_path c)
            (λ p s. Reply.new_settings s),
      )
      ∷ (
        codes "share_create",
        on_node d d.params.share_create
            (λ p.
              share_create d.node d.joiner.suite d.share_json d.sources w.uuid w.now p.0 p.1 p.2
                p.3)
            Reply.share,
      )
      ∷ (codes "shares_list", shares_list_handler d)
      ∷ (
        codes "share_get_bytes",
        on_node d d.params.share_get_bytes
            (λ p. share_get_bytes d.node d.joiner.suite d.share_json d.sources d.base64 p.0 p.1 p.2)
            Reply.content,
      )
      ∷ (
        codes "share_download",
        on_node d d.params.share_download
            (λ p.
              share_download d.node d.joiner.suite d.share_json d.sources w.current_dir p.0 p.1 p.2)
            Reply.written,
      )
      ∷ []

  unfoldable pub device_methods : Draws → Map (Handler S Value)
  device_methods w =
      (
        codes "devices_pair_create",
        changing d no_params
            (λ p.
              devices_pair_create d.joiner.suite d.joiner.postcard d.joiner.base64 w.random w.clock
                w.addr)
            (λ p o. Reply.offer o),
      )
      ∷ (
        codes "devices_pair_join",
        changing d d.params.devices_pair_join (λ p. devices_pair_join d.joiner p.0 p.1)
            (λ p o. Reply.joined o),
      )
      ∷ (
        codes "devices_list",
        looking d no_params (λ p s. ok (devices_list d.joiner.suite s.app.value)) Reply.devices,
      )
      ∷ []

  unfoldable pub contact_methods : Draws → Map (Handler S Value)
  contact_methods w =
      (
        codes "contacts_list",
        looking d no_params (λ p s. ok (Contacts.list s.app.value.contacts)) Reply.contacts,
      )
      ∷ (
        codes "contacts_upsert",
        changing d d.params.contacts_upsert
            (λ p.
              contacts_upsert d.joiner.groups_json d.contacts_json d.settings_json w.now p.0 p.1)
            (λ p c. Reply.contact c),
      )
      ∷ (
        codes "contacts_remove",
        changing d d.params.contacts_remove
            (λ q. contacts_remove d.joiner.groups_json d.contacts_json d.settings_json q)
            (λ p c. Reply.contact c),
      )
      ∷ (
        codes "contacts_set_note",
        changing d d.params.contacts_set_note
            (λ p. contacts_set_note d.joiner.groups_json d.contacts_json d.settings_json p.0 p.1)
            (λ p c. Reply.contact c),
      )
      ∷ (
        codes "groups_set_note",
        changing d d.params.groups_set_note
            (λ p. groups_set_note d.joiner.groups_json d.contacts_json d.settings_json p.0 p.1)
            (λ p alias. Reply.noted alias),
      )
      ∷ (
        codes "context_dump",
        looking d no_params
            (λ p s. context_dump d.joiner.suite.hex d.joiner.suite.dalek s.app.value)
            Reply.markdown,
      )
      ∷ (
        codes "resolve_recipient",
        looking d d.params.resolve_recipient (λ q s. resolve_recipient q s.app.value)
            Reply.recipient,
      )
      ∷ []

  unfoldable pub methods : Draws → Map (Handler S Value)
  unfolding identity_methods group_methods share_methods device_methods contact_methods
  methods w =
      identity_methods w
      ++ (group_methods w ++ (share_methods w ++ (device_methods w ++ contact_methods w)))

  -- Each call draws from its surroundings anew.
  unfoldable pub dispatch : Text → Value → Service S → Result Value × Service S
  unfolding methods
  dispatch method params s =
      let called = record s { calls = s.calls + 1 } in
      elim (lookup method (methods (d.draws s.calls))) [
        | none ↦ (err (message (codes "unknown method: " ++ method)), called)
        | some run ↦ run params called
      ]
