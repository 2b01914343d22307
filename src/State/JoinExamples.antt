-- ===== src/State/JoinExamples.antt =====
-- A pairing with another daemon, and the start after it.
use shmark.Base.{◌≡◌, refl, ◌≤◌, codes, map, none, length, ◌++◌, leb→le}
use shmark.Errors.{Error, message, ok, err}
use shmark.Maps.{lookup, insert, collect_with}
use shmark.Disk.{read_to_string, write, set_mode}
use shmark.Paths
use shmark.Paths.{Surroundings, join}
use shmark.Identity
use shmark.Identity.{Identity, set_secret_perms}
use shmark.Device
use shmark.Device.{SignedDeviceCert, create_cert}
use shmark.Groups
use shmark.Settings
use shmark.Contacts
use shmark.Settings.{default_settings}
use shmark.Pairing
use shmark.Resolve.{trim}
use shmark.Dispatch.{in_groups, signal}
use shmark.Samples.{
  suite, messages, identity_json, groups_json, contacts_json, settings_json, code_postcard,
  plain_base64, me,
}
use shmark.Pairing.Code
use shmark.Pairing.Code.{PairCode, decode, decode-encode}
use shmark.Pairing.{validate_and_consume, validate, fresh}
use shmark.Pairing.Protocol.{pair_join, respond_with, gather_group_tickets, gather, ticket_of}
use shmark.Pairing.Protocol.Handshake.{CanPair, handshake}
use shmark.Dispatch.Devices.{
  devices_pair_join, adopt, save_identity, replace_stored_cert, import_tickets, import_ticket,
  ticket_parsed, with_cert,
}
use shmark.Dispatch.Devices.Stored.{Ready}
use shmark.Dispatch.Devices.Join.{join_refused_torn}
use shmark.State.{load_parts, boot_node, boot}
use shmark.State.Joined.{starter, over, pairing_takes_over}
use shmark.State.Runs.{
  moment, first_secret, first, pair_code, written_code, host, host_state, joiner, encoded, misled,
  wrong, before, issued, request, response, joined, after, renewed, second_end,
}

short_answer : length (encoded messages.response response) ≤ 65536
unfolding respond_with gather_group_tickets gather ticket_of Groups.load Groups.read_stored
    Groups.restore Groups.list lookup collect_with insert Identity.pubkey_hex Identity.pubkey_bytes
    read_to_string create_cert Identity.sign
short_answer = leb→le _ 65536 refl

can_pair :
    CanPair host code_postcard plain_base64 5 7 host_state first.device written_code
      (codes "me")
      pair_code
unfolding Code.encode Device.node_pubkey_hex validate_and_consume validate fresh lookup create_cert
    Identity.pubkey_hex Identity.pubkey_bytes Identity.sign respond_with
can_pair = record {
  code_decodes = decode-encode code_postcard plain_base64 pair_code written_code refl;
  question = encoded messages.request request;
  asked = refl;
  short_question = leb→le _ 65536 refl;
  good = refl;
  node_size = refl;
  cert = issued;
  issued = refl;
  payload = encoded messages.response response;
  encoded = refl;
  short_payload = short_answer;
}

join_done :
    devices_pair_join (over joiner host 5 7 host_state) written_code none before
    ≡ (ok joined, after)
unfolding devices_pair_join adopt save_identity replace_stored_cert import_tickets import_ticket
    ticket_parsed with_cert in_groups signal Paths.data_dir Paths.in_data_dir Paths.identity_path
    Paths.device_path join can_pair respond_with Identity.from_received_secret Identity.save
    Identity.pubkey_hex Identity.pubkey_bytes Identity.set_secret_perms Identity.sign
    Device.create_cert Device.node_pubkey_hex Device.load Device.parse Device.replace_cert
    Device.verify Device.verify_signature Device.save read_to_string write set_mode lookup insert
    gather_group_tickets gather ticket_of Groups.load Groups.read_stored Groups.restore Groups.list
    Groups.upsert Groups.save Groups.make_local_group collect_with trim
join_done =
    let e : (devices_pair_join (over joiner host 5 7 host_state) written_code none before).0
        ≡ ok joined =
      rw
        (handshake host code_postcard plain_base64 5 7 host_state first.device written_code
          (codes "me") pair_code can_pair refl).0
        refl in
    λ i. (e i, after)

host_ready : Ready (over joiner host 5 7 host_state) before
unfolding Paths.data_dir Paths.in_data_dir Paths.groups_state_path Paths.device_path join
    Device.load Device.parse read_to_string lookup create_cert Identity.pubkey_hex
    Identity.pubkey_bytes Identity.sign
host_ready = record {
  groups_at = refl;
  readable = λ p. refl;
  size = refl;
  device_path = codes "/d/device.json";
  device_at = refl;
  stored = refl;
}

second_start :
    boot
      (starter (over joiner host 5 7 host_state) contacts_json settings_json)
      (moment (codes "two") 9)
      (codes "other")
      after
    ≡ (ok renewed, second_end)
unfolding devices_pair_join adopt save_identity replace_stored_cert import_tickets import_ticket
    ticket_parsed with_cert in_groups signal Paths.data_dir Paths.in_data_dir Paths.identity_path
    Paths.device_path join can_pair respond_with Identity.from_received_secret Identity.save
    Identity.pubkey_hex Identity.pubkey_bytes Identity.set_secret_perms Identity.sign
    Device.create_cert Device.node_pubkey_hex Device.load Device.parse Device.replace_cert
    Device.verify Device.verify_signature Device.save read_to_string write set_mode lookup insert
    gather_group_tickets gather ticket_of Groups.load Groups.read_stored Groups.restore Groups.list
    Groups.upsert Groups.save Groups.make_local_group collect_with trim boot boot_node load_parts
    Paths.ensure_data_dir Paths.groups_state_path Paths.settings_path Paths.contacts_state_path
    Identity.load_or_create Identity.load Identity.parse Device.load_or_create Device.checked
    Contacts.load Settings.load_or_default Pairing.new
second_start =
    let e : (boot (starter (over joiner host 5 7 host_state) contacts_json settings_json)
          (moment (codes "two") 9) (codes "other") after).0
        ≡ ok renewed =
      rw
        (handshake host code_postcard plain_base64 5 7 host_state first.device written_code
          (codes "me") pair_code can_pair refl).0
        refl in
    λ i. (e i, second_end)

pairing_takes_over_example :
    (renewed.identity ≡ me)
    × (renewed.device ≡ record first.device { cert = issued })
    × (Device.verify suite issued ≡ ok tt)
    × (joined.imported_groups
        ≡ map
            (λ gt. gt.local_alias)
            (gather_group_tickets groups_json host.docs host.groups_state_path host_state.disk))
unfolding can_pair
pairing_takes_over_example =
    pairing_takes_over joiner host 5 7 host_state contacts_json settings_json written_code none
      pair_code before after second_end joined (moment (codes "two") 9) (codes "other") renewed
      can_pair refl host_ready join_done second_start

misled_ready : Ready misled before
unfolding Paths.data_dir Paths.in_data_dir Paths.groups_state_path Paths.device_path join
    Device.load Device.parse read_to_string lookup create_cert Identity.pubkey_hex
    Identity.pubkey_bytes Identity.sign
misled_ready = record {
  groups_at = refl;
  readable = λ p. refl;
  size = refl;
  device_path = codes "/d/device.json";
  device_at = refl;
  stored = refl;
}

abbrev refusal : Error
refusal = message (
    codes "cert's node_pubkey "
    ++ suite.node_public (codes "other")
    ++ codes " does not match this device's "
    ++ suite.node_public first_secret)

misled_answer :
    pair_join suite messages code_postcard plain_base64 misled.net written_code
      (Device.node_pubkey_hex suite first.device)
      (codes "me")
    ≡ ok wrong
unfolding pair_join Code.decode respond_with Device.verify Device.verify_signature create_cert
    Identity.pubkey_hex Identity.pubkey_bytes Identity.sign Device.node_pubkey_hex
misled_answer = refl

misled_secret :
    Identity.from_received_secret suite.hex wrong.identity_secret_hex wrong.identity_display_name
      wrong.identity_created_at
    ≡ ok me
unfolding respond_with Identity.from_received_secret
misled_secret = refl

misled_saved : (save_identity misled me before).0 ≡ ok tt
unfolding save_identity Paths.data_dir Paths.in_data_dir Paths.identity_path join Identity.save
    Identity.set_secret_perms write set_mode lookup insert
misled_saved = refl

misled_refused : (Device.replace_cert suite wrong.signed_cert first.device).0 ≡ err refusal
unfolding respond_with Device.verify Device.verify_signature create_cert Device.replace_cert
    Identity.pubkey_hex Identity.pubkey_bytes Identity.sign Device.node_pubkey_hex
misled_refused = refl

misled_identity_at : Paths.identity_path misled.surroundings ≡ ok (codes "/d/identity.json")
unfolding Paths.data_dir Paths.in_data_dir Paths.identity_path join
misled_identity_at = refl

join_refused_torn_example :
    let torn = devices_pair_join misled written_code none before in
    (torn.0 ≡ err refusal)
    × (torn.1.value ≡ first)
    × (Device.load suite (codes "/d/device.json") torn.1.disk ≡ ok first.device)
    × (Identity.load suite.hex identity_json (codes "/d/identity.json") torn.1.disk ≡ ok me)
unfolding misled_ready
join_refused_torn_example =
    join_refused_torn misled written_code none before wrong me refusal (codes "/d/identity.json")
      misled_ready misled_identity_at misled_answer misled_secret misled_saved misled_refused
