-- ===== src/Dispatch/Preserved.antt =====
-- Valid states of the daemon, and the methods on devices that keep them valid.
use shmark.Base.{
  ℕ, ◌+◌, ◌/◌, ◌^◌, Text, Option, or_else, false, List, [], ◌∷◌, inl, inr, sym, subst,
}
use shmark.Resolve.{trim}
use shmark.Errors.{Result-cases}
use shmark.Json.{Json}
use shmark.Crypto.{Bytes}
use shmark.Action.{Action, Held, pure, lift, ◌>>=◌}
use shmark.Paths
use shmark.Identity
use shmark.Identity.{Identity}
use shmark.Identity.Kept as IdentityKept
use shmark.Device
use shmark.Device.{SignedDeviceCert, Suite}
use shmark.Device.Kept as DeviceKept
use shmark.Groups
use shmark.Groups.{LocalGroup, StoredGroups, make_local_group}
use shmark.Groups.Valid as GroupsValid
use shmark.Contacts.Valid as ContactsValid
use shmark.Pairing.{token_ttl, mint_token}
use shmark.Pairing.Code
use shmark.Pairing.Code.{PairCode, Base64}
use shmark.Pairing.Protocol.{GroupTicket, PairResponse, pair_join}
use shmark.Dispatch.{AppState, in_groups, signal, Signal, reload_requested}
use shmark.Dispatch.Devices.{
  Joiner, PairOffer, PairJoined, mint, devices_pair_create, ticket_parsed, import_ticket,
  import_tickets, replace_stored_cert, save_identity, adopt, devices_pair_join, with_cert,
}

pub record IsValidState (a : AppState) : Type 0 where
  pub groups : GroupsValid.IsValid a.groups
  pub contacts : ContactsValid.IsValid a.contacts

abbrev pub Preserves : {A : Type 0} → Action AppState A → Type 0
Preserves m = (s : Held AppState) → IsValidState s.value → IsValidState (m s).1.value

pub then-Preserves :
    {A B : Type 0} (m : Action AppState A) (k : A → Action AppState B)
    → Preserves m
    → ((a : A) → Preserves (k a))
    → Preserves (m >>= k)
then-Preserves m k p q s v = elim (Result-cases (m s).0) [
  | inl (a, e) ↦ rw e (q a (m s).1 (p s v))
  | inr (inl (y, e)) ↦ rw e (p s v)
  | inr (inr e) ↦ rw e (p s v)
]

pub upsert-Preserves :
    (json : Json StoredGroups) (g : LocalGroup) → Preserves (in_groups (Groups.upsert json g))
unfolding in_groups
upsert-Preserves json g s v = record {
  groups =
      GroupsValid.upsert-IsValid json g (record { value = s.value.groups; disk = s.disk }) v.groups;
  contacts = v.contacts;
}

pub signal-Preserves : (x : Signal) → Preserves (signal x)
unfolding signal
signal-Preserves x s v = record { groups = v.groups; contacts = v.contacts }

module _ (k : Suite) (postcard : Json PairCode) (base64 : Base64) where
  pub pair_create-Preserves :
      (random : Bytes) (clock : ℕ) (addr : Bytes)
      → Preserves (devices_pair_create k postcard base64 random clock addr)
  unfolding devices_pair_create mint
  pair_create-Preserves random clock addr s v =
      then-Preserves {B = PairOffer}
        (lift (
          Code.encode postcard base64
            (record { addr = addr; token = (mint_token k.hex random clock s.value.pairing).0 })))
        (λ code. pure (record { code = code; expires_in_secs = token_ttl / 10 ^ 9 })) (λ t w. w)
        (λ code t w. w) (mint k random clock s).1
        (record { groups = v.groups; contacts = v.contacts })

module _ (j : Joiner) where
  ticket-Preserves : (round : ℕ) (gt : GroupTicket) → Preserves (import_ticket j round gt)
  unfolding import_ticket
  ticket-Preserves round gt =
      then-Preserves (lift (ticket_parsed gt.local_alias (j.parse_ticket (trim gt.ticket)))) _
        (λ s v. v)
        (λ ticket.
          then-Preserves (lift (j.import ticket)) _ (λ s v. v)
            (λ ns_id.
              then-Preserves
                (in_groups (
                  Groups.upsert j.groups_json
                    (make_local_group (j.now round) ns_id gt.local_alias false)))
                _ (upsert-Preserves j.groups_json _) (λ u s v. v)))

  import-Preserves : (round : ℕ) (gts : List GroupTicket) → Preserves (import_tickets j round gts)
  unfolding import_tickets
  import-Preserves round [] = λ s v. v
  import-Preserves round (gt ∷ gts) =
      then-Preserves (import_ticket j round gt) _ (ticket-Preserves round gt) (λ alias.
        then-Preserves (import_tickets j (round + 1) gts) _ (import-Preserves (round + 1) gts)
          (λ rest s v. v))

  identity-Preserves : (id : Identity) → Preserves (save_identity j id)
  unfolding save_identity
  identity-Preserves id =
      then-Preserves (lift (Paths.identity_path j.surroundings)) _ (λ s v. v)
        (λ path s v.
          subst IsValidState (sym (IdentityKept.value-save j.suite.hex j.identity_json id path s))
            v)

  cert-Preserves : (cert : SignedDeviceCert) → Preserves (replace_stored_cert j cert)
  unfolding replace_stored_cert
  cert-Preserves cert =
      then-Preserves (lift (Paths.device_path j.surroundings)) _ (λ s v. v)
        (λ path.
          then-Preserves (λ s. (Device.load j.suite path s.disk, s)) _ (λ s v. v)
            (λ device.
              then-Preserves (lift (with_cert j.suite cert device)) _ (λ s v. v)
                (λ changed s v.
                  subst IsValidState (sym (DeviceKept.value-save j.suite changed path s)) v)))

  adopt-Preserves : (resp : PairResponse) (id : Identity) → Preserves (adopt j resp id)
  unfolding adopt
  adopt-Preserves resp id = then-Preserves (save_identity j id) _ (identity-Preserves id) (λ u.
      then-Preserves (replace_stored_cert j resp.signed_cert) _ (cert-Preserves resp.signed_cert)
        (λ u'.
          then-Preserves (import_tickets j 0 resp.group_tickets) _
            (import-Preserves 0 resp.group_tickets)
            (λ imported.
              then-Preserves {B = PairJoined} (signal reload_requested)
                (λ u''. pure (record {
                  identity_pubkey = resp.identity_pubkey_hex;
                  imported_groups = imported;
                }))
                (signal-Preserves reload_requested) (λ u'' s v. v))))

  pub pair_join-Preserves :
      (code : Text) (name : Option Text) → Preserves (devices_pair_join j code name)
  unfolding devices_pair_join
  pair_join-Preserves code name s =
      then-Preserves
        (lift (
          pair_join j.suite j.messages j.postcard j.base64 j.net code
            (Device.node_pubkey_hex j.suite s.value.device)
            (or_else s.value.identity.display_name name)))
        _ (λ t v. v)
        (λ resp.
          then-Preserves
            (lift (
              Identity.from_received_secret j.suite.hex resp.identity_secret_hex
                resp.identity_display_name resp.identity_created_at))
            _ (λ t v. v) (λ id. adopt-Preserves resp id))
        s
