-- ===== src/Dispatch/Devices/Adopting.antt =====
-- What `devices_pair_join` leaves once it took over the answer of the other device.
use shmark.Base.{Text, ◌≡◌, ◌≢◌, sym, ap, ◌∙◌, subst, length, List, ◌∷◌, map}
use shmark.Errors.{ok, ok-injective}
use shmark.Action.{Held, ran}
use shmark.Paths
use shmark.Paths.Names.{
  device_path-ne-identity_path, identity_path-ne-groups_state_path,
  device_path-ne-groups_state_path,
}
use shmark.Identity.{Identity}
use shmark.Identity.Kept as IdentityKept
use shmark.Device.Kept as DeviceKept
use shmark.Pairing.Protocol.{PairResponse}
use shmark.Dispatch.{AppState, reload_requested, signal}
use shmark.Dispatch.Devices.{
  Joiner, PairJoined, replace_stored_cert, save_identity, import_tickets, adopt,
}
use shmark.Dispatch.Devices.Import.{Keeps, import_tickets-Keeps}
use shmark.Dispatch.Devices.Stored.{Ready, saved_identity, replaced_cert}

module _ (j : Joiner) where
  -- What the daemon has once it took over an answer: the identity and the certificate of the answer
  -- on the disk, the aliases of the tickets, and the old keys in memory.
  pub record Adopted (resp : PairResponse) (id : Identity) (s f : Held AppState) (out : PairJoined)
      : Type 0 where
    pub identity_path : Text
    pub device_path : Text
    pub identity_at : Paths.identity_path j.surroundings ≡ ok identity_path
    pub device_at : Paths.device_path j.surroundings ≡ ok device_path
    pub identity : IdentityKept.Kept j.suite.hex j.identity_json identity_path id f.disk
    pub device :
        DeviceKept.Kept j.suite device_path
          (record s.value.device { cert = resp.signed_cert })
          f.disk
    pub returned : out.identity_pubkey ≡ resp.identity_pubkey_hex
    pub imported : out.imported_groups ≡ map (λ gt. gt.local_alias) resp.group_tickets
    pub told : f.value.signals ≡ reload_requested ∷ s.value.signals
    pub same_identity : f.value.identity ≡ s.value.identity
    pub same_device : f.value.device ≡ s.value.device

  -- After the two keys were written, and before the tickets are imported.
  record Written (resp : PairResponse) (id : Identity) (s m : Held AppState) (r : Ready j s)
      : Type 0 where
    identity_path : Text
    identity_at : Paths.identity_path j.surroundings ≡ ok identity_path
    identity : IdentityKept.Kept j.suite.hex j.identity_json identity_path id m.disk
    device :
        DeviceKept.Kept j.suite r.device_path
          (record s.value.device { cert = resp.signed_cert })
          m.disk
    value : m.value ≡ s.value

  write-Written :
      (resp : PairResponse) (id : Identity) (s n m : Held AppState)
      → (r : Ready j s) → length id.signing_key ≡ 32
      → save_identity j id s ≡ (ok tt, n)
      → replace_stored_cert j resp.signed_cert n ≡ (ok tt, m)
      → Written resp id s m r
  write-Written resp id s n m r size saved replaced =
      let (ip, identity_at, kept, same, others) = saved_identity j id s n size r.readable saved in
      let apart =
        device_path-ne-identity_path j.surroundings r.device_path ip r.device_at identity_at in
      let before = others r.device_path (λ e. apart (sym e)) in
      let (device, same', others') =
        replaced_cert j resp.signed_cert s.value.device r.device_path n m r.size
          (λ p. rw before.readable (r.readable p)) r.device_at
          (DeviceKept.load-Untouched j.suite before r.stored) replaced in
      record {
        identity_path = ip;
        identity_at = identity_at;
        identity = IdentityKept.Kept-Untouched j.suite.hex j.identity_json (others' ip apart) kept;
        device = device;
        value = same' ∙ same;
      }

  imported-Keeps :
      (resp : PairResponse) (id : Identity) (s m t : Held AppState) (aliases : List Text)
      → (r : Ready j s) (w : Written resp id s m r)
      → import_tickets j 0 resp.group_tickets m ≡ (ok aliases, t)
      → Keeps w.identity_path m t
        × Keeps r.device_path m t
        × (aliases ≡ map (λ gt. gt.local_alias) resp.group_tickets)
  imported-Keeps resp id s m t aliases r w taken =
      let apart : (path : Text)
          → s.value.groups.state_path ≢ path
          → m.value.groups.state_path ≢ path =
        λ path differ. rw w.value differ in
      let (on_identity, names) =
        import_tickets-Keeps j w.identity_path 0 resp.group_tickets m t aliases
          (apart w.identity_path (
            identity_path-ne-groups_state_path j.surroundings s.value.groups.state_path
              w.identity_path r.groups_at w.identity_at))
          taken in
      let (on_device, _) =
        import_tickets-Keeps j r.device_path 0 resp.group_tickets m t aliases
          (apart r.device_path (
            device_path-ne-groups_state_path j.surroundings s.value.groups.state_path r.device_path
              r.groups_at r.device_at))
          taken in
      (on_identity, on_device, names)

  pub adopt-Adopted :
      (resp : PairResponse) (id : Identity) (s f : Held AppState) (out : PairJoined)
      → Ready j s
      → length id.signing_key ≡ 32
      → adopt j resp id s ≡ (ok out, f)
      → Adopted resp id s f out
  unfolding adopt signal
  adopt-Adopted resp id s f out r size h =
      let (u1, s1, saved, h1) = ran (save_identity j id) _ s f out h in
      let (u2, s2, replaced, h2) = ran (replace_stored_cert j resp.signed_cert) _ s1 f out h1 in
      let (aliases, s3, taken, h3) = ran (import_tickets j 0 resp.group_tickets) _ s2 f out h2 in
      let w = write-Written resp id s s1 s2 r size saved replaced in
      let (on_identity, on_device, names) = imported-Keeps resp id s s2 s3 aliases r w taken in
      let ending = ap (λ p. p.1) h3 in
      let answer = ok-injective (ap (λ p. p.0) h3) in
      record {
        identity_path = w.identity_path;
        device_path = r.device_path;
        identity_at = w.identity_at;
        device_at = r.device_at;
        identity =
            subst
              (λ (t : Held AppState).
                IdentityKept.Kept j.suite.hex j.identity_json w.identity_path id t.disk)
              ending
              (IdentityKept.Kept-Untouched j.suite.hex j.identity_json on_identity.disk w.identity);
        device =
            subst
              (λ (t : Held AppState).
                DeviceKept.Kept j.suite r.device_path
                  (record s.value.device { cert = resp.signed_cert }) t.disk)
              ending (DeviceKept.Kept-Untouched j.suite on_device.disk w.device);
        returned = sym (ap (λ (o : PairJoined). o.identity_pubkey) answer);
        imported = sym (ap (λ (o : PairJoined). o.imported_groups) answer) ∙ names;
        told =
            sym (ap (λ (t : Held AppState). t.value.signals) ending)
            ∙ ap (λ l. reload_requested ∷ l)
                (on_identity.signals ∙ ap (λ (v : AppState). v.signals) w.value);
        same_identity =
            sym (ap (λ (t : Held AppState). t.value.identity) ending)
            ∙ on_identity.identity
            ∙ ap (λ (v : AppState). v.identity) w.value;
        same_device =
            sym (ap (λ (t : Held AppState). t.value.device) ending)
            ∙ on_identity.device
            ∙ ap (λ (v : AppState). v.device) w.value;
      }
