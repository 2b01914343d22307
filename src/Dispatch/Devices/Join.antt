-- ===== src/Dispatch/Devices/Join.antt =====
-- How `devices_pair_join` ends: with the answer taken over, or with a certificate that is refused.
use shmark.Base.{Text, ◌≡◌, refl, sym, ◌∙◌, subst, or_else, Option}
use shmark.Errors.{Error, ok, err, ok-injective}
use shmark.Action.{Held, ran_lift}
use shmark.Paths
use shmark.Paths.Names.{device_path-ne-identity_path}
use shmark.Identity
use shmark.Identity.{Identity}
use shmark.Device
use shmark.Device.{Device, SignedDeviceCert, Suite}
use shmark.Device.Kept as DeviceKept
use shmark.Pairing.Protocol.{PairResponse, pair_join}
use shmark.Dispatch.{AppState}
use shmark.Dispatch.Devices.{
  Joiner, PairJoined, with_cert, replace_stored_cert, save_identity, adopt, devices_pair_join,
}
use shmark.Dispatch.Devices.Stored.{size_received, Ready, saved_identity}
use shmark.Dispatch.Devices.Adopting.{Adopted, adopt-Adopted}

module _ (j : Joiner) where
  -- What a join that succeeded had to go on.
  pub record Joined (code : Text) (name : Option Text) (s f : Held AppState) (out : PairJoined)
      : Type 0 where
    pub resp : PairResponse
    pub new_identity : Identity
    pub answered :
        pair_join j.suite j.messages j.postcard j.base64 j.net code
          (Device.node_pubkey_hex j.suite s.value.device)
          (or_else s.value.identity.display_name name)
        ≡ ok resp
    pub received :
        Identity.from_received_secret j.suite.hex resp.identity_secret_hex
          resp.identity_display_name resp.identity_created_at
        ≡ ok new_identity
    pub adopted : Adopted j resp new_identity s f out

  -- A join that succeeds on a ready daemon had an answer of the other device, and leaves on its disk
  -- the identity of the answer, and this device with the certificate of the answer, both in files
  -- that a start loads. It returns the aliases of all tickets in their order and asks for a reload;
  -- the identity and the device in memory are still the old ones.
  pub devices_pair_join_lem :
      (code : Text) (name : Option Text) (s f : Held AppState) (out : PairJoined)
      → Ready j s
      → devices_pair_join j code name s ≡ (ok out, f)
      → Joined code name s f out
  unfolding devices_pair_join
  devices_pair_join_lem code name s f out r h =
      let (resp, answered, h1) =
        ran_lift
          (pair_join j.suite j.messages j.postcard j.base64 j.net code
            (Device.node_pubkey_hex j.suite s.value.device)
            (or_else s.value.identity.display_name name))
          _ s f out h in
      let (id, received, h2) =
        ran_lift
          (Identity.from_received_secret j.suite.hex resp.identity_secret_hex
            resp.identity_display_name resp.identity_created_at)
          _ s f out h1 in
      record {
        resp = resp;
        new_identity = id;
        answered = answered;
        received = received;
        adopted =
            adopt-Adopted j resp id s f out r
              (size_received j.suite.hex resp.identity_secret_hex resp.identity_display_name
                resp.identity_created_at id received)
              h2;
      }

  kept_with_cert :
      (cert : SignedDeviceCert) (dev : Device) (path : Text) (s : Held AppState) (e : Error)
      → Paths.device_path j.surroundings ≡ ok path
      → Device.load j.suite path s.disk ≡ ok dev
      → (Device.replace_cert j.suite cert dev).0 ≡ err e
      → replace_stored_cert j cert s ≡ (err e, s)
  unfolding replace_stored_cert with_cert
  kept_with_cert cert dev path s e at loads refused = rw (at, loads, refused)

  -- If the answer's secret is an identity that can be saved, and the device refuses the answer's
  -- certificate, then the join fails with that refusal, but a start finds the answer's identity
  -- beside the old device: the state in memory and the device file are as before, and no reload is
  -- asked for.
  pub join_refused_torn :
      (code : Text) (name : Option Text) (s : Held AppState) (resp : PairResponse) (id : Identity)
      (e : Error) (path : Text)
      → (r : Ready j s) → Paths.identity_path j.surroundings ≡ ok path
      → pair_join j.suite j.messages j.postcard j.base64 j.net code
          (Device.node_pubkey_hex j.suite s.value.device)
          (or_else s.value.identity.display_name name)
        ≡ ok resp
      → Identity.from_received_secret j.suite.hex resp.identity_secret_hex
          resp.identity_display_name resp.identity_created_at
        ≡ ok id
      → (save_identity j id s).0 ≡ ok tt
      → (Device.replace_cert j.suite resp.signed_cert s.value.device).0 ≡ err e
      → let after = devices_pair_join j code name s in
        (after.0 ≡ err e)
        × (after.1.value ≡ s.value)
        × (Device.load j.suite r.device_path after.1.disk ≡ ok s.value.device)
        × (Identity.load j.suite.hex j.identity_json path after.1.disk ≡ ok id)
  unfolding devices_pair_join adopt
  join_refused_torn code name s resp id e path r at answered received done refused =
      let s1 : Held AppState = (save_identity j id s).1 in
      let (ip, identity_at, kept, same, others) =
        saved_identity j id s s1
          (size_received j.suite.hex resp.identity_secret_hex resp.identity_display_name
            resp.identity_created_at id received)
          r.readable (λ i. (done i, s1)) in
      let apart =
        device_path-ne-identity_path j.surroundings r.device_path ip r.device_at identity_at in
      let loads : Device.load j.suite r.device_path s1.disk ≡ ok s.value.device =
        DeviceKept.load-Untouched j.suite (others r.device_path (λ p. apart (sym p))) r.stored in
      let ends =
        kept_with_cert resp.signed_cert s.value.device r.device_path s1 e r.device_at loads
          refused in
      rw (answered, received, done, ends)
        (
          refl,
          same,
          loads,
          subst (λ p. Identity.load j.suite.hex j.identity_json p s1.disk ≡ ok id)
              (ok-injective (sym identity_at ∙ at)) kept.loads,
        )
