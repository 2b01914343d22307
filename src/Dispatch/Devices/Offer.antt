-- ===== src/Dispatch/Devices/Offer.antt =====
-- What the code that `devices_pair_create` gives out is good for.
use shmark.Base.{
  ℕ, ◌-◌, ◌*◌, ◌/◌, ◌^◌, ◌≤◌, Text, ◌==◌, eq_refl, ◌≡◌, refl, ap, sym, ◌∙◌, none, false, ltb, List,
  [], ◌∷◌, ◌++◌, All, Bool-cases, inl, inr, arith,
}
use shmark.Errors.{Result, ok, ok-injective}
use shmark.Json.{Json}
use shmark.Action.{Held, ran_lift}
use shmark.Crypto.{Bytes}
use shmark.Device.{Suite}
use shmark.Pairing.{token_ttl, mint_token, validate_and_consume}
use shmark.Pairing.Tokens.{
  Event, minted, tried, latest, InOrder, after, is_good, mint_time, validate_exact,
}
use shmark.Pairing.Code
use shmark.Pairing.Code.{PairCode, Base64, decode-encode}
use shmark.Dispatch.{AppState}
use shmark.Dispatch.Devices.{PairOffer, mint, devices_pair_create}

module _ (k : Suite) (postcard : Json PairCode) (base64 : Base64) where
  -- An event of another token, and one that does not mint this one.
  abbrev pub Apart : Text → Event → Type 0
  Apart token (minted b t) = (k.hex.encode b == token) ≡ false
  Apart token (tried j t) = (j == token) ≡ false

  abbrev pub NotMinted : Text → Event → Type 0
  NotMinted token (minted b t) = (k.hex.encode b == token) ≡ false
  NotMinted token (tried j t) = Unit

  mint_time-Apart :
      (token : Text) (h past : List Event)
      → All (Apart token) h
      → mint_time k.hex token (h ++ past) ≡ mint_time k.hex token past
  mint_time-Apart token [] past a = refl
  mint_time-Apart token (minted b t ∷ h) past a =
      rw (mint_time, a.0) (mint_time-Apart token h past a.1)
  mint_time-Apart token (tried j t ∷ h) past a =
      rw (mint_time, a.0) (mint_time-Apart token h past a.1)

  mint_time-NotMinted :
      (token : Text) (h : List Event) (later : ℕ) (past : List Event)
      → All (NotMinted token) h
      → mint_time k.hex token (h ++ tried token later ∷ past) ≡ none
  mint_time-NotMinted token [] later past a = rw (mint_time, eq_refl token) refl
  mint_time-NotMinted token (minted b t ∷ h) later past a =
      rw (mint_time, a.0) (mint_time-NotMinted token h later past a.1)
  mint_time-NotMinted token (tried j t ∷ h) later past a =
      let rest = mint_time-NotMinted token h later past a.1 in
      elim (Bool-cases (j == token)) [
        | inl same ↦ rw (mint_time, same) refl
        | inr other ↦ rw (mint_time, other) rest
      ]

  InOrder-append : (h past : List Event) → InOrder (h ++ past) → InOrder past
  InOrder-append [] past o = o
  InOrder-append (e ∷ h) past o = InOrder-append h past o.1

  -- What a call that gave out a code did.
  record Offered (random : Bytes) (clock : ℕ) (addr : Bytes) (s f : Held AppState) (o : PairOffer)
      : Type 0 where
    code :
        Code.encode postcard base64 (record { addr = addr; token = k.hex.encode random })
        ≡ ok o.code
    lifetime : o.expires_in_secs ≡ token_ttl / 10 ^ 9
    host : f.value.pairing ≡ (mint_token k.hex random clock s.value.pairing).1

  pair_create-Offered :
      (random : Bytes) (clock : ℕ) (addr : Bytes) (s f : Held AppState) (o : PairOffer)
      → devices_pair_create k postcard base64 random clock addr s ≡ (ok o, f)
      → Offered random clock addr s f o
  unfolding devices_pair_create mint mint_token
  pair_create-Offered random clock addr s f o h =
      let (code, encoded, done) =
        ran_lift (Code.encode postcard base64 (record { addr = addr; token = k.hex.encode random }))
          _ _ f o h in
      let same : (record { code = code; expires_in_secs = token_ttl / 10 ^ 9 }) ≡ o =
        ok-injective (ap (λ (p : Result PairOffer × Held AppState). p.0) done) in
      record {
        code = encoded ∙ ap (λ (x : PairOffer). ok x.code) same;
        lifetime = sym (ap (λ (x : PairOffer). x.expires_in_secs) same);
        host = sym (ap (λ (p : Result PairOffer × Held AppState). p.1.value.pairing) done);
      }

  -- A code that `devices_pair_create` gives out names the address and a token. However many events of
  -- other tokens come between, the host accepts that token at its first use exactly if less time has
  -- passed than the answer says, and refuses it at any later time, whatever comes between, unless the
  -- same token is minted again. Other tokens are as good as they were. This is for every history of the
  -- host, and a clock that does not run backwards.
  pub offer_admits_once :
      (past between rest : List Event) (random : Bytes) (clock later again : ℕ) (addr : Bytes)
      (other : Text) (s f : Held AppState) (o : PairOffer)
      → let token = k.hex.encode random in
        let offered = minted random clock ∷ past in
        let used = rest ++ tried token later ∷ (between ++ offered) in
        s.value.pairing ≡ after k.hex past
        → All (Apart token) between
        → All (NotMinted token) rest
        → InOrder used
        → latest used ≤ again
        → (token == other) ≡ false
        → devices_pair_create k postcard base64 random clock addr s ≡ (ok o, f)
        → (Code.decode postcard base64 o.code ≡ ok (record { addr = addr; token = token }))
          × (f.value.pairing ≡ after k.hex offered)
          × ((validate_and_consume token later (after k.hex (between ++ offered))).0
              ≡ ltb (later - clock) (o.expires_in_secs * 10 ^ 9))
          × ((validate_and_consume token again (after k.hex used)).0 ≡ false)
          × ((validate_and_consume other clock f.value.pairing).0 ≡ is_good k.hex other clock past)
  offer_admits_once past between rest random clock later again addr other s f o here apart fresh
        order m differ h =
      let g = pair_create-Offered random clock addr s f o h in
      let offered : List Event = minted random clock ∷ past in
      let token = k.hex.encode random in
      let until = between ++ offered in
      let in_use : InOrder (tried token later ∷ until) =
        InOrder-append rest (tried token later ∷ until) order in
      let at_offer : InOrder offered = InOrder-append between offered in_use.1 in
      let held : f.value.pairing ≡ after k.hex offered =
        g.host ∙ ap (λ p. (mint_token k.hex random clock p).1) here in
      (
        decode-encode postcard base64 (record { addr = addr; token = token }) o.code g.code,
        held,
        rw g.lifetime (
            validate_exact k.hex until token later in_use.1 in_use.0
            ∙ rw (is_good, mint_time-Apart token between offered apart, mint_time, eq_refl token)),
        validate_exact k.hex (rest ++ tried token later ∷ until) token again order m
            ∙ rw (is_good, mint_time-NotMinted token rest later until fresh),
        rw held (
            validate_exact k.hex offered other clock at_offer (omega arith)
            ∙ rw (is_good, mint_time, differ)),
      )
