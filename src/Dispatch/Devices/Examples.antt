-- ===== src/Dispatch/Devices/Examples.antt =====
-- What the methods on this device answer in a small state.
use shmark.Base.{codes, ◌-◌, ◌*◌, ◌^◌, ◌≡◌, refl, List, arith, ltb, false, [], ◌∷◌, ◌++◌}
use shmark.Errors.{ok}
use shmark.Action.{Held}
use shmark.Samples.{
  suite, plain_base64, code_postcard, me, laptop, two_groups, one_contact, empty_disk,
}
use shmark.Identity
use shmark.Device
use shmark.Settings.{default_settings}
use shmark.Pairing.{new, mint_token, validate_and_consume}
use shmark.Pairing.Code
use shmark.Dispatch.{AppState}
use shmark.Dispatch.Devices.{
  PairOffer, mint, daemon_status, identity_show, devices_list, devices_pair_create,
}
use shmark.Dispatch.Devices.Offer.{offer_admits_once}
use shmark.Pairing.Tokens.{Event, minted, tried, after, is_good}

abbrev state : AppState
state = record {
  identity = me;
  device = laptop;
  groups = two_groups;
  contacts = one_contact;
  settings = default_settings;
  pairing = record { pending = [] };
  started_at = 40;
  signals = [];
}

abbrev start : Held AppState
start = record { value = state; disk = empty_disk }

status_shown : daemon_status 7 100 state ≡ record { pid = 7; started_at = 40; uptime_secs = 60 }
unfolding daemon_status
status_shown = refl

identity_shown : (identity_show suite (codes "node") state).display_name ≡ codes "me"
unfolding identity_show
identity_shown = refl

one_device :
    (devices_list suite state)
    ≡ record {
      node_pubkey = Device.node_pubkey_hex suite laptop;
      identity_pubkey = Identity.pubkey_hex suite.hex suite.dalek me;
      cert_created_at = 0;
    }
      ∷ []
unfolding devices_list
one_device = refl

abbrev offer : PairOffer
offer = record {
  code = codes "shpair-" ++ ((4 ∷ codes "addr") ++ (5 ∷ codes "token"));
  expires_in_secs = 300;
}

abbrev offering : Held AppState
offering = record start {
  value = record state { pairing = (mint_token suite.hex (codes "token") 3 new).1 };
}

offered :
    devices_pair_create suite code_postcard plain_base64 (codes "token") 3 (codes "addr") start
    ≡ (ok offer, offering)
unfolding devices_pair_create mint mint_token Code.encode new
offered = refl

none_minted : state.pairing ≡ new
unfolding new
none_minted = refl

-- Another token is minted and tried between the offer and the use of its token.
abbrev between : List Event
between = tried (codes "other") 5 ∷ minted (codes "other") 4 ∷ []

abbrev until : List Event
until = between ++ minted (codes "token") 3 ∷ []

offer_admits_once_example :
    (Code.decode code_postcard plain_base64 offer.code
      ≡ ok (record { addr = codes "addr"; token = codes "token" }))
    × (offering.value.pairing ≡ after suite.hex (minted (codes "token") 3 ∷ []))
    × ((validate_and_consume (codes "token") 6 (after suite.hex until)).0
        ≡ ltb (6 - 3) (300 * 10 ^ 9))
    × ((validate_and_consume
          (codes "token")
          9
          (after suite.hex (tried (codes "token") 6 ∷ until))).0
        ≡ false)
    × ((validate_and_consume (codes "third") 3 offering.value.pairing).0
        ≡ is_good suite.hex (codes "third") 3 [])
offer_admits_once_example =
    offer_admits_once suite code_postcard plain_base64 [] between [] (codes "token") 3 6 9
      (codes "addr") (codes "third") start offering offer none_minted (refl, (refl, tt)) tt
      (ground arith, (ground arith, (ground arith, (ground arith, tt)))) (ground arith) refl offered
