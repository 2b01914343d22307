-- ===== src/Identity/Examples.antt =====
-- A first start and a second one.
use shmark.Base.{codes, ◌≡◌, refl}
use shmark.Errors.{ok}
use shmark.Maps.{lookup, insert}
use shmark.Disk.{write, set_mode}
use shmark.Action.{Held}
use shmark.Samples.{plain_hex, identity_json, me, empty_disk}
use shmark.Identity.{load_or_create, create, save, set_secret_perms}

abbrev start : Held {0} Unit
start = record { value = tt; disk = empty_disk }

created :
    (load_or_create plain_hex identity_json me.signing_key 1
      (codes "identity.json")
      (codes "me")
      start).0
    ≡ ok me
unfolding load_or_create create save set_secret_perms lookup insert write set_mode
created = refl
