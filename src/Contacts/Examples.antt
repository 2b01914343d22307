-- ===== src/Contacts/Examples.antt =====
-- Runs of the methods on a small contact book.
use shmark.Base.{codes, ◌≡◌, ◌↔◌, refl}
use shmark.Errors.{ok}
use shmark.Maps.{lookup, insert_ordered}
use shmark.Disk.{write}
use shmark.Action.{Held}
use shmark.Samples.{contacts_json, one_contact, ann, empty_disk}
use shmark.Contacts.{Contacts, resolve, save, upsert, upserted}
use shmark.Contacts.Valid.{IsValid}
use shmark.Contacts.Durable.{Call, upsert_call, perform, Durable, contacts-Durable}
use shmark.Contacts.Effects.{Target, resolve_contact_exact}

one_contact-IsValid : IsValid one_contact
one_contact-IsValid = record { keyed = (refl, tt); ordered = (tt, tt) }

abbrev start : Held Contacts
start = record { value = one_contact; disk = empty_disk }

abbrev adding : Call
adding = upsert_call 4 (codes "k0") (codes "bob")

adding_done : (perform contacts_json adding start).0 ≡ ok tt
unfolding upsert upserted save insert_ordered lookup write
adding_done = refl

contacts-Durable_example : Durable contacts_json (perform contacts_json adding start).1
contacts-Durable_example =
    contacts-Durable contacts_json adding start one_contact-IsValid refl adding_done

resolve_contact_exact_example :
    (resolve (codes "ann") one_contact ≡ ok ann) ↔ Target (codes "ann") one_contact ann
resolve_contact_exact_example =
    resolve_contact_exact (codes "ann") one_contact one_contact-IsValid ann
