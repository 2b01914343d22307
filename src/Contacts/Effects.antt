-- ===== src/Contacts/Effects.antt =====
-- What the methods change in the contact book, and what they leave alone.
use shmark.Base.{
  ℕ, Text, codes, ◌==◌, ◌≡◌, ◌≢◌, ◌↔◌, refl, some, none, Option, arith, if◌then◌else◌, List, [],
  ◌∷◌, text_leb, text_leb_total, text_leb_trans, IsSorted, sort_by-IsSorted, sort_by-perm,
}
use mathlib.Core.List.{Perm}
use shmark.Errors.{ok, panic}
use shmark.Maps.{lookup, values}
use shmark.Maps.Laws.{lookup-insert_ordered, lookup-remove}
use shmark.Maps.Ordered.{IsOrdered-Distinct}
use shmark.Maps.Search
use shmark.Json.{Json}
use shmark.Action.{Held}
use shmark.Contacts.{
  Contact, ContactsFile, Contacts, upsert, upserted, set_group_note, noted, resolve_key, resolve,
  choose, list, group_note,
}
use shmark.Contacts.Valid.{IsValid, value-save, value-upsert}

choose-Search :
    (q : Text) (l : List Contact)
    → choose q l
      ≡ Search.choose (λ c. c.identity_pubkey) (λ c. c.display_name) (codes "contact") q l
unfolding choose Search.choose
choose-Search q [] = refl
choose-Search q (x ∷ []) = refl
choose-Search q (x ∷ y ∷ rest) = refl

resolve-Search :
    (q : Text) (s : Contacts)
    → resolve q s
      ≡ Search.resolve
          (λ c. c.identity_pubkey)
          (λ c. c.display_name)
          (codes "contact")
          q
          s.by_pubkey
unfolding resolve resolve_key Search.resolve Search.resolve_key
resolve-Search q s = rw choose-Search

-- What a query means: the contact with that key, or, where no contact has it, the only contact with
-- that display name.
abbrev pub Target : Text → Contacts → Contact → Type 0
Target q s =
    Search.Target (λ c. c.identity_pubkey) (λ c. c.display_name) (codes "contact") q s.by_pubkey

-- In a valid contact book a query resolves to a contact exactly when the contact is what the query
-- means: the contact with that public key, or, where no contact has it, the only contact with that
-- display name.
pub resolve_contact_exact :
    (q : Text) (s : Contacts) → IsValid s → (x : Contact) → (resolve q s ≡ ok x) ↔ Target q s x
resolve_contact_exact q s v x =
    rw resolve-Search (
      Search.resolve_exact _ _ _ q s.by_pubkey v.keyed (IsOrdered-Distinct s.by_pubkey v.ordered) x)

-- In a valid contact book no query makes `resolve` panic on its index into the map.
pub resolve_contact-ne-panic : (q : Text) (s : Contacts) → IsValid s → resolve q s ≢ panic
resolve_contact-ne-panic q s v =
    rw resolve-Search (
      Search.resolve-ne-panic _ _ _ q s.by_pubkey v.keyed
        (IsOrdered-Distinct s.by_pubkey v.ordered))

-- `list` has the contacts of the book, in the order of their display names.
pub list-IsSorted :
    (s : Contacts)
    → IsSorted (λ a b. text_leb a.display_name b.display_name) (list s)
      × Perm (list s) (values s.by_pubkey)
unfolding list
list-IsSorted s = (
  sort_by-IsSorted (λ (a b : Contact). text_leb a.display_name b.display_name)
      (λ a b h. text_leb_total a.display_name b.display_name h)
      (λ a b c h k. text_leb_trans a.display_name b.display_name c.display_name h k)
      (values s.by_pubkey),
  sort_by-perm (λ (a b : Contact). text_leb a.display_name b.display_name) (values s.by_pubkey),
)

module _ (json : Json ContactsFile) (s : Held Contacts) where
  -- `upsert` of a new key adds a contact with no note and the time of the call. Of a known key it
  -- changes the display name, and keeps the note and the time. Every other entry is as before,
  -- whatever the disk did.
  pub lookup-upsert_contact :
      (now : ℕ) (pubkey name k : Text)
      → lookup k (upsert json now pubkey name s).1.value.by_pubkey ≡ (
          if pubkey == k
          then some (elim (lookup pubkey s.value.by_pubkey) [
            | none ↦ record {
              identity_pubkey = pubkey;
              display_name = name;
              note = none;
              added_at = now;
            }
            | some c ↦ record c { display_name = name }
          ])
          else lookup k s.value.by_pubkey)
  unfolding upserted
  lookup-upsert_contact now pubkey name k = rw (value-upsert, lookup-insert_ordered) (ground arith)

  -- After `set_group_note` the note of that alias is the one given, or none if it was cleared, and
  -- the notes of all other aliases are as before, whatever the disk did.
  pub group_note-set_group_note :
      (alias k : Text) (new_note : Option Text)
      → group_note k (set_group_note json alias new_note s).1.value
        ≡ (if alias == k then new_note else group_note k s.value)
  unfolding set_group_note noted group_note
  group_note-set_group_note alias k none = rw value-save (lookup-remove alias k s.value.group_notes)
  group_note-set_group_note alias k (some n) =
      rw value-save (lookup-insert_ordered alias k n s.value.group_notes)
