-- ===== src/Contacts.antt =====
-- crates/shmark-core/src/contacts.rs: the contact book and the routing notes, kept in memory and in
-- one file.
pub mod Valid
pub mod Effects
pub mod Durable
mod Examples
use shmark.Base.{
  ℕ, Text, codes, ◌==◌, ◌++◌, text_leb, Option, none, some, Bool, List, [], ◌∷◌, filter, length,
  sort_by, if◌then◌else◌,
}
use shmark.Errors
use shmark.Errors.{
  Result, ok, err, message, no_match, ambiguous, serde, ok_or, expect, with_context,
}
use shmark.Maps.{Map, lookup, contains_key, values, insert_ordered, remove, update, collect_with}
use shmark.Maps.Keyed.{with_keys}
use shmark.Disk.{Disk, exists, read_to_string}
use shmark.Json.{Json}
use shmark.Action.{Action, pure, lift, ◌>>=◌, ◌>>◌, this, assign, write_file}

pub record Contact : Type 0 where
  pub identity_pubkey : Text
  pub display_name : Text
  pub note : Option Text
  pub added_at : ℕ

pub record ContactsFile : Type 0 where
  pub contacts : List Contact
  pub group_notes : Map Text

pub record Contacts : Type 0 where
  pub path : Text
  pub by_pubkey : Map Contact
  pub group_notes : Map Text

abbrev named : Text → Contact → Bool
named q c = c.display_name == q

choose : Text → List Contact → Result Text
choose q [] = err (no_match (codes "contact") q)
choose q (c ∷ []) = ok c.identity_pubkey
choose q (c ∷ c' ∷ rest) = err (ambiguous (length (c ∷ c' ∷ rest)) (codes "contact") q)

pub resolve_key : Text → Contacts → Result Text
unfolding choose
resolve_key q s =
    if contains_key q s.by_pubkey then ok q else choose q (filter (named q) (values s.by_pubkey))

-- `self.by_pubkey[&key]` panics on a missing key.
pub resolve : Text → Contacts → Result Contact
resolve q s = Errors.◌>>=◌ (resolve_key q s) (λ key. expect (lookup key s.by_pubkey))

unfoldable pub list : Contacts → List Contact
list s = sort_by (λ a b. text_leb a.display_name b.display_name) (values s.by_pubkey)

pub group_note : Text → Contacts → Option Text
group_note alias s = lookup alias s.group_notes

pub restore : Text → ContactsFile → Contacts
restore path stored = record {
  path = path;
  by_pubkey = collect_with insert_ordered [] (with_keys (λ c. c.identity_pubkey) stored.contacts);
  group_notes = stored.group_notes;
}

-- `entry(..).or_insert(..)`, then the assignment of the name.
pub upserted : ℕ → Text → Text → Option Contact → Contact
upserted now pubkey name none = record {
  identity_pubkey = pubkey;
  display_name = name;
  note = none;
  added_at = now;
}
upserted now pubkey name (some c) = record c { display_name = name }

module _ (json : Json ContactsFile) where
  unfoldable pub read_stored : Text → Disk → Result ContactsFile
  read_stored path d =
      Errors.◌>>=◌ (with_context (codes "read contacts " ++ path) (read_to_string path d))
        (λ s. with_context (codes "parse contacts " ++ path) (ok_or serde (json.from_str s)))

  unfoldable pub load : Text → Disk → Result Contacts
  load path d =
      if exists path d
      then Errors.◌>>=◌ (read_stored path d) (λ stored. ok (restore path stored))
      else ok (record { path = path; by_pubkey = []; group_notes = [] })

  pub save : Action Contacts Unit
  save = do
    self ← this
    s ← lift (
        ok_or serde (
          json.to_string
            (record { contacts = values self.by_pubkey; group_notes = self.group_notes })))
    write_file self.path s

  pub upsert : ℕ → Text → Text → Action Contacts Contact
  unfolding upserted
  upsert now identity_pubkey display_name = do
    self ← this
    let entry = upserted now identity_pubkey display_name (lookup identity_pubkey self.by_pubkey)
    assign (record self { by_pubkey = insert_ordered identity_pubkey entry self.by_pubkey })
    save
    pure entry

  pub remove_contact : Text → Action Contacts Contact
  remove_contact q = do
    self ← this
    key ← lift (resolve_key q self)
    removed ←
        lift (ok_or (message (codes "contact disappeared mid-remove")) (lookup key self.by_pubkey))
    assign (record self { by_pubkey = remove key self.by_pubkey })
    save
    pure removed

  pub set_contact_note : Text → Option Text → Action Contacts Contact
  set_contact_note q new_note = do
    self ← this
    key ← lift (resolve_key q self)
    entry ← lift (ok_or (message (codes "contact gone mid-set")) (lookup key self.by_pubkey))
    assign
        (record self { by_pubkey = update key (record entry { note = new_note }) self.by_pubkey })
    save
    pure (record entry { note = new_note })

  pub noted : Text → Option Text → Map Text → Map Text
  noted alias none m = remove alias m
  noted alias (some n) m = insert_ordered alias n m

  pub set_group_note : Text → Option Text → Action Contacts Unit
  unfolding noted
  set_group_note group_alias new_note = do
    self ← this
    assign (record self { group_notes = noted group_alias new_note self.group_notes })
    save
