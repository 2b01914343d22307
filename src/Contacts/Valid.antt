-- ===== src/Contacts/Valid.antt =====
-- The invariant of the contact book, and that every method keeps it, whatever the disk does.
use shmark.Base.{
  ℕ, Text, ◌≡◌, refl, some, none, Option, [], ◌∷◌, arith, List, subst, ◌∙◌, Option-cases,
  Bool-cases, inl, inr,
}
use shmark.Errors.{ok, err, panic, Result-cases, ok-injective}
use shmark.Maps.{Map, lookup, insert_ordered, remove, update, collect_with}
use shmark.Maps.Ordered.{IsOrdered, insert_ordered-IsOrdered, remove-IsOrdered, update-IsOrdered}
use shmark.Maps.Keyed.{
  KeyedBy, with_keys, insert_ordered-KeyedBy, remove-KeyedBy, update-KeyedBy, key_of_lookup,
}
use shmark.Disk
use shmark.Disk.{Disk}
use shmark.Json.{Json}
use shmark.Action.{Held, ◌>>◌, pure}
use shmark.Contacts.{
  Contact, ContactsFile, Contacts, restore, read_stored, load, save, upsert, upserted,
  remove_contact, set_contact_note, set_group_note, resolve_key,
}

-- Each contact stands once, under its own key, and the entries are in the order of the keys.
pub record IsValid (s : Contacts) : Type 0 where
  pub keyed : KeyedBy (λ c. c.identity_pubkey) s.by_pubkey
  pub ordered : IsOrdered s.by_pubkey

collect-keeps :
    (m : Map Contact) (l : List Contact)
    → KeyedBy (λ c. c.identity_pubkey) m
    → IsOrdered m
    → KeyedBy
        (λ c. c.identity_pubkey)
        (collect_with insert_ordered m (with_keys (λ c. c.identity_pubkey) l))
      × IsOrdered (collect_with insert_ordered m (with_keys (λ c. c.identity_pubkey) l))
unfolding collect_with
collect-keeps m [] k d = (k, d)
collect-keeps m (c ∷ l) k d =
    collect-keeps (insert_ordered c.identity_pubkey c m) l
      (insert_ordered-KeyedBy (λ (x : Contact). x.identity_pubkey) c.identity_pubkey c m refl k)
      (insert_ordered-IsOrdered c.identity_pubkey c m d)

restore-IsValid : (path : Text) (stored : ContactsFile) → IsValid (restore path stored)
unfolding restore
restore-IsValid path stored =
    let (keyed, ordered) = collect-keeps [] stored.contacts tt tt in
    record { keyed = keyed; ordered = ordered }

-- The book after a change of the entry that `q` finds, and without it.
abbrev pub changed : Text → (Contact → Contact) → Contacts → Contacts
changed q change s = elim (resolve_key q s) [
  | ok key ↦ elim (lookup key s.by_pubkey) [
    | none ↦ s
    | some c ↦ record s { by_pubkey = update key (change c) s.by_pubkey }
  ]
  | err e ↦ s
  | panic ↦ s
]

abbrev pub removed : Text → Contacts → Contacts
removed q s = elim (resolve_key q s) [
  | ok key ↦ elim (lookup key s.by_pubkey) [
    | none ↦ s
    | some c ↦ record s { by_pubkey = remove key s.by_pubkey }
  ]
  | err e ↦ s
  | panic ↦ s
]

changed-IsValid :
    (q : Text) (change : Contact → Contact) (s : Contacts)
    → ((c : Contact) → (change c).identity_pubkey ≡ c.identity_pubkey)
    → IsValid s
    → IsValid (changed q change s)
changed-IsValid q change s same v = elim (Result-cases (resolve_key q s)) [
  | inl (key, e) ↦
      rw (e, changed)
        (elim (Option-cases (lookup key s.by_pubkey)) [
          | inl absent ↦ rw absent v
          | inr (c, found) ↦ rw found (record {
            keyed =
                update-KeyedBy (λ (x : Contact). x.identity_pubkey) key (change c) s.by_pubkey
                  (same c
                    ∙ key_of_lookup (λ (x : Contact). x.identity_pubkey) key c s.by_pubkey v.keyed
                        found)
                  v.keyed;
            ordered = update-IsOrdered key (change c) s.by_pubkey v.ordered;
          })
        ])
  | inr (inl (x, e)) ↦ rw (e, changed) v
  | inr (inr e) ↦ rw (e, changed) v
]

removed-IsValid : (q : Text) (s : Contacts) → IsValid s → IsValid (removed q s)
removed-IsValid q s v = elim (Result-cases (resolve_key q s)) [
  | inl (key, e) ↦
      rw (e, removed)
        (elim (Option-cases (lookup key s.by_pubkey)) [
          | inl absent ↦ rw absent v
          | inr (c, found) ↦ rw found (record {
            keyed = remove-KeyedBy (λ (x : Contact). x.identity_pubkey) key s.by_pubkey v.keyed;
            ordered = remove-IsOrdered key s.by_pubkey v.ordered;
          })
        ])
  | inr (inl (x, e)) ↦ rw (e, removed) v
  | inr (inr e) ↦ rw (e, removed) v
]

key-upserted :
    (now : ℕ) (pubkey name : Text) (m : Map Contact)
    → KeyedBy (λ c. c.identity_pubkey) m
    → (upserted now pubkey name (lookup pubkey m)).identity_pubkey ≡ pubkey
unfolding upserted
key-upserted now pubkey name m keyed = elim (Option-cases (lookup pubkey m)) [
  | inl missing ↦ rw missing
  | inr (c, found) ↦
      rw found (key_of_lookup (λ (x : Contact). x.identity_pubkey) pubkey c m keyed found)
]

-- The book after `upsert`.
abbrev pub with_upserted : ℕ → Text → Text → Contacts → Contacts
with_upserted now pubkey name s = record s {
  by_pubkey =
      insert_ordered pubkey (upserted now pubkey name (lookup pubkey s.by_pubkey)) s.by_pubkey;
}

pub with_upserted-IsValid :
    (now : ℕ) (pubkey name : Text) (s : Contacts)
    → IsValid s
    → IsValid (with_upserted now pubkey name s)
with_upserted-IsValid now pubkey name s v = record {
  keyed =
      insert_ordered-KeyedBy (λ (x : Contact). x.identity_pubkey) pubkey _ s.by_pubkey
        (key-upserted now pubkey name s.by_pubkey v.keyed) v.keyed;
  ordered = insert_ordered-IsOrdered pubkey _ s.by_pubkey v.ordered;
}

module _ (json : Json ContactsFile) where
  pub load-IsValid : (path : Text) (d : Disk) (s : Contacts) → load json path d ≡ ok s → IsValid s
  unfolding load
  load-IsValid path d s h = elim (Bool-cases (Disk.exists path d)) [
    | inl there ↦ elim (Result-cases (read_stored json path d)) [
      | inl (stored, e) ↦
          subst IsValid (ok-injective (rw (there, e) at h)) (restore-IsValid path stored)
      | inr (inl (x, e)) ↦ cc (rw (there, e) at h)
      | inr (inr e) ↦ cc (rw (there, e) at h)
    ]
    | inr missing ↦
        subst IsValid (ok-injective (rw missing at h)) (record { keyed = tt; ordered = tt })
  ]

  pub value-save : (s : Held Contacts) → (save json s).1.value ≡ s.value
  unfolding save
  value-save s = ground arith

  value-save_then : (x : Contact) (s : Held Contacts) → ((save json >> pure x) s).1.value ≡ s.value
  unfolding save
  value-save_then x s = ground arith

  pub value-upsert :
      (now : ℕ) (pubkey name : Text) (s : Held Contacts)
      → (upsert json now pubkey name s).1.value ≡ with_upserted now pubkey name s.value
  unfolding upsert
  value-upsert now pubkey name s = value-save_then _ _

  pub value-set_contact_note :
      (q : Text) (new_note : Option Text) (s : Held Contacts)
      → (set_contact_note json q new_note s).1.value
        ≡ changed q (λ c. record c { note = new_note }) s.value
  unfolding set_contact_note
  value-set_contact_note q new_note s = elim (Result-cases (resolve_key q s.value)) [
    | inl (key, e) ↦
        rw (e, changed)
          (elim (Option-cases (lookup key s.value.by_pubkey)) [
            | inl absent ↦ rw absent
            | inr (c, found) ↦ rw found (value-save_then _ _)
          ])
    | inr (inl (x, e)) ↦ rw (e, changed)
    | inr (inr e) ↦ rw (e, changed)
  ]

  pub value-remove_contact :
      (q : Text) (s : Held Contacts) → (remove_contact json q s).1.value ≡ removed q s.value
  unfolding remove_contact
  value-remove_contact q s = elim (Result-cases (resolve_key q s.value)) [
    | inl (key, e) ↦
        rw (e, removed)
          (elim (Option-cases (lookup key s.value.by_pubkey)) [
            | inl absent ↦ rw absent
            | inr (c, found) ↦ rw found (value-save_then _ _)
          ])
    | inr (inl (x, e)) ↦ rw (e, removed)
    | inr (inr e) ↦ rw (e, removed)
  ]

  pub upsert-IsValid :
      (now : ℕ) (pubkey name : Text) (s : Held Contacts)
      → IsValid s.value
      → IsValid (upsert json now pubkey name s).1.value
  upsert-IsValid now pubkey name s v =
      rw value-upsert (with_upserted-IsValid now pubkey name s.value v)

  pub set_contact_note-IsValid :
      (q : Text) (new_note : Option Text) (s : Held Contacts)
      → IsValid s.value
      → IsValid (set_contact_note json q new_note s).1.value
  set_contact_note-IsValid q new_note s v =
      rw value-set_contact_note (changed-IsValid q _ s.value (λ c. refl) v)

  pub remove_contact-IsValid :
      (q : Text) (s : Held Contacts) → IsValid s.value → IsValid (remove_contact json q s).1.value
  remove_contact-IsValid q s v = rw value-remove_contact (removed-IsValid q s.value v)

  pub set_group_note-IsValid :
      (alias : Text) (new_note : Option Text) (s : Held Contacts)
      → IsValid s.value
      → IsValid (set_group_note json alias new_note s).1.value
  unfolding set_group_note
  set_group_note-IsValid alias new_note s v =
      rw value-save (record { keyed = v.keyed; ordered = v.ordered })

  -- No method changes the path of the file.
  pub path-upsert :
      (now : ℕ) (pubkey name : Text) (s : Held Contacts)
      → (upsert json now pubkey name s).1.value.path ≡ s.value.path
  path-upsert now pubkey name s = rw value-upsert

  pub path-set_contact_note :
      (q : Text) (new_note : Option Text) (s : Held Contacts)
      → (set_contact_note json q new_note s).1.value.path ≡ s.value.path
  path-set_contact_note q new_note s = rw value-set_contact_note (ground arith)

  pub path-remove_contact :
      (q : Text) (s : Held Contacts) → (remove_contact json q s).1.value.path ≡ s.value.path
  path-remove_contact q s = rw value-remove_contact (ground arith)
