-- ===== src/Dispatch/Recipients.antt =====
-- What the method `resolve_recipient` answers.
use shmark.Base.{Text, ◌≡◌, refl, sym, ◌∙◌, inl, inr}
use shmark.Errors.{ok, err, Result-cases, err-ne-ok}
use shmark.Resolve.{trim}
use shmark.Groups
use shmark.Groups.{LocalGroup, Groups}
use shmark.Groups.Resolution.{resolve_exact, resolve-ne-panic}
use shmark.Contacts
use shmark.Contacts.{Contact, Contacts}
use shmark.Contacts.Effects.{resolve_contact_exact, resolve_contact-ne-panic}
use shmark.Dispatch.{
  AppState, Recipient, group, contact, candidates, nothing, optional, pair_matches,
  resolve_recipient,
}

module _ (q : Text) (groups : Groups) (contacts : Contacts) where
  abbrev NoGroup : Type 0
  NoGroup = (g : LocalGroup) → Groups.Resolution.Target q groups g → ⊥

  abbrev NoContact : Type 0
  NoContact = (c : Contact) → Contacts.Effects.Target q contacts c → ⊥

  -- What an answer says: which groups and contacts the query means.
  abbrev pub Means : Recipient → Type 0
  Means (group g) = Groups.Resolution.Target q groups g × NoContact
  Means (contact c) = Contacts.Effects.Target q contacts c × NoGroup
  Means (candidates g c) =
      Groups.Resolution.Target q groups g × Contacts.Effects.Target q contacts c
  Means (nothing q') = (q' ≡ q) × NoGroup × NoContact

module _ (query : Text) (s : AppState) (v : Groups.Valid.IsValid s.groups)
    (w : Contacts.Valid.IsValid s.contacts) where
  no_group :
      (e : _)
      → Groups.resolve (trim query) s.groups ≡ err e
      → NoGroup (trim query) s.groups s.contacts
  no_group e h g t = err-ne-ok (sym h ∙ (resolve_exact (trim query) s.groups v g).1 t)

  no_contact :
      (e : _)
      → Contacts.resolve (trim query) s.contacts ≡ err e
      → NoContact (trim query) s.groups s.contacts
  no_contact e h c t = err-ne-ok (sym h ∙ (resolve_contact_exact (trim query) s.contacts w c).1 t)

  -- With a valid index and a valid contact book, `resolve_recipient` always answers, and rightly: a
  -- group if the trimmed query means a group and no contact, a contact if it means a contact and no
  -- group, both if it means both, and nothing if it means neither.
  pub resolve_recipient_exact :
      (r : Recipient) × (resolve_recipient query s ≡ ok r)
      × Means (trim query) s.groups s.contacts r
  unfolding resolve_recipient optional pair_matches
  resolve_recipient_exact = elim (Result-cases (Groups.resolve (trim query) s.groups)) [
    | inl (g, e) ↦ elim (Result-cases (Contacts.resolve (trim query) s.contacts)) [
      | inl (c, k) ↦ (
        candidates g c,
        rw (e, k) refl,
        (
          (resolve_exact (trim query) s.groups v g).0 e,
          (resolve_contact_exact (trim query) s.contacts w c).0 k,
        ),
      )
      | inr (inl (x, k)) ↦
          (group g, rw (e, k) refl, ((resolve_exact (trim query) s.groups v g).0 e, no_contact x k))
      | inr (inr k) ↦ absurd (resolve_contact-ne-panic (trim query) s.contacts w k)
    ]
    | inr (inl (y, e)) ↦ elim (Result-cases (Contacts.resolve (trim query) s.contacts)) [
      | inl (c, k) ↦ (
        contact c,
        rw (e, k) refl,
        ((resolve_contact_exact (trim query) s.contacts w c).0 k, no_group y e),
      )
      | inr (inl (x, k)) ↦
          (nothing (trim query), rw (e, k) refl, (refl, no_group y e, no_contact x k))
      | inr (inr k) ↦ absurd (resolve_contact-ne-panic (trim query) s.contacts w k)
    ]
    | inr (inr e) ↦ absurd (resolve-ne-panic (trim query) s.groups v e)
  ]
