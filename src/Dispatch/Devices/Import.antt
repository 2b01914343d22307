-- ===== src/Dispatch/Devices/Import.antt =====
-- What the loop of `devices_pair_join` over the tickets of groups changes.
use shmark.Base.{sym, subst, false, ℕ, ◌+◌, Text, ◌≡◌, ◌≢◌, refl, ap, ◌∙◌, List, [], ◌∷◌, map}
use shmark.Errors.{ok, ok-injective}
use shmark.Disk.Frames.{Untouched, refl-Untouched, trans-Untouched}
use shmark.Json.{Json}
use shmark.Action.{Held, ran, ran_lift}
use shmark.Groups
use shmark.Groups.{LocalGroup, StoredGroups, Groups, make_local_group}
use shmark.Groups.Spared.{upsert-Untouched}
use shmark.Resolve.{trim}
use shmark.Pairing.Protocol.{GroupTicket}
use shmark.Dispatch.{AppState, in_groups}
use shmark.Dispatch.Devices.{Joiner, ticket_parsed, import_ticket, import_tickets}

-- What an import leaves as it is: all but the map of groups, and one file of the disk.
pub record Keeps (path : Text) (s f : Held AppState) : Type 0 where
  pub identity : f.value.identity ≡ s.value.identity
  pub device : f.value.device ≡ s.value.device
  pub groups_path : f.value.groups.state_path ≡ s.value.groups.state_path
  pub signals : f.value.signals ≡ s.value.signals
  pub disk : Untouched path s.disk f.disk

refl-Keeps : (path : Text) (s : Held AppState) → Keeps path s s
refl-Keeps path s = record {
  identity = refl;
  device = refl;
  groups_path = refl;
  signals = refl;
  disk = refl-Untouched path s.disk;
}

trans-Keeps :
    {path : Text} {a b c : Held AppState} → Keeps path a b → Keeps path b c → Keeps path a c
trans-Keeps k l = record {
  identity = l.identity ∙ k.identity;
  device = l.device ∙ k.device;
  groups_path = l.groups_path ∙ k.groups_path;
  signals = l.signals ∙ k.signals;
  disk = trans-Untouched k.disk l.disk;
}

module _ (json : Json StoredGroups) where
  upsert-Keeps :
      (path : Text) (g : LocalGroup) (s : Held AppState)
      → s.value.groups.state_path ≢ path
      → Keeps path s (in_groups (Groups.upsert json g) s).1
  unfolding in_groups
  upsert-Keeps path g s h =
      let (disk, groups_path) =
        upsert-Untouched json path g (record { value = s.value.groups; disk = s.disk }) h in
      record {
        identity = refl;
        device = refl;
        groups_path = groups_path;
        signals = refl;
        disk = disk;
      }

module _ (j : Joiner) where
  import_ticket-Keeps :
      (path : Text) (round : ℕ) (gt : GroupTicket) (s f : Held AppState) (a : Text)
      → s.value.groups.state_path ≢ path
      → import_ticket j round gt s ≡ (ok a, f)
      → Keeps path s f × (a ≡ gt.local_alias)
  unfolding import_ticket
  import_ticket-Keeps path round gt s f a apart h =
      let (ticket, parsed, h1) =
        ran_lift (ticket_parsed gt.local_alias (j.parse_ticket (trim gt.ticket))) _ s f a h in
      let (ns, imported, h2) = ran_lift (j.import ticket) _ s f a h1 in
      let (u, mid, put, h3) =
        ran
          (in_groups
            (Groups.upsert j.groups_json (make_local_group (j.now round) ns gt.local_alias false)))
          _ s f a h2 in
      let kept =
        upsert-Keeps j.groups_json path (make_local_group (j.now round) ns gt.local_alias false) s
          apart in
      (
        subst (λ t. Keeps path s t) (ap (λ p. p.1) put ∙ ap (λ p. p.1) h3) kept,
        sym (ok-injective (ap (λ p. p.0) h3)),
      )

  -- A loop that ran to its end took every ticket.
  pub import_tickets-Keeps :
      (path : Text) (round : ℕ) (gts : List GroupTicket) (s f : Held AppState) (aliases : List Text)
      → s.value.groups.state_path ≢ path
      → import_tickets j round gts s ≡ (ok aliases, f)
      → Keeps path s f × (aliases ≡ map (λ gt. gt.local_alias) gts)
  unfolding import_tickets
  import_tickets-Keeps path round [] s f aliases apart h = (
    subst (λ t. Keeps path s t) (ap (λ p. p.1) h) (refl-Keeps path s),
    sym (ok-injective (ap (λ p. p.0) h)),
  )
  import_tickets-Keeps path round (gt ∷ gts) s f aliases apart h =
      let (alias, mid, first, h1) = ran (import_ticket j round gt) _ s f aliases h in
      let (rest, end, others, h2) = ran (import_tickets j (round + 1) gts) _ mid f aliases h1 in
      let (kept, named) = import_ticket-Keeps path round gt s mid alias apart first in
      let (kept_after, names) =
        import_tickets-Keeps path (round + 1) gts mid end rest (rw kept.groups_path apart) others in
      (
        subst (λ t. Keeps path s t) (ap (λ p. p.1) h2) (trans-Keeps kept kept_after),
        sym (ok-injective (ap (λ p. p.0) h2)) ∙ (λ i. named i ∷ names i),
      )
