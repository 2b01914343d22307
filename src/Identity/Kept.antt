-- ===== src/Identity/Kept.antt =====
-- An identity file that later starts load, and what keeps it so.
use shmark.Base.{
  refl, Option-cases, ℕ, Text, ◌≡◌, ◌≢◌, ◌∙◌, true, false, length, subst, Bool-cases, inl, inr,
}
use shmark.Errors.{ok, ok_or, serde}
use shmark.Disk
use shmark.Disk.{Disk}
use shmark.Disk.Laws.{read_file}
use shmark.Disk.Frames.{
  Untouched, Spares, refl-Untouched, read_to_string-Untouched, lift-Spares, then-Spares,
  write_secret-Spares, value_secret,
}
use shmark.Json.{Json}
use shmark.Crypto.{Bytes, Hex}
use shmark.Action.{Action, Held, pure, state_then_pure, done_then_pure, value_then_pure}
use shmark.Identity.{Identity, StoredIdentity, create, load, save, load_or_create}
use shmark.Identity.Stored.{stored, save-Holds, load_of-Holds}

module _ (hex : Hex) (json : Json StoredIdentity) where
  pub record Kept (path : Text) (id : Identity) (d : Disk) : Type 0 where
    pub there : Disk.exists path d ≡ true
    pub loads : load hex json path d ≡ ok id

  pub Kept-Untouched :
      {path : Text} {id : Identity} {d d' : Disk}
      → Untouched path d d'
      → Kept path id d
      → Kept path id d'
  unfolding load
  Kept-Untouched u h =
      let (same, present) = read_to_string-Untouched u in
      record { there = present ∙ h.there; loads = rw same h.loads }

  pub save-Kept :
      {C : Type 0} (id : Identity) (path : Text) (s : Held C)
      → length id.signing_key ≡ 32
      → s.disk.unreadable path ≡ false
      → (save hex json id path s).0 ≡ ok tt
      → Kept path id (save hex json id path s).1.disk
  save-Kept id path s size readable done =
      let after : Disk = (save hex json id path s).1.disk in
      let holds = save-Holds hex json id path s readable done in
      record {
        there = (read_file path holds.text after holds.file holds.readable).0;
        loads = load_of-Holds hex json id path after size holds;
      }

  -- To save it changes the disk only.
  pub value-save :
      {C : Type 0} (id : Identity) (path : Text) (s : Held C)
      → (save hex json id path s).1.value ≡ s.value
  unfolding save
  value-save id path s = elim (Option-cases (json.to_string (stored hex id))) [
    | inl e ↦ rw e refl
    | inr (text, e) ↦ rw e (value_secret path text s)
  ]

  pub save-Spares :
      {C : Type 0} (id : Identity) (path other : Text)
      → other ≢ path
      → Spares {C = C} path (save hex json id other)
  unfolding save
  save-Spares id path other h =
      then-Spares path _ _ (lift-Spares path (ok_or serde (json.to_string (stored hex id))))
        (λ text. write_secret-Spares path other text h)

  -- A start on a kept file.
  pub load_or_create_of-Kept :
      {C : Type 0} (random : Bytes) (now : ℕ) (path name : Text) (id : Identity) (s : Held C)
      → Kept path id s.disk
      → load_or_create hex json random now path name s ≡ (ok id, s)
  unfolding load_or_create
  load_or_create_of-Kept random now path name id s h = rw (h.there, h.loads)

  pub load_or_create-Kept :
      {C : Type 0} (random : Bytes) (now : ℕ) (path name : Text) (s : Held C) (id : Identity)
      → length random ≡ 32
      → s.disk.unreadable path ≡ false
      → (load_or_create hex json random now path name s).0 ≡ ok id
      → Kept path id (load_or_create hex json random now path name s).1.disk
  unfolding load_or_create create
  load_or_create-Kept {C} random now path name s id size readable done =
      elim (Bool-cases (Disk.exists path s.disk)) [
        | inl there ↦ rw there (record { there = there; loads = rw there at done })
        | inr missing ↦
            let fresh : Identity = create random now name in
            let m : Action C (Unit {0}) = save hex json fresh path in
            let (_, saved) = done_then_pure m fresh s (rw missing at done) in
            let same : fresh ≡ id = value_then_pure m fresh s (rw missing at done) in
            rw missing (
              rw (state_then_pure m fresh s) (
                subst (λ x. Kept path x (m s).1.disk) same
                  (save-Kept fresh path s size readable saved)))
      ]

  pub load_or_create-Spares :
      {C : Type 0} (random : Bytes) (now : ℕ) (path other name : Text)
      → other ≢ path
      → Spares {C = C} path (load_or_create hex json random now other name)
  unfolding load_or_create
  load_or_create-Spares random now path other name h s =
      elim (Bool-cases (Disk.exists other s.disk)) [
        | inl there ↦ rw there (refl-Untouched path s.disk)
        | inr missing ↦
            let fresh : Identity = create random now name in
            rw missing (
              then-Spares path (save hex json fresh other) (λ u. pure fresh)
                (save-Spares fresh path other h) (λ u t. refl-Untouched path t.disk) s)
      ]
