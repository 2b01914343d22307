-- ===== src/Device/Kept.antt =====
-- A device file that later starts load, and what keeps it so.
use shmark.Base.{
  refl, Option-cases, ℕ, Text, ◌≡◌, ◌≢◌, ◌∙◌, true, false, length, subst, Bool-cases, inl, inr,
}
use shmark.Errors
use shmark.Errors.{ok, ok_or, serde, Result-cases, ok-injective}
use shmark.Disk
use shmark.Disk.{Disk}
use shmark.Disk.Laws.{read_file}
use shmark.Disk.Frames.{
  Untouched, Spares, refl-Untouched, read_to_string-Untouched, lift-Spares, then-Spares,
  write_secret-Spares, value_secret,
}
use shmark.Crypto.{Bytes}
use shmark.Identity.{Identity}
use shmark.Action.{Action, Held, pure, ◌>>◌, lift, state_then_pure, done_then_pure, value_then_pure}
use shmark.Device.{Device, Suite, create, load, save, checked, load_or_create, verify}
use shmark.Device.Stored.{save-Holds, load_of-Holds, created-verifies}

module _ (k : Suite) where
  pub record Kept (path : Text) (dev : Device) (d : Disk) : Type 0 where
    pub there : Disk.exists path d ≡ true
    pub loads : load k path d ≡ ok dev
    pub verifies : verify k dev.cert ≡ ok tt

  pub load-Untouched :
      {path : Text} {dev : Device} {d d' : Disk}
      → Untouched path d d'
      → load k path d ≡ ok dev
      → load k path d' ≡ ok dev
  unfolding load
  load-Untouched u h = rw (read_to_string-Untouched u).0 h

  pub Kept-Untouched :
      {path : Text} {dev : Device} {d d' : Disk}
      → Untouched path d d'
      → Kept path dev d
      → Kept path dev d'
  unfolding load
  Kept-Untouched u h =
      let (same, present) = read_to_string-Untouched u in
      record { there = present ∙ h.there; loads = rw same h.loads; verifies = h.verifies }

  pub save-Kept :
      {C : Type 0} (dev : Device) (path : Text) (s : Held C)
      → length dev.iroh_secret ≡ 32
      → verify k dev.cert ≡ ok tt
      → s.disk.unreadable path ≡ false
      → (save k dev path s).0 ≡ ok tt
      → Kept path dev (save k dev path s).1.disk
  save-Kept dev path s size good readable done =
      let after : Disk = (save k dev path s).1.disk in
      let holds = save-Holds k dev path s readable done in
      record {
        there = (read_file path holds.text after holds.file holds.readable).0;
        loads = load_of-Holds k dev path after size holds;
        verifies = good;
      }

  -- To save it changes the disk only.
  pub value-save :
      {C : Type 0} (dev : Device) (path : Text) (s : Held C) → (save k dev path s).1.value ≡ s.value
  unfolding save
  value-save dev path s =
      elim (Option-cases (
        k.device_json.to_string
          (record { iroh_secret_hex = k.hex.encode dev.iroh_secret; cert = dev.cert }))) [
            | inl e ↦ rw e refl
            | inr (text, e) ↦ rw e (value_secret path text s)
          ]

  pub save-Spares :
      {C : Type 0} (dev : Device) (path other : Text)
      → other ≢ path
      → Spares {C = C} path (save k dev other)
  unfolding save
  save-Spares dev path other h =
      then-Spares path _ _
        (lift-Spares path (
          ok_or serde (
            k.device_json.to_string
              (record { iroh_secret_hex = k.hex.encode dev.iroh_secret; cert = dev.cert }))))
        (λ text. write_secret-Spares path other text h)

  pub load_or_create_of-Kept :
      {C : Type 0} (random : Bytes) (now : ℕ) (path : Text) (identity : Identity) (dev : Device)
      (s : Held C)
      → Kept path dev s.disk
      → load_or_create k random now path identity s ≡ (ok dev, s)
  unfolding load_or_create checked
  load_or_create_of-Kept random now path identity dev s h = rw (h.there, h.loads, h.verifies)

  loaded-Kept :
      (path : Text) (dev : Device) (d : Disk)
      → Disk.exists path d ≡ true
      → Errors.◌>>=◌ (load k path d) (checked k) ≡ ok dev
      → Kept path dev d
  unfolding checked
  loaded-Kept path dev d there done = elim (Result-cases (load k path d)) [
    | inl (x, loads) ↦ elim (Result-cases (verify k x.cert)) [
      | inl (u, good) ↦
          let same : x ≡ dev = ok-injective (rw (loads, good) at done) in
          subst (λ y. Kept path y d) same (record { there = there; loads = loads; verifies = good })
      | inr (inl (e, bad)) ↦ cc (rw (loads, bad) at done)
      | inr (inr bad) ↦ cc (rw (loads, bad) at done)
    ]
    | inr (inl (e, failed)) ↦ cc (rw failed at done)
    | inr (inr failed) ↦ cc (rw failed at done)
  ]

  pub load_or_create-Kept :
      {C : Type 0} (random : Bytes) (now : ℕ) (path : Text) (identity : Identity) (s : Held C)
      (dev : Device)
      → length random ≡ 32
      → s.disk.unreadable path ≡ false
      → (load_or_create k random now path identity s).0 ≡ ok dev
      → Kept path dev (load_or_create k random now path identity s).1.disk
  unfolding load_or_create
  load_or_create-Kept {C} random now path identity s dev size readable done =
      elim (Bool-cases (Disk.exists path s.disk)) [
        | inl there ↦ rw there (loaded-Kept path dev s.disk there (rw there at done))
        | inr missing ↦ elim (Result-cases (create k random now identity)) [
          | inl (fresh, made) ↦
              let m : Action C (Unit {0}) = save k fresh path in
              let (_, saved) = done_then_pure m fresh s (rw (missing, made) at done) in
              let same : fresh ≡ dev = value_then_pure m fresh s (rw (missing, made) at done) in
              let (good, secret) = created-verifies k random now identity fresh made in
              rw (missing, made)
                (rw (state_then_pure m fresh s) (
                  subst (λ x. Kept path x (m s).1.disk) same
                    (save-Kept fresh path s (rw secret size) good readable saved)))
          | inr (inl (e, failed)) ↦ cc (rw (missing, failed) at done)
          | inr (inr failed) ↦ cc (rw (missing, failed) at done)
        ]
      ]

  pub load_or_create-Spares :
      {C : Type 0} (random : Bytes) (now : ℕ) (path other : Text) (identity : Identity)
      → other ≢ path
      → Spares {C = C} path (load_or_create k random now other identity)
  unfolding load_or_create
  load_or_create-Spares {C} random now path other identity h s =
      elim (Bool-cases (Disk.exists other s.disk)) [
        | inl there ↦ rw there (refl-Untouched path s.disk)
        | inr missing ↦
            let store : Device → Action C Device = λ dev. save k dev other >> pure dev in
            rw missing (
              then-Spares path (lift (create k random now identity)) store
                (lift-Spares path (create k random now identity))
                (λ dev.
                  then-Spares path (save k dev other) (λ u. pure dev) (save-Spares dev path other h)
                    (λ u t. refl-Untouched path t.disk))
                s)
      ]
