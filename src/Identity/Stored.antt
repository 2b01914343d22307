-- ===== src/Identity/Stored.antt =====
-- What `load` reads of what `save` wrote.
use shmark.Base.{
  ℕ, Text, ◌≡◌, ◌∙◌, some, false, length, arith, Option-cases, Bool-cases, inl, inr, eq_refl,
}
use shmark.Errors.{ok, Result-cases, err-ne-ok}
use shmark.Maps.{lookup}
use shmark.Maps.Laws.{lookup-insert}
use shmark.Disk
use shmark.Disk.{Disk, write, set_mode}
use shmark.Disk.Laws.{lookup-write, unreadable-write, read_file}
use shmark.Json.{Json}
use shmark.Crypto.{Hex}
use shmark.Action.{Held, Action, write_file, ◌>>◌, done_then_pure, state_then_pure, value_then_pure}
use shmark.Identity.{
  Identity, StoredIdentity, create, parse, load, save, load_or_create, set_secret_perms,
  secret_mode,
}

abbrev pub stored : Hex → Identity → StoredIdentity
stored hex id = record {
  secret_key_hex = hex.encode id.signing_key;
  display_name = id.display_name;
  created_at = id.created_at;
}

-- What the file of a saved identity holds.
pub record Holds (hex : Hex) (json : Json StoredIdentity) (id : Identity) (path : Text) (d : Disk)
    : Type 0 where
  pub text : Text
  pub encoded : json.to_string (stored hex id) ≡ some text
  pub file : lookup path d.files ≡ some text
  pub mode : lookup path d.modes ≡ some secret_mode
  pub readable : d.unreadable path ≡ false

set_mode_lem :
    (path : Text) (mode : ℕ) (d : Disk)
    → (set_mode path mode d).0 ≡ ok tt
    → (lookup path (set_mode path mode d).1.modes ≡ some mode)
      × ((set_mode path mode d).1.files ≡ d.files)
      × ((set_mode path mode d).1.unreadable ≡ d.unreadable)
unfolding set_mode
set_mode_lem path mode d h = ground (arith, lookup-insert path path mode d.modes, eq_refl path)

-- A secret file that was written and protected without an error.
pub write_secret-done :
    {C : Type 0} (path text : Text) (s : Held C)
    → ((write_file path text >> set_secret_perms path) s).0 ≡ ok tt
    → (lookup path ((write_file path text >> set_secret_perms path) s).1.disk.files ≡ some text)
      × (lookup path ((write_file path text >> set_secret_perms path) s).1.disk.modes
          ≡ some secret_mode)
      × (((write_file path text >> set_secret_perms path) s).1.disk.unreadable ≡ s.disk.unreadable)
unfolding set_secret_perms
write_secret-done path text s h = elim (Result-cases (write path text s.disk).0) [
  | inl (u, done) ↦
      let d : Disk = (write path text s.disk).1 in
      let (mode, files, readable) = set_mode_lem path secret_mode d (rw (done, write_file) at h) in
      (
        rw (done, write_file) (rw files (lookup-write path text s.disk done)),
        rw (done, write_file) mode,
        rw (done, write_file) (readable ∙ unreadable-write path text s.disk),
      )
  | inr (inl (e, failed)) ↦ cc (rw (failed, write_file) at h)
  | inr (inr failed) ↦ cc (rw (failed, write_file) at h)
]

module _ (hex : Hex) (json : Json StoredIdentity) where
  pub save-Holds :
      {C : Type 0} (id : Identity) (path : Text) (s : Held C)
      → s.disk.unreadable path ≡ false
      → (save hex json id path s).0 ≡ ok tt
      → Holds hex json id path (save hex json id path s).1.disk
  unfolding save set_secret_perms
  save-Holds id path s readable done = elim (Option-cases (json.to_string (stored hex id))) [
    | inl failed ↦ absurd (err-ne-ok (rw failed at done))
    | inr (text, encoded) ↦
        let (file, mode, same) = write_secret-done path text s (rw encoded at done) in
        rw encoded (record {
          text = text;
          encoded = encoded;
          file = file;
          mode = mode;
          readable = rw same readable;
        })
  ]

  -- A saved identity is read back, if its key has 32 bytes.
  pub load_of-Holds :
      (id : Identity) (path : Text) (d : Disk)
      → length id.signing_key ≡ 32
      → Holds hex json id path d
      → load hex json path d ≡ ok id
  unfolding load parse
  load_of-Holds id path d size h =
      let (there, same) = read_file path h.text d h.file h.readable in
      rw (same, json.from_str-to_string _ h.text h.encoded, hex.decode-encode id.signing_key, size)

  -- If a start succeeds, on a disk where the identity file can be read and with 32 random bytes, then
  -- every later start on the disk it leaves returns the same identity and changes nothing, whatever
  -- bytes, time and name it gets.
  pub load_or_create_stable :
      {C : Type 0} (random : Text) (now : ℕ) (path name : Text) (s : Held C) (id : Identity)
      → length random ≡ 32
      → s.disk.unreadable path ≡ false
      → (load_or_create hex json random now path name s).0 ≡ ok id
      → (random' : Text) (now' : ℕ) (name' : Text)
      → load_or_create hex json random' now' path name'
          (load_or_create hex json random now path name s).1
        ≡ (ok id, (load_or_create hex json random now path name s).1)
  unfolding load_or_create create
  load_or_create_stable {C} random now path name s id size readable done random' now' name' =
      elim (Bool-cases (Disk.exists path s.disk)) [
        | inl there ↦ rw (there, there) (λ i. ((rw there at done) i, s))
        | inr missing ↦
            let fresh : Identity = create random now name in
            let m : Action C (Unit {0}) = save hex json fresh path in
            let (_, saved) = done_then_pure m fresh s (rw missing at done) in
            let same : fresh ≡ id = value_then_pure m fresh s (rw missing at done) in
            let holds = save-Holds fresh path s readable saved in
            let loaded = load_of-Holds fresh path (m s).1.disk size holds in
            let (there, _) = read_file path holds.text (m s).1.disk holds.file holds.readable in
            rw missing
              (rw (state_then_pure m fresh s) (rw (there, loaded) (λ i. (ok (same i), (m s).1))))
      ]
