-- ===== src/Disk/Frames.antt =====
-- Calls that leave one file of the disk alone.
use shmark.Base.{ℕ, Text, ◌≡◌, ◌≢◌, refl, ◌∙◌, arith}
use shmark.Errors.{Result, ok, err, panic}
use shmark.Maps.{lookup}
use shmark.Disk.{Disk, exists, read_to_string, set_mode}
use shmark.Disk.Laws.{lookup-write_ne, unreadable-write}
use shmark.Action.{Action, Held, lift, continue, ◌>>=◌, ◌>>◌, write_file}
use shmark.Identity.{set_secret_perms, secret_mode}

-- The file reads the same on both disks.
pub record Untouched (path : Text) (d d' : Disk) : Type 0 where
  pub file : lookup path d'.files ≡ lookup path d.files
  pub readable : d'.unreadable ≡ d.unreadable

pub refl-Untouched : (path : Text) (d : Disk) → Untouched path d d
refl-Untouched path d = record { file = refl; readable = refl }

pub trans-Untouched :
    {path : Text} {a b c : Disk} → Untouched path a b → Untouched path b c → Untouched path a c
trans-Untouched u v = record { file = v.file ∙ u.file; readable = v.readable ∙ u.readable }

pub read_to_string-Untouched :
    {path : Text} {d d' : Disk}
    → Untouched path d d'
    → (read_to_string path d' ≡ read_to_string path d) × (exists path d' ≡ exists path d)
unfolding read_to_string
read_to_string-Untouched u = (ground (arith, u.file, u.readable), ground (arith, u.file))

pub set_mode-Untouched :
    (path other : Text) (mode : ℕ) (d : Disk) → Untouched path d (set_mode other mode d).1
unfolding set_mode
set_mode-Untouched path other mode d = record { file = ground arith; readable = ground arith }

-- Whatever state an action starts in, and whether it succeeds or not, it leaves the file alone.
abbrev pub Spares {ℓ} : {C A : Type ℓ} → Text → Action C A → Type ℓ
Spares {C = C} path m = (s : Held C) → Untouched path s.disk (m s).1.disk

pub write_file-Spares :
    {C : Type 0} (path other text : Text)
    → other ≢ path
    → Spares {C = C} path (write_file other text)
write_file-Spares path other text h s = record {
  file = lookup-write_ne other text s.disk path h;
  readable = unreadable-write other text s.disk;
}

module _ {C A : Type 0} (path : Text) where
  pub lift-Spares : (r : Result A) → Spares {C = C} path (lift r)
  lift-Spares r s = refl-Untouched path s.disk

  pub then-Spares :
      {B : Type 0} (m : Action C A) (k : A → Action C B)
      → Spares path m
      → ((a : A) → Spares path (k a))
      → Spares path (m >>= k)
  then-Spares m k u v s =
      elim (m s).0 as (λ r. Untouched path s.disk (continue r k (m s).1).1.disk) [
        | ok a ↦ trans-Untouched (u s) (v a (m s).1)
        | err e ↦ u s
        | panic ↦ u s
      ]

-- A file whose text and permissions were written.
pub write_secret-Spares :
    {C : Type 0} (path other text : Text)
    → other ≢ path
    → Spares {C = C} path (write_file other text >> set_secret_perms other)
unfolding set_secret_perms
write_secret-Spares {C} path other text h =
    then-Spares path (write_file {C = C} other text) (λ _. set_secret_perms other)
      (write_file-Spares path other text h)
      (λ u s. set_mode-Untouched path other secret_mode s.disk)

pub value_secret :
    {C : Type 0} (path text : Text) (s : Held C)
    → ((write_file path text >> set_secret_perms path) s).1.value ≡ s.value
unfolding set_secret_perms
value_secret path text s = ground arith
