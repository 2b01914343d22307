-- ===== src/Disk/Laws.antt =====
-- What a write leaves on the disk.
use shmark.Base.{Text, eq_iff, eq_refl, ◌≡◌, ◌≢◌, refl, some, true, false, arith}
use shmark.Errors.{ok, panic}
use shmark.Maps.{lookup}
use shmark.Maps.Laws.{lookup-insert}
use shmark.Disk
use shmark.Disk.{Disk, Fate, done, refused, torn, write, write_fate, read_to_string}

module _ (path s : Text) (d : Disk) where
  -- A write that succeeds leaves the text in the file.
  pub lookup-write : (write path s d).0 ≡ ok tt → lookup path (write path s d).1.files ≡ some s
  unfolding write write_fate
  lookup-write h = ground (arith, lookup-insert path path s d.files, eq_refl path)

  -- No write touches another file.
  pub lookup-write_ne :
      (other : Text) → path ≢ other → lookup other (write path s d).1.files ≡ lookup other d.files
  unfolding write write_fate
  lookup-write_ne other h =
      elim (d.fate d.writes)
        as (λ f. lookup other (write_fate f path s d).1.files ≡ lookup other d.files) [
          | done ↦ ground (arith, lookup-insert path other s d.files, eq_iff path other)
          | refused ↦ refl
          | torn t ↦ ground (arith, lookup-insert path other t d.files, eq_iff path other)
        ]

  pub write-ne-panic : (write path s d).0 ≢ panic
  unfolding write write_fate
  write-ne-panic h = ground arith

  pub unreadable-write : (write path s d).1.unreadable ≡ d.unreadable
  unfolding write write_fate
  unreadable-write = ground arith

-- A file that holds the text is read back.
pub read_file :
    (path text : Text) (d : Disk)
    → lookup path d.files ≡ some text
    → d.unreadable path ≡ false
    → (Disk.exists path d ≡ true) × (read_to_string path d ≡ ok text)
unfolding read_to_string
read_file path text d h k = ground arith
