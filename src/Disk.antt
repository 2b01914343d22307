-- ===== src/Disk.antt =====
-- The file system that `std::fs` gives the daemon: files of text, permission bits, and writes that
-- may be refused or torn. What each write will do is an argument of the model (`fate`).
pub mod Laws
pub mod Frames
use shmark.Base.{ℕ, ◌+◌, Text, codes, Option, none, some, Bool, true, false, if◌then◌else◌}
use shmark.Errors.{Error, os, Result, ok, err}
use shmark.Maps.{Map, lookup, insert, contains_key}

-- What the next `fs::write` does: it succeeds, it fails and leaves the file alone, or it fails with
-- the file cut short.
pub data Fate : Type 0 where
  done refused : Fate
  torn : Text → Fate

pub record Disk : Type 0 where
  pub files : Map Text
  pub modes : Map ℕ
  pub writes : ℕ
  pub fate : ℕ → Fate
  pub unreadable : Text → Bool
  pub locked_mode : Text → Bool

-- `Path::exists`
abbrev pub exists : Text → Disk → Bool
exists path d = contains_key path d.files

-- `fs::read_to_string`
unfoldable pub read_to_string : Text → Disk → Result Text
read_to_string path d =
    if d.unreadable path
    then err os
    else elim (lookup path d.files) [ none ↦ err os | some s ↦ ok s ]

write_fate : Fate → Text → Text → Disk → Result (Unit {0}) × Disk
write_fate done path s d =
    (ok tt, record d { files = insert path s d.files; writes = d.writes + 1 })
write_fate refused path s d = (err os, record d { writes = d.writes + 1 })
write_fate (torn t) path s d =
    (err os, record d { files = insert path t d.files; writes = d.writes + 1 })

-- `fs::write`
unfoldable pub write : Text → Text → Disk → Result (Unit {0}) × Disk
unfolding write_fate
write path s d = write_fate (d.fate d.writes) path s d

-- `fs::set_permissions` of an existing file
unfoldable pub set_mode : Text → ℕ → Disk → Result (Unit {0}) × Disk
set_mode path mode d =
    if exists path d
    then if d.locked_mode path
      then (err os, d)
      else (ok tt, record d { modes = insert path mode d.modes })
    else (err os, d)
