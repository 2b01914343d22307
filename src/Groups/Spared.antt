-- ===== src/Groups/Spared.antt =====
-- That the index of groups writes to no file but its own.
use shmark.Base.{Text, ◌≡◌, ◌≢◌, refl, Option-cases, inl, inr}
use shmark.Maps.{values}
use shmark.Disk.Frames.{Untouched, refl-Untouched, write_file-Spares}
use shmark.Json.{Json}
use shmark.Action.{Held}
use shmark.Groups.{LocalGroup, StoredGroups, Groups, save, upsert}
use shmark.Groups.Valid.{value-save}

module _ (json : Json StoredGroups) (path : Text) where
  save-Untouched :
      (s : Held Groups) → s.value.state_path ≢ path → Untouched path s.disk (save json s).1.disk
  unfolding save
  save-Untouched s h =
      elim (Option-cases (json.to_string (record { groups = values s.value.by_namespace }))) [
        | inl e ↦ rw e (refl-Untouched path s.disk)
        | inr (text, e) ↦ rw e (write_file-Spares path s.value.state_path text h s)
      ]

  pub upsert-Untouched :
      (g : LocalGroup) (s : Held Groups)
      → s.value.state_path ≢ path
      → Untouched path s.disk (upsert json g s).1.disk
        × ((upsert json g s).1.value.state_path ≡ s.value.state_path)
  unfolding upsert
  upsert-Untouched g s h = (save-Untouched _ h, rw (value-save json _) refl)
