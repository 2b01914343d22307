-- ===== src/Settings/Examples.antt =====
-- A change of one setting, and the default roots.
use shmark.Base.{codes, ◌==◌, ◌≡◌, refl, some, none, false, []}
use shmark.Errors.{ok}
use shmark.Action.{Held}
use shmark.Resolve.{FileSystem}
use shmark.Samples.{settings_json, empty_disk}
use shmark.Settings.{Settings, Change, default_settings, settings_set}
use shmark.Settings.Changes.{Loads, Changes, settings_set_exact}

abbrev start : Held Settings
start = record { value = default_settings; disk = empty_disk }

abbrev no_pin : Change
no_pin = record { hotkey = none; search_roots = none; auto_pin = some false }

settings_set_exact_example :
    let after = settings_set settings_json (ok tt) (ok (codes "settings.json")) no_pin start in
    Changes no_pin default_settings after.1.value
    × ((x : Settings)
        → after.0 ≡ ok x
        → (x ≡ after.1.value) × Loads settings_json (ok (codes "settings.json")) after.1 x)
settings_set_exact_example =
    settings_set_exact settings_json (ok tt) (ok (codes "settings.json")) no_pin start
      (λ path e. refl)

abbrev small : FileSystem
small = record {
  home_dir = some (codes "/home/me");
  exists = λ p. p == codes "/home/me/src";
  metadata = λ p. none;
  walk = λ p. [];
}
