-- ===== src/Settings.antt =====
-- crates/shmark-core/src/settings.rs: the user's settings and their file.
pub mod Changes
mod Examples
use shmark.Base.{
  ℕ, Text, codes, ◌++◌, Option, none, some, Bool, true, false, List, [], ◌∷◌, filter, map, is_empty,
  or_else, if◌then◌else◌,
}
use shmark.Errors
use shmark.Errors.{Result, ok, err, serde, ok_or, with_context}
use shmark.Disk.{Disk, exists, read_to_string}
use shmark.Json.{Json}
use shmark.Action.{Action, Held, pure, lift, ◌>>=◌, ◌>>◌, this, assign, write_file}
use shmark.Paths.{join}
use shmark.Resolve.{FileSystem}

pub record Settings : Type 0 where
  pub hotkey : Text
  pub search_roots : List Text
  pub auto_pin : Bool

-- The fields of the file, each of which may be missing.
pub record StoredSettings : Type 0 where
  pub hotkey : Option Text
  pub search_roots : Option (List Text)
  pub auto_pin : Option Bool

abbrev pub default_settings : Settings
default_settings = record { hotkey = codes "CmdOrCtrl+Shift+P"; search_roots = []; auto_pin = true }

-- The `default` annotations of the fields
abbrev with_defaults : StoredSettings → Settings
with_defaults stored = record {
  hotkey = or_else default_settings.hotkey stored.hotkey;
  search_roots = or_else default_settings.search_roots stored.search_roots;
  auto_pin = or_else default_settings.auto_pin stored.auto_pin;
}

-- The parameters of the method `settings_set` of crates/shmark-api/src/dispatch.rs.
pub record Change : Type 0 where
  pub hotkey : Option Text
  pub search_roots : Option (List Text)
  pub auto_pin : Option Bool

-- The three assignments of `settings_set`
pub changed : Change → Settings → Settings
changed c s = record {
  hotkey = or_else s.hotkey c.hotkey;
  search_roots = or_else s.search_roots c.search_roots;
  auto_pin = or_else s.auto_pin c.auto_pin;
}

module _ (json : Json StoredSettings) where
  unfoldable pub load : Text → Disk → Result Settings
  load path d =
      Errors.◌>>=◌ (with_context (codes "read settings " ++ path) (read_to_string path d)) (λ s.
        Errors.◌>>=◌
          (with_context (codes "parse settings " ++ path) (ok_or serde (json.from_str s)))
          (λ stored. ok (with_defaults stored)))

  unfoldable pub load_or_default : Text → Disk → Result Settings
  unfolding load
  load_or_default path d = if exists path d then load path d else ok default_settings

  -- `at` is what `settings_path` returns, and `ensure` what `ensure_data_dir` does.
  pub save : Result (Unit {0}) → Result Text → Action Settings Unit
  save ensure at = do
    self ← this
    path ← lift at
    lift ensure
    s ← lift (
        ok_or serde (
          json.to_string (record {
            hotkey = some self.hotkey;
            search_roots = some self.search_roots;
            auto_pin = some self.auto_pin;
          })))
    write_file path s

  -- The method `settings_set`, up to the snapshot that it returns.
  pub settings_set : Result (Unit {0}) → Result Text → Change → Action Settings Settings
  unfolding changed
  settings_set ensure at c = do self ← this; assign (changed c self); save ensure at; this

-- `default_roots` of crates/shmark-core/src/resolve.rs
abbrev pub default_names : List Text
default_names =
    codes "Github"
    ∷ codes "github"
    ∷ codes "Projects"
    ∷ codes "projects"
    ∷ codes "Code"
    ∷ codes "code"
    ∷ codes "src"
    ∷ codes "dev"
    ∷ codes "Developer"
    ∷ codes "Documents"
    ∷ codes "Desktop"
    ∷ []

unfoldable pub default_roots : FileSystem → List Text
default_roots fs = elim fs.home_dir [
  | none ↦ []
  | some home ↦ filter fs.exists (map (join home) default_names)
]

unfoldable pub effective_search_roots : FileSystem → Settings → List Text
unfolding default_roots
effective_search_roots fs s = if is_empty s.search_roots then default_roots fs else s.search_roots
