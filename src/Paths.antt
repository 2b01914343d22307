-- ===== src/Paths.antt =====
-- crates/shmark-core/src/paths.rs, and what the sources use of `std::path` on UTF-8 paths.
pub mod Names
pub mod Components
mod Examples
use shmark.Base.{
  ℕ, Text, codes, ◌++◌, ◌==◌, ◌||◌, ◌&&◌, Option, none, some, Bool, not, List, [], ◌∷◌, filter,
  starts_with, ends_with, if◌then◌else◌, eqb, is_empty,
}
use shmark.Errors.{Result, ok, foreign, ok_or, with_context, ◌>>=◌}
use mathlib.Core.List.{reverse}

abbrev pub slash : ℕ
slash = 0x2f

-- `Path::is_absolute`
abbrev pub is_absolute : Text → Bool
is_absolute p = starts_with (slash ∷ []) p

-- `Path::join`: an absolute second path takes the place of the first.
unfoldable pub join : Text → Text → Text
join base p =
    if is_absolute p
    then p
    else if is_empty base || ends_with (slash ∷ []) base
    then base ++ p
    else base ++ slash ∷ p

-- The pieces between the slashes.
unfoldable pub split : Text → List Text
split [] = [] ∷ []
split (c ∷ s) = elim (split s) [
  | [] ↦ (c ∷ []) ∷ []
  | piece ∷ rest ↦ if eqb c slash then [] ∷ piece ∷ rest else (c ∷ piece) ∷ rest
]

-- A piece that is no component: `a//b` and `a/./b` are `a/b`.
abbrev is_noise : Text → Bool
is_noise piece = is_empty piece || (piece == codes ".")

skip_noise : List Text → List Text
skip_noise [] = []
skip_noise (piece ∷ rest) =
    let skipped = skip_noise rest in if is_noise piece then skipped else piece ∷ rest

last : List Text → Option Text
last [] = none
last (x ∷ []) = some x
last (x ∷ y ∷ rest) = last (y ∷ rest)

-- The components of a path, but for a leading `/` or `.`
unfoldable pub pieces : Text → List Text
unfolding split
pieces p = filter (λ piece. not (is_noise piece)) (split p)

-- `Path::file_name`
unfoldable pub file_name : Text → Option Text
unfolding last pieces split
file_name p = elim (last (pieces p)) [
  | none ↦ none
  | some name ↦ if name == codes ".." then none else some name
]

glue : List Text → Text
glue [] = []
glue (x ∷ []) = x
glue (x ∷ y ∷ rest) = x ++ slash ∷ glue (y ∷ rest)

-- `Path::strip_prefix` of paths as `std::path::absolute` makes them, with no `.` in front: what is left
-- of the components, put together again.
drop_front : List Text → List Text → Option (List Text)
drop_front [] ys = some ys
drop_front (x ∷ xs) [] = none
drop_front (x ∷ xs) (y ∷ ys) = if x == y then drop_front xs ys else none

unfoldable pub relative_to : Text → Text → Option Text
unfolding pieces split glue drop_front
relative_to dir p =
    if is_absolute dir && not (is_absolute p) || not (is_absolute dir) && is_absolute p
    then none
    else elim (drop_front (pieces dir) (pieces p)) [ none ↦ none | some rest ↦ some (glue rest) ]

-- The pieces before the last component, if there is one; the pieces come last first.
before_last : List Text → Option Text
unfolding skip_noise glue
before_last pieces = elim (skip_noise pieces) [
  | [] ↦ none
  | name ∷ rest ↦ some (glue (reverse (skip_noise rest)))
]

prefixed : Text → Option Text → Option Text
prefixed p none = none
prefixed p (some s) = some (p ++ s)

-- `Path::parent`: a leading `/`, or a leading `.`, is a component of its own.
unfoldable pub parent : Text → Option Text
unfolding before_last prefixed split
parent [] = none
parent (c ∷ s) =
    if eqb c slash
    then prefixed (codes "/") (before_last (reverse (split s)))
    else if (c ∷ s) == codes "."
    then some []
    else if starts_with (codes "./") (c ∷ s)
    then elim (before_last (reverse (split s))) [
      | none ↦ some []
      | some body ↦ some (codes "." ++ body)
    ]
    else before_last (reverse (split (c ∷ s)))

-- What `paths.rs` reads of its surroundings: the variable SHMARK_DATA_DIR, and `dirs::data_dir`.
pub record Surroundings : Type 0 where
  pub custom : Option Text
  pub os_data_dir : Option Text

unfoldable pub data_dir : Surroundings → Result Text
data_dir e =
    let standard : Result Text =
      with_context (codes "could not determine data dir") (ok_or foreign e.os_data_dir) >>= λ dir.
      ok (join dir (codes "shmark")) in
    elim e.custom [ none ↦ standard | some dir ↦ if is_empty dir then standard else ok dir ]

-- `create_dir_all` is that function of `std::fs`.
unfoldable pub ensure_data_dir : (Text → Result (Unit {0})) → Surroundings → Result Text
ensure_data_dir create_dir_all e = data_dir e >>= λ dir.
    with_context (codes "create data dir " ++ dir) (create_dir_all dir) >>= λ _. ok dir

-- The files of the data directory: `socket_path`, `identity_path` and the others.
unfoldable pub in_data_dir : Text → Surroundings → Result Text
in_data_dir name e = data_dir e >>= λ dir. ok (join dir name)

module _ (e : Surroundings) where
  unfoldable pub socket_path : Result Text
  unfolding in_data_dir
  socket_path = in_data_dir (codes "shmark.sock") e

  unfoldable pub identity_path : Result Text
  unfolding in_data_dir
  identity_path = in_data_dir (codes "identity.json") e

  unfoldable pub device_path : Result Text
  unfolding in_data_dir
  device_path = in_data_dir (codes "device.json") e

  pub pid_path : Result Text
  unfolding in_data_dir
  pid_path = in_data_dir (codes "shmark.pid") e

  unfoldable pub log_path : Result Text
  unfolding in_data_dir
  log_path = in_data_dir (codes "shmark.log") e

  unfoldable pub groups_state_path : Result Text
  unfolding in_data_dir
  groups_state_path = in_data_dir (codes "groups.json") e

  -- `settings_path` of settings.rs
  unfoldable pub settings_path : Result Text
  unfolding in_data_dir
  settings_path = in_data_dir (codes "settings.json") e

  -- `contacts_state_path` of contacts.rs
  unfoldable pub contacts_state_path : Result Text
  unfolding in_data_dir
  contacts_state_path = in_data_dir (codes "contacts.json") e
