-- ===== src/Groups.antt =====
-- crates/shmark-core/src/groups.rs: the index of local groups, kept in memory and in one file.
pub mod Valid
pub mod Effects
pub mod Durable
pub mod Spared
pub mod History
mod Examples
pub mod Resolution
use shmark.Base.{
  ℕ, suc, Text, codes, ◌==◌, ◌++◌, leb, Option, none, some, Bool, true, false, List, [], ◌∷◌, map,
  filter, length, sort_by, if◌then◌else◌,
}
use shmark.Errors
use shmark.Errors.{
  Error, Result, ok, err, panic, message, no_match, ambiguous, serde, ok_or, expect, with_context,
}
use shmark.Maps.{Map, lookup, contains_key, values, insert, remove, update, collect_with}
use shmark.Maps.Keyed.{with_keys}
use shmark.Disk.{Disk, exists, read_to_string}
use shmark.Json.{Json}
use shmark.Action.{Action, Held, pure, lift, ◌>>=◌, ◌>>◌, this, assign, write_file}

pub record LocalGroup : Type 0 where
  pub namespace_id : Text
  pub local_alias : Text
  pub created_locally : Bool
  pub joined_at : ℕ
  pub last_seen_at : ℕ

pub record StoredGroups : Type 0 where
  pub groups : List LocalGroup

pub record Groups : Type 0 where
  pub state_path : Text
  pub by_namespace : Map LocalGroup

abbrev pub named : Text → LocalGroup → Bool
named q g = g.local_alias == q

unfoldable pub choose : Text → List LocalGroup → Result Text
choose q [] = err (no_match (codes "group") q)
choose q (g ∷ []) = ok g.namespace_id
choose q (g ∷ g' ∷ rest) = err (ambiguous (length (g ∷ g' ∷ rest)) (codes "group") q)

unfoldable pub resolve_key : Text → Groups → Result Text
unfolding choose
resolve_key q s =
    if contains_key q s.by_namespace
    then ok q
    else choose q (filter (named q) (values s.by_namespace))

-- `self.by_namespace[&key]` panics on a missing key.
unfoldable pub resolve : Text → Groups → Result LocalGroup
resolve q s = Errors.◌>>=◌ (resolve_key q s) (λ key. expect (lookup key s.by_namespace))

unfoldable pub list : Groups → List LocalGroup
list s = sort_by (λ a b. leb a.joined_at b.joined_at) (values s.by_namespace)

unfoldable pub make_local_group : ℕ → Text → Text → Bool → LocalGroup
make_local_group now namespace_id alias created_locally = record {
  namespace_id = namespace_id;
  local_alias = alias;
  created_locally = created_locally;
  joined_at = now;
  last_seen_at = 0;
}

unfoldable pub restore : Text → StoredGroups → Groups
restore path stored = record {
  state_path = path;
  by_namespace = collect_with insert [] (with_keys (λ g. g.namespace_id) stored.groups);
}

module _ (json : Json StoredGroups) where
  unfoldable pub read_stored : Text → Disk → Result StoredGroups
  read_stored path d =
      Errors.◌>>=◌ (with_context (codes "read groups state " ++ path) (read_to_string path d))
        (λ s. with_context (codes "parse groups state " ++ path) (ok_or serde (json.from_str s)))

  unfoldable pub load : Text → Disk → Result Groups
  load path d =
      if exists path d
      then Errors.◌>>=◌ (read_stored path d) (λ stored. ok (restore path stored))
      else ok (record { state_path = path; by_namespace = [] })

  unfoldable pub save : Action Groups Unit
  save = do
    self ← this
    s ← lift (ok_or serde (json.to_string (record { groups = values self.by_namespace })))
    write_file self.state_path s

  unfoldable pub upsert : LocalGroup → Action Groups Unit
  upsert group = do
    self ← this
    assign (record self { by_namespace = insert group.namespace_id group self.by_namespace })
    save

  -- The common shape of `rename` and `mark_seen`: change one entry, save, return the new entry.
  unfoldable pub change_entry : Text → Text → (LocalGroup → LocalGroup) → Action Groups LocalGroup
  change_entry missing q change = do
    self ← this
    key ← lift (resolve_key q self)
    entry ← lift (ok_or (message missing) (lookup key self.by_namespace))
    assign (record self { by_namespace = update key (change entry) self.by_namespace })
    save
    pure (change entry)

  pub rename : Text → Text → Action Groups LocalGroup
  unfolding change_entry
  rename q new_alias =
      change_entry (codes "group disappeared mid-rename") q
        (λ g. record g { local_alias = new_alias })

  unfoldable pub mark_seen : Text → ℕ → Action Groups LocalGroup
  unfolding change_entry
  mark_seen q time =
      change_entry (codes "group disappeared mid-mark-seen") q
        (λ g. record g { last_seen_at = time })

  pub remove_group : Text → Action Groups LocalGroup
  remove_group q = do
    self ← this
    key ← lift (resolve_key q self)
    removed ←
        lift (ok_or (message (codes "group disappeared mid-remove")) (lookup key self.by_namespace))
    assign (record self { by_namespace = remove key self.by_namespace })
    save
    pure removed
