-- ===== src/Groups/Examples.antt =====
-- Runs of the methods on a small index.
use shmark.Base.{
  Text, codes, ◌==◌, eq_iff, arith, ◌≡◌, ◌≢◌, ◌↔◌, refl, some, none, true, false, [], ◌∷◌,
  if◌then◌else◌,
}
use shmark.Errors.{ok, err, panic, no_match}
use shmark.Maps.{lookup, update}
use shmark.Maps.Same.{SameMap}
use shmark.Disk.{write}
use shmark.Action.{Held}
use shmark.Samples.{groups_json, two_groups, work, home, empty_disk}
use shmark.Groups.{
  LocalGroup, Groups, resolve, resolve_key, choose, save, upsert, rename, mark_seen, remove_group,
  change_entry, make_local_group,
}
use shmark.Groups.Valid.{IsValid}
use shmark.Groups.Durable.{Durable}
use shmark.Groups.History.{Call, rename_call, perform, perform-Durable}
use shmark.Groups.Resolution.{Target, resolve_exact, resolve-ne-panic, resolve-SameMap}
use shmark.Groups.Effects.{changes_exact, unresolved_unchanged}

two_groups-IsValid : IsValid two_groups
unfolding lookup
two_groups-IsValid = record { keyed = (refl, (refl, tt)); distinct = (refl, (refl, tt)) }

abbrev start : Held Groups
start = record { value = two_groups; disk = empty_disk }

abbrev renaming : Call
renaming = rename_call (codes "work") (codes "job")

renaming_done : (perform groups_json renaming start).0 ≡ ok tt
unfolding rename change_entry resolve_key choose save lookup update write
renaming_done = refl

perform-Durable_example : Durable groups_json (perform groups_json renaming start).1
perform-Durable_example =
    perform-Durable groups_json renaming start two_groups-IsValid refl renaming_done

resolve_exact_example :
    (resolve (codes "home") two_groups ≡ ok home) ↔ Target (codes "home") two_groups home
resolve_exact_example = resolve_exact (codes "home") two_groups two_groups-IsValid home

resolve-ne-panic_example : resolve (codes "n1") two_groups ≢ panic
resolve-ne-panic_example = resolve-ne-panic (codes "n1") two_groups two_groups-IsValid

abbrev swapped : Groups
swapped = record two_groups { by_namespace = (codes "n2", home) ∷ (codes "n1", work) ∷ [] }

swapped-IsValid : IsValid swapped
unfolding lookup
swapped-IsValid = record { keyed = (refl, (refl, tt)); distinct = (refl, (refl, tt)) }

work_resolves : resolve (codes "work") two_groups ≡ ok work
unfolding resolve resolve_key choose lookup
work_resolves = refl

changes_exact_example :
    (lookup (codes "n1") (upsert groups_json home start).1.value.by_namespace ≡ (
      if home.namespace_id == codes "n1"
      then some home
      else lookup (codes "n1") two_groups.by_namespace))
    × (lookup
          (codes "n1")
          (rename groups_json (codes "work") (codes "job") start).1.value.by_namespace
        ≡ (if work.namespace_id == codes "n1"
            then some (record work { local_alias = codes "job" })
            else lookup (codes "n1") two_groups.by_namespace))
    × (lookup (codes "n1") (mark_seen groups_json (codes "work") 9 start).1.value.by_namespace ≡ (
        if work.namespace_id == codes "n1"
        then some (record work { last_seen_at = 9 })
        else lookup (codes "n1") two_groups.by_namespace))
    × (lookup (codes "n1") (remove_group groups_json (codes "work") start).1.value.by_namespace ≡ (
        if work.namespace_id == codes "n1"
        then none
        else lookup (codes "n1") two_groups.by_namespace))
changes_exact_example =
    changes_exact groups_json start (codes "work") two_groups-IsValid work work_resolves home
      (codes "job") 9 (codes "n1")

play_fails : resolve (codes "play") two_groups ≡ err (no_match (codes "group") (codes "play"))
unfolding resolve resolve_key choose lookup
play_fails = refl

unresolved_unchanged_example :
    (rename groups_json (codes "play") (codes "job") start
      ≡ (err (no_match (codes "group") (codes "play")), start))
    × (mark_seen groups_json (codes "play") 9 start
        ≡ (err (no_match (codes "group") (codes "play")), start))
    × (remove_group groups_json (codes "play") start
        ≡ (err (no_match (codes "group") (codes "play")), start))
unresolved_unchanged_example =
    unresolved_unchanged groups_json start (codes "play") (no_match (codes "group") (codes "play"))
      play_fails (codes "job") 9

two_entries :
    (j k : Text) (v w : LocalGroup)
    → (j == k) ≡ false
    → SameMap ((j, v) ∷ (k, w) ∷ []) ((k, w) ∷ (j, v) ∷ [])
unfolding lookup
two_entries j k v w other q = ground (arith, eq_iff j q, eq_iff k q, eq_iff j k)

same_entries : SameMap two_groups.by_namespace swapped.by_namespace
same_entries = two_entries (codes "n1") (codes "n2") work home refl

resolve-SameMap_example : resolve (codes "home") two_groups ≡ resolve (codes "home") swapped
resolve-SameMap_example =
    resolve-SameMap (codes "home") two_groups swapped two_groups-IsValid swapped-IsValid
      same_entries

-- A new group as the methods `groups_new` and `groups_join` make it.
new_group_example : make_local_group 5 (codes "n1") (codes "work") true ≡ work
unfolding make_local_group
new_group_example = refl
