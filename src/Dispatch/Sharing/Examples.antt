-- ===== src/Dispatch/Sharing/Examples.antt =====
-- Two groups, each with one share of another identity.
use shmark.Base.{
  ℕ, Text, codes, ◌==◌, ◌≡◌, ◌⊎◌, refl, none, some, true, false, List, [], ◌∷◌, map, if◌then◌else◌,
}
use mathlib.Core.List.{Perm}
use shmark.Errors.{ok}
use shmark.Maps.{lookup}
use shmark.Action.{Held}
use shmark.Identity
use shmark.Groups
use shmark.Groups.{LocalGroup, Groups, list, mark_seen}
use shmark.Groups.Valid.{IsValid}
use shmark.Settings.{default_settings}
use shmark.Shares
use shmark.Shares.{
  ShareItem, ShareRecord, ShareWithStatus, Node, open_doc, parse_namespace_id, read_entries,
  read_entry, list_with_status, with_statuses, with_status, statuses, item_status,
}
use shmark.Samples.{
  suite, share_json, groups_json, two_groups, work, home, one_contact, me, laptop, empty_disk,
}
use shmark.Dispatch.{AppState}
use shmark.Dispatch.Sharing.{
  GroupRow, ShareRow, latest_of, row_of, or_default, rows_of, groups_list, records, shown, list_all,
  chosen, shares_list,
}
use shmark.Dispatch.Sharing.Activity.{
  LatestFirst, Unread, IsLatest, row_of_exact, unread-mark_seen, groups_list-IsSorted,
}
use shmark.Dispatch.Sharing.Pinning.{due, shares_list_pins}

abbrev share_at : ℕ → ShareRecord
share_at time = record {
  share_id = codes "s";
  name = codes "notes";
  description = none;
  items = record { path = none; blob_hash = codes "b"; size_bytes = 4 } ∷ [];
  author_identity = codes "k1";
  author_node = codes "d1";
  created_at = time;
}

abbrev text_at : ℕ → Text
text_at time = elim (share_json.to_string (share_at time)) [ none ↦ [] | some t ↦ t ]

-- The document of `work` has an older share than the one of `home`, and no blob is local.
abbrev node : Node Unit
node = record {
  parse_ns = λ t. some t;
  parse_hash = λ t. some t;
  parse_endpoint = λ t. some t;
  opened = λ ns s. ok true;
  get_many = λ ns prefix s. ok (ok (if ns == codes "n1" then text_at 20 else text_at 30) ∷ []);
  get_bytes = λ hash s. ok hash;
  has = λ hash s. some false;
  set_bytes = λ ns key value s. (ok tt, s);
  add_path = λ p s. (ok p, s);
  download = λ hash provider s. (ok tt, s);
  export = λ hash p s. (ok tt, s);
}

abbrev state : AppState
state = record {
  identity = me;
  device = laptop;
  groups = two_groups;
  contacts = one_contact;
  settings = default_settings;
  pairing = record { pending = [] };
  started_at = 0;
  signals = [];
}

abbrev rows : List GroupRow
rows =
    record { group = home; latest_share_at = 30; unread_count = 1 }
    ∷ record { group = work; latest_share_at = 20; unread_count = 1 }
    ∷ []

lists : groups_list node suite share_json state tt ≡ ok rows
unfolding groups_list rows_of row_of latest_of or_default Shares.list open_doc parse_namespace_id
    read_entries read_entry list Identity.pubkey_hex Identity.pubkey_bytes
lists = refl

groups_list-IsSorted_example :
    LatestFirst rows
    × ((found : List GroupRow) × Perm rows found
        × (map (λ row. row.group) found ≡ Groups.list two_groups))
groups_list-IsSorted_example = groups_list-IsSorted node suite share_json state tt rows lists

row_of_exact_example :
    let row = row_of (codes "me") (share_at 20 ∷ []) work in
    Unread (codes "me") work (share_at 20 ∷ []) row.unread_count
    × IsLatest row.latest_share_at (share_at 20 ∷ [])
row_of_exact_example = row_of_exact (codes "me") (share_at 20 ∷ []) work

abbrev held : Held Groups
held = record { value = two_groups; disk = empty_disk }

work_found : Groups.resolve (codes "work") two_groups ≡ ok work
unfolding Groups.resolve Groups.resolve_key Groups.choose lookup
work_found = refl

two_groups-IsValid : IsValid two_groups
unfolding lookup
two_groups-IsValid = record { keyed = (refl, (refl, tt)); distinct = (refl, (refl, tt)) }

unread-mark_seen_example :
    let index = (mark_seen groups_json (codes "work") 40 held).1.value.by_namespace in
    ((g : LocalGroup) × (lookup work.namespace_id index ≡ some g)
      × ((row_of (codes "me") (share_at 20 ∷ []) g).unread_count ≡ 0))
    × (((work.namespace_id == codes "n2") ≡ true)
        ⊎ (lookup (codes "n2") index ≡ lookup (codes "n2") two_groups.by_namespace))
unread-mark_seen_example =
    unread-mark_seen groups_json (codes "work") 40 held work (codes "me") (share_at 20 ∷ [])
      (codes "n2") two_groups-IsValid work_found (refl, tt)

abbrev remote : ℕ → ShareWithStatus
remote time = record {
  share = share_at time;
  items_status = record { blob_hash = codes "b"; is_local = false } ∷ [];
  all_local = false;
}

abbrev share_rows : List ShareRow
share_rows =
    record { group = work.local_alias; namespace_id = codes "n1"; share = remote 20 }
    ∷ record { group = home.local_alias; namespace_id = codes "n2"; share = remote 30 }
    ∷ []

listed : (shares_list node suite share_json none state tt).0 ≡ ok share_rows
unfolding shares_list list_all chosen shown records list_with_status with_statuses with_status
    statuses item_status Shares.list open_doc parse_namespace_id read_entries read_entry list
    Identity.pubkey_hex Identity.pubkey_bytes
listed = refl

shares_list_pins_example : (shares_list node suite share_json none state tt).1 ≡ (
    if state.settings.auto_pin
    then due (Identity.pubkey_hex suite.hex suite.dalek me) share_rows
    else [])
shares_list_pins_example = shares_list_pins node suite share_json none state tt share_rows listed

pinned : (shares_list node suite share_json none state tt).1 ≡ share_at 20 ∷ share_at 30 ∷ []
unfolding shares_list list_all chosen shown records list_with_status with_statuses with_status
    statuses item_status Shares.list open_doc parse_namespace_id read_entries read_entry list
    Identity.pubkey_hex Identity.pubkey_bytes
pinned = refl
