-- ===== src/Shares/Examples.antt =====
-- A node with one document in memory, and a share in it.
use shmark.Base.{
  Text, codes, ◌==◌, ◌≡◌, ◌⊎◌, refl, subst, Option, some, none, true, false, List, [], ◌∷◌, ◌++◌,
  map, is_empty, starts_with, arith, if◌then◌else◌,
}
use mathlib.Core.List.{Mem, Memᴰ}
use mathlib.Core.Option.{some-injective}
use shmark.Errors.{Result, ok, ok-injective}
use shmark.Maps.{Map}
use shmark.Paths.{is_absolute, pieces, relative_to, slash}
use shmark.Samples.{share_json, work}
use shmark.Shares.{
  ShareItem, ShareRecord, Node, shares_key_prefix, open_doc, list, item_status, with_status,
  publish_record, parse_namespace_id, read_entries, read_entry,
}
use shmark.Shares.Publish.{Keeps, list-publish_record}
use shmark.Shares.Create.{WalkEntry, add_files, add_blob_from_path}
use shmark.Shares.Fetch.{target_of, auto_pin, read_item, download}
use shmark.Errors.{os, err}
use shmark.Paths.{parent, split, join, file_name}
use shmark.Shares.Create.{create}
use shmark.Shares.{get, list_with_status, with_statuses, statuses, item_of}
use shmark.Shares.Create.{Sources}
use shmark.Shares.Folders.{files_of, shape, add_files_exact, target_of_exact}

abbrev entries_of : Text → Map Text → List (Result Text)
entries_of prefix [] = []
entries_of prefix ((k, v) ∷ m) =
    let rest = entries_of prefix m in if starts_with prefix k then ok v ∷ rest else rest

-- The hash of a blob is the blob.
abbrev node : Node (Map Text)
node = record {
  parse_ns = λ t. some t;
  parse_hash = λ t. some t;
  parse_endpoint = λ t. some t;
  opened = λ ns s. ok true;
  get_many = λ ns prefix s. ok (entries_of prefix s);
  get_bytes = λ hash s. ok hash;
  has = λ hash s. some (hash == codes "b");
  set_bytes = λ ns key value s. (ok tt, (key, value) ∷ s);
  add_path = λ p s. (ok p, s);
  download = λ hash provider s. (ok tt, s);
  export = λ hash p s. (ok tt, s);
}

starts_with-append : (p s : Text) → starts_with p (p ++ s) ≡ true
starts_with-append [] s = refl
starts_with-append (x ∷ p) s = ground (arith, starts_with-append p s)

set_entry :
    (prefix rest value : Text) (s : Map Text) (entries : List (Result Text))
    → ok (entries_of prefix ((prefix ++ rest, value) ∷ s)) ≡ ok entries
    → Memᴰ (ok value) entries
set_entry prefix rest value s entries h =
    subst (λ l. Memᴰ (ok value) l) (ok-injective (rw (starts_with-append prefix rest) at h))
      (Memᴰ.head refl)

not_blank : (r : ShareRecord) (t : Text) → share_json.to_string r ≡ some t → is_empty t ≡ false
not_blank r t h = subst (λ u. is_empty u ≡ false) (some-injective _ _ h) refl

node-Keeps : Keeps node share_json
node-Keeps = record {
  keeps_entry = λ ns prefix rest value s entries done h.
      (value, set_entry prefix rest value s entries h, refl);
  not_blank = not_blank;
}

abbrev item : ShareItem
item = record { path = some (codes "a.md"); blob_hash = codes "b"; size_bytes = 4 }

abbrev note_share : ShareRecord
note_share = record {
  share_id = codes "s1";
  name = codes "notes";
  description = none;
  items = item ∷ [];
  author_identity = codes "k1";
  author_node = codes "d1";
  created_at = 8;
}

abbrev note_text : Text
note_text = elim (share_json.to_string note_share) [ none ↦ [] | some t ↦ t ]

abbrev after : Map Text
after = (shares_key_prefix ++ codes "s1", note_text) ∷ []

published :
    publish_record node share_json
      (codes "s1")
      8
      work
      (codes "notes")
      none
      (item ∷ [])
      (codes "k1")
      (codes "d1")
      []
    ≡ (ok note_share, after)
unfolding publish_record open_doc parse_namespace_id
published = refl

listed : list node share_json work after ≡ ok (note_share ∷ [])
unfolding list open_doc parse_namespace_id read_entries read_entry
listed = refl

list-publish_record_example : Mem note_share (note_share ∷ [])
list-publish_record_example =
    list-publish_record node share_json (codes "s1") 8 work (codes "notes") none (item ∷ [])
      (codes "k1") (codes "d1") [] after note_share (note_share ∷ []) node-Keeps published listed

abbrev walked : List (Option WalkEntry)
walked =
    none
    ∷ some (record { path = codes "/x"; is_file = some false; len = some 0 })
    ∷ some (record { path = codes "/x/a.md"; is_file = some true; len = some 4 })
    ∷ []

added :
    (add_files node (codes "/x") walked [] after).0
    ≡ ok (record { path = some (codes "a.md"); blob_hash = codes "/x/a.md"; size_bytes = 4 } ∷ [])
unfolding add_files add_blob_from_path relative_to pieces split
added = refl

add_files_exact_example :
    map shape
      (record { path = some (codes "a.md"); blob_hash = codes "/x/a.md"; size_bytes = 4 } ∷ [])
    ≡ map shape [] ++ files_of (codes "/x") walked
add_files_exact_example = add_files_exact node (codes "/x") walked [] _ after added

abbrev climbing : ShareItem
climbing = record item { path = some (codes "../up.md") }

climbed : target_of (codes "/tmp/in") note_share climbing ≡ codes "/tmp/in/../up.md"
unfolding target_of join
climbed = refl

target_of_exact_example :
    ((is_absolute (codes "../up.md") ≡ true)
      × (target_of (codes "/tmp/in") note_share climbing ≡ codes "../up.md"))
    ⊎ ((is_absolute (codes "../up.md") ≡ false)
        × (pieces (target_of (codes "/tmp/in") note_share climbing)
            ≡ pieces (codes "/tmp/in") ++ pieces (codes "../up.md"))
        × ((target_of (codes "/tmp/in") note_share climbing ≡ codes "/tmp/in" ++ codes "../up.md")
            ⊎ (target_of (codes "/tmp/in") note_share climbing
                ≡ codes "/tmp/in" ++ slash ∷ codes "../up.md")))
target_of_exact_example = target_of_exact (codes "/tmp/in") note_share climbing

abbrev steady : Sources (Map Text)
steady = record {
  absolute = λ p. ok p;
  metadata = λ p. err os;
  walk = λ p. [];
  client = ok tt;
  send = λ u. ok 200;
  body = λ u. ok [];
  temp_file = λ b s. (ok [], s);
  create_dir_all = λ p s. (ok tt, s);
  last_segment = λ u. none;
}

found : get node share_json work (codes "s1") after ≡ ok (some note_share)
unfolding get
found = rw listed refl

read_item_example : (read_item node share_json work (codes "s1") 0 after).0 ≡ ok (codes "b")
unfolding read_item item_of
read_item_example = rw found refl

download_example :
    (download node share_json steady work (codes "s1") (codes "/tmp") after).0 ≡ ok (codes "/tmp")
unfolding download target_of parent split join
download_example = rw found refl

list_with_status_example :
    list_with_status node share_json work after
    ≡ ok (
        record {
          share = note_share;
          items_status = record { blob_hash = codes "b"; is_local = true } ∷ [];
          all_local = true;
        }
        ∷ [])
unfolding list_with_status with_statuses with_status statuses item_status
list_with_status_example = rw listed refl

auto_pin_example : auto_pin node note_share after ≡ after
unfolding auto_pin
auto_pin_example = refl

create_example :
    (create node
      (record steady {
        metadata = λ p. ok (record { is_dir = false; is_file = true; len = 4; modified = none });
      })
      share_json
      (codes "s2")
      9
      work
      none
      none
      (codes "k1")
      (codes "d1")
      (codes "/x/a.md")
      []).0
    ≡ ok (record {
      share_id = codes "s2";
      name = codes "a.md";
      description = none;
      items = record { path = none; blob_hash = codes "/x/a.md"; size_bytes = 4 } ∷ [];
      author_identity = codes "k1";
      author_node = codes "d1";
      created_at = 9;
    })
unfolding create add_blob_from_path publish_record open_doc parse_namespace_id file_name split
create_example = refl
