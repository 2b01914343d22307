-- ===== src/Dispatch/Sharing.antt =====
-- The methods of crates/shmark-api/src/dispatch.rs on shares: `groups_list` with its counts,
-- `groups_share_code`, `share_create`, `shares_list`, `share_get_bytes` and `share_download`.
pub mod Activity
pub mod Pinning
mod Unresolved
mod Examples
use shmark.Base.{
  ℕ, zero, Text, codes, ◌++◌, ◌==◌, ◌&&◌, ◌||◌, eqb, leb, ltb, Option, none, some, Bool, true,
  false, not, List, [], ◌∷◌, filter, length, sort_by, ◌⊎◌, inl, inr, if◌then◌else◌,
}
use shmark.Errors
use shmark.Errors.{Error, Result, ok, err, panic, message, ok_or}
use shmark.Json.{Json}
use shmark.Crypto.{Hex}
use shmark.Paths.{join}
use shmark.Identity
use shmark.Device
use shmark.Device.{Suite}
use shmark.Groups
use shmark.Groups.{LocalGroup, Groups}
use shmark.Settings.{Settings}
use shmark.Shares
use shmark.Shares.{ShareRecord, ShareItemStatus, ShareWithStatus, Node, Io, ◌>>=◌}
use shmark.Shares.Create.{Sources, create}
use shmark.Shares.Fetch.{read_item, download}
use shmark.Dispatch.{AppState}

-- A row of `groups_list`
pub record GroupRow : Type 0 where
  pub group : LocalGroup
  pub latest_share_at : ℕ
  pub unread_count : ℕ

-- `iter().map(..).max().unwrap_or(0)`
pub latest_of : List ShareRecord → ℕ
latest_of [] = 0
latest_of (r ∷ rs) = let m = latest_of rs in if leb r.created_at m then m else r.created_at

-- A share that counts as unread: of another identity, and since the group was last seen.
abbrev pub is_unread : Text → LocalGroup → ShareRecord → Bool
is_unread my_identity g r =
    not (r.author_identity == my_identity) && ltb g.last_seen_at r.created_at

pub row_of : Text → List ShareRecord → LocalGroup → GroupRow
unfolding latest_of
row_of my_identity shares g = record {
  group = g;
  latest_share_at = latest_of shares;
  unread_count = length (filter (is_unread my_identity g) shares);
}

-- The order of `groups_list`: the latest activity first, and then the latest time of joining.
abbrev pub busiest_first : GroupRow → GroupRow → Bool
busiest_first a b =
    ltb b.latest_share_at a.latest_share_at
    || (eqb a.latest_share_at b.latest_share_at && leb b.group.joined_at a.group.joined_at)

-- `unwrap_or_default`
or_default : Result (List ShareRecord) → Result (List ShareRecord)
or_default (ok rs) = ok rs
or_default (err e) = ok []
or_default panic = panic

-- A row of `shares_list`
pub record ShareRow : Type 0 where
  pub group : Text
  pub namespace_id : Text
  pub share : ShareWithStatus

-- The shares for which `shares_list` spawns a task that fetches them.
abbrev pub wanted : Bool → Text → ShareWithStatus → Bool
wanted auto_pin my_identity s =
    auto_pin && not s.all_local && not (s.share.author_identity == my_identity)

shown : LocalGroup → List ShareWithStatus → List ShareRow
shown g [] = []
shown g (s ∷ ss) =
    record { group = g.local_alias; namespace_id = g.namespace_id; share = s } ∷ shown g ss

records : List ShareWithStatus → List ShareRecord
records [] = []
records (s ∷ ss) = s.share ∷ records ss

-- What `groups_share_code` returns.
pub record ShareCode : Type 0 where
  pub group : LocalGroup
  pub code : Text
  pub mode : Text

namespace_of : Text ⊎ Text → Result Text
namespace_of (inl e) = err (message (codes "parse namespace id: " ++ e))
namespace_of (inr ns) = ok ns

-- `parse_ns` is `NamespaceId::from_str`, with the text of its error on the left; `opened` is
-- `Docs::open`, whether the document is there; `share` is `Doc::share`, for reading only or not.
pub groups_share_code :
    (Text → Text ⊎ Text)
    → (Text → Result Bool)
    → (Bool → Text → Result Text)
    → Text
    → Bool
    → AppState
    → Result ShareCode
unfolding namespace_of
groups_share_code parse_ns opened share name_or_id read_only a =
    Errors.◌>>=◌ (Groups.resolve name_or_id a.groups) λ group.
      Errors.◌>>=◌ (namespace_of (parse_ns group.namespace_id)) λ ns.
        Errors.◌>>=◌ (opened ns) λ there.
          if there
          then Errors.◌>>=◌ (share read_only ns) (λ ticket. ok (record {
            group = group;
            code = ticket;
            mode = if read_only then codes "read" else codes "write";
          }))
          else err (message (codes "group doc not found"))

module _ {S : Type 0} (node : Node S) (k : Suite) (json : Json ShareRecord) where
  rows_of : Text → List LocalGroup → S → Result (List GroupRow)
  unfolding row_of or_default
  rows_of my_identity [] s = ok []
  rows_of my_identity (g ∷ gs) s = Errors.◌>>=◌ (or_default (Shares.list node json g s)) λ shares.
      Errors.◌>>=◌ (rows_of my_identity gs s) λ rows. ok (row_of my_identity shares g ∷ rows)

  pub groups_list : AppState → S → Result (List GroupRow)
  unfolding rows_of
  groups_list a s =
      Errors.◌>>=◌ (rows_of (Identity.pubkey_hex k.hex k.dalek a.identity) (Groups.list a.groups) s)
        λ out. ok (sort_by busiest_first out)

  -- The loops of `shares_list`: the rows, or the error that ended them, and the records for which a
  -- task was spawned before. The tasks run `auto_pin` of the part of shares.
  list_all : Bool → Text → List LocalGroup → S → Result (List ShareRow) × List ShareRecord
  unfolding shown records
  list_all auto_pin my_identity [] s = (ok [], [])
  list_all auto_pin my_identity (g ∷ gs) s = elim (Shares.list_with_status node json g s) [
    | ok shares ↦
        let (rest, spawned) = list_all auto_pin my_identity gs s in
        (
          Errors.◌>>=◌ rest (λ rows. ok (shown g shares ++ rows)),
          records (filter (wanted auto_pin my_identity) shares) ++ spawned,
        )
    | err e ↦ (err e, [])
    | panic ↦ (panic, [])
  ]

  chosen : Option Text → Groups → Result (List LocalGroup)
  chosen (some name) groups = Errors.◌>>=◌ (Groups.resolve name groups) λ g. ok (g ∷ [])
  chosen none groups = ok (Groups.list groups)

  -- `group` is none also when the parameters do not parse.
  pub shares_list : Option Text → AppState → S → Result (List ShareRow) × List ShareRecord
  unfolding list_all chosen
  shares_list group a s = elim (chosen group a.groups) [
    | ok groups ↦
        list_all a.settings.auto_pin (Identity.pubkey_hex k.hex k.dalek a.identity) groups s
    | err e ↦ (err e, [])
    | panic ↦ (panic, [])
  ]

  module _ (sources : Sources S) where
    -- A step on the node for the group that a query means.
    in_group : {A : Type 0} → Text → AppState → (LocalGroup → Io S A) → Io S A
    in_group query a f = (λ s. (Groups.resolve query a.groups, s)) >>= f

    pub share_create :
        Text → ℕ → Text → Text → Option Text → Option Text → AppState → Io S ShareRecord
    unfolding in_group
    share_create uuid now group path name description a = in_group group a (λ g.
        create node sources json uuid now g name description
          (Identity.pubkey_hex k.hex k.dalek a.identity) (Device.node_pubkey_hex k a.device) path)

    -- The answer of `share_get_bytes`: the bytes in the standard alphabet, and how many they are.
    pub share_get_bytes : (Text → Text) → Text → Text → ℕ → AppState → Io S (Text × ℕ)
    unfolding in_group
    share_get_bytes base64 group share_id item a =
        in_group group a (λ g. read_item node json g share_id item) >>= λ bytes.
        λ s. (ok (base64 bytes, length bytes), s)

    -- `current_dir` is `std::env::current_dir`.
    pub share_download : Result Text → Text → Text → Option Text → AppState → Io S Text
    unfolding in_group
    share_download current_dir group share_id dest a =
        in_group group a
          (λ g. (λ s. (dest_of dest, s)) >>= λ dir. download node json sources g share_id dir)
      where
        dest_of : Option Text → Result Text
        dest_of (some d) = ok d
        dest_of none = Errors.◌>>=◌ current_dir λ dir. ok (join dir (codes "shmark-downloads"))
