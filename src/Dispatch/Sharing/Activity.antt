-- ===== src/Dispatch/Sharing/Activity.antt =====
-- What the rows of `groups_list` count, and their order.
use shmark.Base.{
  ℕ, suc, ◌≤◌, ◌<◌, Text, ◌==◌, eq_refl, eq_sound, ltb, ◌⊎◌, ◌≡◌, ◌≢◌, refl, sym, ap, ◌∙◌, leb,
  some, true, List, [], ◌∷◌, map, length, filter, All, Bool-cases, inl, inr, arith, IsSorted,
  sort_by, sort_by-IsSorted, sort_by-perm, leb_trans,
}
use mathlib.Core.List.{Perm, Memᴰ}
use shmark.Maps.{lookup}
use shmark.Errors.{ok, Result-cases, ok-injective}
use shmark.Json.{Json}
use shmark.Action.{Held}
use shmark.Identity
use shmark.Device.{Suite}
use shmark.Groups
use shmark.Groups.{LocalGroup, StoredGroups, Groups}
use shmark.Groups.Valid.{IsValid}
use shmark.Groups.Effects.{lookup-mark_seen}
use shmark.Shares
use shmark.Shares.{ShareRecord, Node}
use shmark.Dispatch.{AppState}
use shmark.Dispatch.Sharing.{
  GroupRow, latest_of, is_unread, row_of, busiest_first, or_default, rows_of, groups_list,
}

below :
    (m n : ℕ) (rs : List ShareRecord)
    → leb m n ≡ true
    → All (λ r. leb r.created_at m ≡ true) rs
    → All (λ r. leb r.created_at n ≡ true) rs
below m n [] h a = tt
below m n (r ∷ rs) h a = (leb_trans r.created_at m n a.0 h, below m n rs h a.1)

latest_grows :
    (r : ShareRecord) (rs : List ShareRecord)
    → (leb r.created_at (latest_of (r ∷ rs)) ≡ true)
      × (leb (latest_of rs) (latest_of (r ∷ rs)) ≡ true)
unfolding latest_of
latest_grows r rs = ground arith

latest_bounds : (rs : List ShareRecord) → All (λ r. leb r.created_at (latest_of rs) ≡ true) rs
latest_bounds [] = tt
latest_bounds (r ∷ rs) =
    let (first, others) = latest_grows r rs in
    (first, below (latest_of rs) (latest_of (r ∷ rs)) rs others (latest_bounds rs))

-- How many shares of a list are unread: those of another identity that are newer than the group was
-- last seen.
pub data Unread (me : Text) (g : LocalGroup) : List ShareRecord → ℕ → Type 0 where
  no_shares : Unread me g [] 0
  own :
      (r : ShareRecord) (rs : List ShareRecord) (n : ℕ)
      → r.author_identity ≡ me
      → Unread me g rs n
      → Unread me g (r ∷ rs) n
  seen :
      (r : ShareRecord) (rs : List ShareRecord) (n : ℕ)
      → r.created_at ≤ g.last_seen_at
      → Unread me g rs n
      → Unread me g (r ∷ rs) n
  unread :
      (r : ShareRecord) (rs : List ShareRecord) (n : ℕ)
      → r.author_identity ≢ me
      → g.last_seen_at < r.created_at
      → Unread me g rs n
      → Unread me g (r ∷ rs) (suc n)

counted :
    (me : Text) (g : LocalGroup) (rs : List ShareRecord)
    → Unread me g rs (length (filter (is_unread me g) rs))
counted me g [] = no_shares
counted me g (r ∷ rs) =
    let rest = counted me g rs in
    elim (Bool-cases (r.author_identity == me)) [
      | inl mine ↦ rw mine (own r rs _ (eq_sound r.author_identity me mine) rest)
      | inr other ↦ elim (Bool-cases (ltb g.last_seen_at r.created_at)) [
        | inl new ↦
            rw (other, new)
              (unread r rs _ (λ e. cc (rw (e, eq_refl me) at other)) (ground (arith, new)) rest)
        | inr old ↦ rw (other, old) (seen r rs _ (ground (arith, old)) rest)
      ]
    ]

-- The latest activity: no share is newer, and it is the time of one of them, or 0 if there is none.
abbrev pub IsLatest : ℕ → List ShareRecord → Type 0
IsLatest n rs =
    All (λ r. leb r.created_at n ≡ true) rs
    × (((rs ≡ []) × (n ≡ 0)) ⊎ ((r : ShareRecord) × Memᴰ r rs × (r.created_at ≡ n)))

latest_attained :
    (rs : List ShareRecord)
    → ((rs ≡ []) × (latest_of rs ≡ 0))
      ⊎ ((r : ShareRecord) × Memᴰ r rs × (r.created_at ≡ latest_of rs))
unfolding latest_of
latest_attained [] = inl (refl, refl)
latest_attained (r ∷ rs) = elim (Bool-cases (leb r.created_at (latest_of rs))) [
  | inr first ↦ rw first (inr (r, Memᴰ.head refl, refl))
  | inl later ↦ elim (latest_attained rs) [
    | inl (none_left, zero_time) ↦ inr (r, Memᴰ.head refl, ground (arith, zero_time, later))
    | inr (x, m, e) ↦ rw later (inr (x, Memᴰ.tail m, e))
  ]
]

-- A row counts exactly the shares that are of another identity and newer than the group was last seen,
-- and has the time of the latest share, or 0 if there is none.
pub row_of_exact :
    (me : Text) (shares : List ShareRecord) (g : LocalGroup)
    → let row = row_of me shares g in
      Unread me g shares row.unread_count × IsLatest row.latest_share_at shares
unfolding row_of
row_of_exact me shares g = (counted me g shares, (latest_bounds shares, latest_attained shares))

none-Unread :
    (me : Text) (g : LocalGroup) (shares : List ShareRecord) (n : ℕ)
    → All (λ r. leb r.created_at g.last_seen_at ≡ true) shares
    → Unread me g shares n
    → n ≡ 0
none-Unread me g [] n a no_shares = refl
none-Unread me g (r ∷ rs) n a (own r' rs' n' e u) = none-Unread me g rs n a.1 u
none-Unread me g (r ∷ rs) n a (seen r' rs' n' e u) = none-Unread me g rs n a.1 u
none-Unread me g (r ∷ rs) n a (unread r' rs' n' d new u) = ground (arith, new, a.0)

-- If a query resolves to a group, and that is marked as seen at a time when it has no newer share, then
-- the index has the group with a row that counts no unread share, and every other group as before,
-- whatever the disk did.
pub unread-mark_seen :
    (groups_json : Json StoredGroups) (q : Text) (now : ℕ) (s : Held Groups) (x : LocalGroup)
    (me : Text) (shares : List ShareRecord) (k : Text)
    → IsValid s.value
    → Groups.resolve q s.value ≡ ok x
    → All (λ r. leb r.created_at now ≡ true) shares
    → let index = (Groups.mark_seen groups_json q now s).1.value.by_namespace in
      ((g : LocalGroup) × (lookup x.namespace_id index ≡ some g)
        × ((row_of me shares g).unread_count ≡ 0))
      × (((x.namespace_id == k) ≡ true) ⊎ (lookup k index ≡ lookup k s.value.by_namespace))
unread-mark_seen groups_json q now s x me shares k v found a =
    let marked : LocalGroup = record x { last_seen_at = now } in
    let at = lookup-mark_seen groups_json s q v x found now in
    (
      (
        marked,
        at x.namespace_id ∙ rw (eq_refl x.namespace_id) refl,
        none-Unread me marked shares _ a (row_of_exact me shares marked).0,
      ),
      (elim (Bool-cases (x.namespace_id == k)) [
        | inl same ↦ inl same
        | inr other ↦ inr (at k ∙ rw other refl)
      ]),
    )

-- The order of two rows: the latest activity first, and then the latest time of joining.
abbrev pub Before : GroupRow → GroupRow → Type 0
Before a b =
    (b.latest_share_at ≤ a.latest_share_at)
    × (a.latest_share_at ≡ b.latest_share_at → b.group.joined_at ≤ a.group.joined_at)

abbrev pub LatestFirst : List GroupRow → Type 0
LatestFirst [] = Unit
LatestFirst (row ∷ rows) = All (Before row) rows × LatestFirst rows

before : (a b : GroupRow) → busiest_first a b ≡ true → Before a b
before a b h = (ground (arith, h), λ e. ground (arith, h, e))

All-before :
    (a : GroupRow) (rows : List GroupRow)
    → All (λ b. busiest_first a b ≡ true) rows
    → All (Before a) rows
All-before a [] h = tt
All-before a (b ∷ rows) h = (before a b h.0, All-before a rows h.1)

latest_first : (rows : List GroupRow) → IsSorted busiest_first rows → LatestFirst rows
latest_first [] h = tt
latest_first (row ∷ rows) h = (All-before row rows h.0, latest_first rows h.1)

module _ {S : Type 0} (node : Node S) (k : Suite) (json : Json ShareRecord) where
  groups-rows_of :
      (me : Text) (gs : List LocalGroup) (s : S) (rows : List GroupRow)
      → rows_of node k json me gs s ≡ ok rows
      → map (λ row. row.group) rows ≡ gs
  unfolding rows_of row_of
  groups-rows_of me [] s rows h =
      ap (λ l. map (λ (row : GroupRow). row.group) l) (sym (ok-injective h))
  groups-rows_of me (g ∷ gs) s rows h =
      elim (Result-cases (or_default (Shares.list node json g s))) [
        | inl (shares, e) ↦ elim (Result-cases (rows_of node k json me gs s)) [
          | inl (rest, e') ↦
              ap (λ l. map (λ (row : GroupRow). row.group) l) (sym (ok-injective (rw (e, e') at h)))
              ∙ (λ i. g ∷ groups-rows_of me gs s rest e' i)
          | inr (inl (y, e')) ↦ cc (rw (e, e') at h)
          | inr (inr e') ↦ cc (rw (e, e') at h)
        ]
        | inr (inl (y, e)) ↦ cc (rw e at h)
        | inr (inr e) ↦ cc (rw e at h)
      ]

  -- What `groups_list` returns has one row for each group of the index. No row comes before one with a
  -- later activity, nor, among those with the same latest activity, before a group that was joined later.
  pub groups_list-IsSorted :
      (a : AppState) (s : S) (out : List GroupRow)
      → groups_list node k json a s ≡ ok out
      → LatestFirst out
        × ((rows : List GroupRow) × Perm out rows
            × (map (λ row. row.group) rows ≡ Groups.list a.groups))
  unfolding groups_list
  groups_list-IsSorted a s out h =
      elim (Result-cases (
        rows_of node k json (Identity.pubkey_hex k.hex k.dalek a.identity) (Groups.list a.groups)
          s)) [
            | inl (rows, e) ↦
                let same : sort_by busiest_first rows ≡ out = ok-injective (rw e at h) in
                rw (← same) (
                  latest_first _ (
                      sort_by-IsSorted busiest_first (λ x y h. ground arith)
                        (λ x y z h k. ground arith) rows),
                  (
                    rows,
                    sort_by-perm busiest_first rows,
                    groups-rows_of (Identity.pubkey_hex k.hex k.dalek a.identity)
                        (Groups.list a.groups) s rows e,
                  ),
                )
            | inr (inl (y, e)) ↦ cc (rw e at h)
            | inr (inr e) ↦ cc (rw e at h)
          ]
