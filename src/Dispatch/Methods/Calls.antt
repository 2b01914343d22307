-- ===== src/Dispatch/Methods/Calls.antt =====
-- That every method of the table keeps the state of the daemon valid.
use shmark.Base.{
  ◌+◌, Text, ◌≡◌, ◌==◌, Option-cases, inl, inr, some, subst, All, List, [], ◌∷◌, ◌++◌, Bool-cases,
}
use mathlib.Core.Option.{some-injective}
use shmark.Errors.{Result, Result-cases}
use shmark.Maps.{Map, lookup}
use shmark.Action.{Action, Held, pure, ◌>>◌, state_then_pure}
use shmark.Shares.{Io}
use shmark.Dispatch.{
  AppState, groups_new, groups_join, groups_mark_seen, groups_rename, groups_remove,
  groups_set_note, contacts_upsert, contacts_remove, contacts_set_note, settings_set,
}
use shmark.Dispatch.Preserved.{IsValidState, Preserves, pair_create-Preserves, pair_join-Preserves}
use shmark.Dispatch.Valid.{
  Request, new_group, join_group, see_group, rename_group, drop_group, note_group, add_contact,
  drop_contact, note_contact, change_settings, stop, serve, serve-IsValid,
}
use shmark.Dispatch.Methods.{
  Reply, Draws, Daemon, Service, Handler, changing, looking, on_node, shares_list_handler,
}
use shmark.Dispatch.Methods.Table.{
  methods, dispatch, identity_methods, group_methods, share_methods, device_methods,
  contact_methods,
}

lookup-All {ℓ κ} :
    {V : Type ℓ} (P : V → Type κ) (k : Text) (m : Map V) (v : V)
    → All (λ e. P e.1) m
    → lookup k m ≡ some v
    → P v
unfolding lookup
lookup-All P k [] v a h = cc
lookup-All P k ((j, w) ∷ m) v a h = elim (Bool-cases (j == k)) [
  | inl e ↦ subst P (some-injective w v (rw e at h)) a.0
  | inr e ↦ lookup-All P k m v a.1 (rw e at h)
]

All-append {ℓ κ} :
    {A : Type ℓ} (P : A → Type κ) (xs ys : List A) → All P xs → All P ys → All P (xs ++ ys)
All-append P [] ys a b = b
All-append P (x ∷ xs) ys a b = (a.0, All-append P xs ys a.1 b)

module _ {S Value : Type 0} (d : Daemon S Value) where
  Keeps : Handler S Value → Type 0
  Keeps h =
      (v : Value) (s : Service S) → IsValidState s.app.value → IsValidState (h v s).1.app.value

  changing-Keeps :
      {P A : Type 0} (parse : Value → Result P) (m : P → Action AppState A) (shown : P → A → Reply)
      → ((p : P) → Preserves (m p))
      → Keeps (changing d parse m shown)
  unfolding Keeps changing
  changing-Keeps parse m shown keeps v s valid = elim (Result-cases (parse v)) [
    | inl (p, e) ↦ rw (changing, e) (keeps p s.app valid)
    | inr (inl (y, e)) ↦ rw (changing, e) valid
    | inr (inr e) ↦ rw (changing, e) valid
  ]

  looking-Keeps :
      {P A : Type 0} (parse : Value → Result P) (m : P → Service S → Result A) (shown : A → Reply)
      → Keeps (looking d parse m shown)
  unfolding Keeps looking
  looking-Keeps parse m shown v s valid = elim (Result-cases (parse v)) [
    | inl (p, e) ↦ rw (looking, e) valid
    | inr (inl (y, e)) ↦ rw (looking, e) valid
    | inr (inr e) ↦ rw (looking, e) valid
  ]

  on_node-Keeps :
      {P A : Type 0} (parse : Value → Result P) (m : P → AppState → Io S A) (shown : A → Reply)
      → Keeps (on_node d parse m shown)
  unfolding Keeps on_node
  on_node-Keeps parse m shown v s valid = elim (Result-cases (parse v)) [
    | inl (p, e) ↦ rw (on_node, e) valid
    | inr (inl (y, e)) ↦ rw (on_node, e) valid
    | inr (inr e) ↦ rw (on_node, e) valid
  ]

  shares_list-Keeps : Keeps (shares_list_handler d)
  unfolding Keeps shares_list_handler
  shares_list-Keeps v s valid = valid

  -- What a call leaves, if a call of the same method as a request does.
  of_request :
      {A : Type 0} (m : Action AppState A) (s : Held AppState)
      → IsValidState ((m >> pure tt) s).1.value
      → IsValidState (m s).1.value
  of_request m s valid = rw (state_then_pure m tt s) at valid

  module _ (w : Draws) where
    abbrev Asked : Request → Held AppState → Type 0
    Asked r s =
        IsValidState (serve d.joiner.groups_json d.contacts_json d.settings_json r s).1.value

    after : (r : Request) (s : Held AppState) → IsValidState s.value → Asked r s
    after r s v = serve-IsValid d.joiner.groups_json d.contacts_json d.settings_json s v r

    identity_methods-Keeps : All (λ e. Keeps e.1) (identity_methods d w)
    unfolding identity_methods serve
    identity_methods-Keeps = (
      looking-Keeps _ _ _,
      (looking-Keeps _ _ _, (changing-Keeps _ _ _ (λ p s v. after stop s v), tt)),
    )

    group_methods-Keeps : All (λ e. Keeps e.1) (group_methods d w)
    unfolding group_methods serve
    group_methods-Keeps = (
      changing-Keeps _ _ _ (λ alias s v.
          of_request
            (groups_new d.joiner.groups_json d.contacts_json d.settings_json w.now w.created alias)
            s (after (new_group w.now w.created alias) s v)),
      (
        looking-Keeps _ _ _,
        (
          changing-Keeps _ _ _ (λ q s v.
              of_request
                (groups_mark_seen d.joiner.groups_json d.contacts_json d.settings_json w.now q) s
                (after (see_group w.now q) s v)),
          (
            looking-Keeps _ _ _,
            (
              changing-Keeps _ _ _ (λ p s v.
                  of_request
                    (groups_join d.joiner.groups_json d.contacts_json d.settings_json w.now w.import
                      p.0 p.1)
                    s (after (join_group w.now w.import p.0 p.1) s v)),
              (
                changing-Keeps _ _ _ (λ p s v.
                    of_request
                      (groups_rename d.joiner.groups_json d.contacts_json d.settings_json p.0 p.1) s
                      (after (rename_group p.0 p.1) s v)),
                (
                  changing-Keeps _ _ _ (λ q s v.
                      of_request
                        (groups_remove d.joiner.groups_json d.contacts_json d.settings_json q) s
                        (after (drop_group q) s v)),
                  tt,
                ),
              ),
            ),
          ),
        ),
      ),
    )

    share_methods-Keeps : All (λ e. Keeps e.1) (share_methods d w)
    unfolding share_methods serve
    share_methods-Keeps = (
      looking-Keeps _ _ _,
      (
        looking-Keeps _ _ _,
        (
          changing-Keeps _ _ _ (λ c s v.
              of_request
                (settings_set d.joiner.groups_json d.contacts_json d.settings_json w.data_dir_ready
                  d.settings_path c)
                s (after (change_settings w.data_dir_ready d.settings_path c) s v)),
          (
            on_node-Keeps _ _ _,
            (shares_list-Keeps, (on_node-Keeps _ _ _, (on_node-Keeps _ _ _, tt))),
          ),
        ),
      ),
    )

    device_methods-Keeps : All (λ e. Keeps e.1) (device_methods d w)
    unfolding device_methods serve
    device_methods-Keeps = (
      changing-Keeps _ _ _ (λ p.
          pair_create-Preserves d.joiner.suite d.joiner.postcard d.joiner.base64 w.random w.clock
            w.addr),
      (changing-Keeps _ _ _ (λ p. pair_join-Preserves d.joiner p.0 p.1), (looking-Keeps _ _ _, tt)),
    )

    contact_methods-Keeps : All (λ e. Keeps e.1) (contact_methods d w)
    unfolding contact_methods serve
    contact_methods-Keeps = (
      looking-Keeps _ _ _,
      (
        changing-Keeps _ _ _ (λ p s v.
            of_request
              (contacts_upsert d.joiner.groups_json d.contacts_json d.settings_json w.now p.0 p.1) s
              (after (add_contact w.now p.0 p.1) s v)),
        (
          changing-Keeps _ _ _ (λ q s v.
              of_request (contacts_remove d.joiner.groups_json d.contacts_json d.settings_json q) s
                (after (drop_contact q) s v)),
          (
            changing-Keeps _ _ _ (λ p s v.
                of_request
                  (contacts_set_note d.joiner.groups_json d.contacts_json d.settings_json p.0 p.1) s
                  (after (note_contact p.0 p.1) s v)),
            (
              changing-Keeps _ _ _ (λ p s v.
                  of_request
                    (groups_set_note d.joiner.groups_json d.contacts_json d.settings_json p.0 p.1) s
                    (after (note_group p.0 p.1) s v)),
              (looking-Keeps _ _ _, (looking-Keeps _ _ _, tt)),
            ),
          ),
        ),
      ),
    )

    methods-Keeps : All (λ e. Keeps e.1) (methods d w)
    unfolding methods
    methods-Keeps =
        let P : Text × Handler S Value → Type 0 = λ e. Keeps e.1 in
        let last = device_methods d w ++ contact_methods d w in
        let a =
          All-append P (device_methods d w) (contact_methods d w) device_methods-Keeps
            contact_methods-Keeps in
        let b = All-append P (share_methods d w) last share_methods-Keeps a in
        let c =
          All-append P (group_methods d w) (share_methods d w ++ last) group_methods-Keeps b in
        All-append P (identity_methods d w) (group_methods d w ++ (share_methods d w ++ last))
          identity_methods-Keeps c

  -- No call of any method, whatever its name and its parameters, makes a valid state invalid.
  pub dispatch-IsValid :
      (method : Text) (params : Value) (s : Service S)
      → IsValidState s.app.value
      → IsValidState (dispatch d method params s).1.app.value
  unfolding dispatch Keeps lookup
  dispatch-IsValid method params s valid =
      elim (Option-cases (lookup method (methods d (d.draws s.calls)))) [
        | inl absent ↦ rw (dispatch, absent) valid
        | inr (run, found) ↦ rw found (
            lookup-All Keeps method (methods d (d.draws s.calls)) run
              (methods-Keeps (d.draws s.calls)) found params (record s { calls = s.calls + 1 })
              valid)
      ]
