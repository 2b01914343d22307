-- ===== src/Dispatch/Sharing/Pinning.antt =====
-- For which shares `shares_list` spawns a task that fetches them.
use shmark.Base.{
  Text, ◌≡◌, ◌==◌, not, ◌&&◌, true, arith, if◌then◌else◌, refl, sym, ap, ◌∙◌, Option, Bool, false,
  List, [], ◌∷◌, ◌++◌, map, filter, Bool-cases, inl, inr,
}
use mathlib.Core.List.{map-append}
use shmark.Errors.{ok, Result-cases, ok-injective}
use shmark.Json.{Json}
use shmark.Identity
use shmark.Device.{Suite}
use shmark.Groups.{LocalGroup}
use shmark.Shares
use shmark.Shares.{ShareRecord, ShareWithStatus, Node}
use shmark.Dispatch.{AppState}
use shmark.Dispatch.Sharing.{ShareRow, wanted, shown, records, list_all, chosen, shares_list}

filter-append {ℓ} :
    {A : Type ℓ} (p : A → Bool) (xs ys : List A) → filter p (xs ++ ys) ≡ filter p xs ++ filter p ys
filter-append p [] ys = refl
filter-append p (x ∷ xs) ys = elim (Bool-cases (p x)) [
  | inl e ↦ rw e (λ i. x ∷ filter-append p xs ys i)
  | inr e ↦ rw e (filter-append p xs ys)
]

-- The records of the rows that a task fetches.
abbrev fetched : Bool → Text → List ShareRow → List ShareRecord
fetched auto_pin me rows =
    map (λ row. row.share.share) (filter (λ row. wanted auto_pin me row.share) rows)

-- Which shares are due to be fetched: those of another identity that are not all local.
abbrev is_due : Text → ShareRow → Bool
is_due me row = not (row.share.share.author_identity == me) && not row.share.all_local

abbrev pub due : Text → List ShareRow → List ShareRecord
due me rows = map (λ row. row.share.share) (filter (is_due me) rows)

wanted-is_due : (me : Text) (row : ShareRow) → wanted true me row.share ≡ is_due me row
wanted-is_due me row = ground arith

fetched-due :
    (auto_pin : Bool) (me : Text) (rows : List ShareRow)
    → fetched auto_pin me rows ≡ (if auto_pin then due me rows else [])
fetched-due auto_pin me [] = ground arith
fetched-due false me (row ∷ rows) = fetched-due false me rows
fetched-due true me (row ∷ rows) = elim (Bool-cases (is_due me row)) [
  | inl e ↦ rw (fetched, due, wanted-is_due, e) (λ i. row.share.share ∷ fetched-due true me rows i)
  | inr e ↦ rw (fetched, due, wanted-is_due, e) (fetched-due true me rows)
]

fetched-shown :
    (auto_pin : Bool) (me : Text) (g : LocalGroup) (ss : List ShareWithStatus)
    → records (filter (wanted auto_pin me) ss) ≡ fetched auto_pin me (shown g ss)
unfolding records shown
fetched-shown auto_pin me g [] = refl
fetched-shown auto_pin me g (s ∷ ss) = elim (Bool-cases (wanted auto_pin me s)) [
  | inl e ↦ rw (fetched, e) (λ i. s.share ∷ fetched-shown auto_pin me g ss i)
  | inr e ↦ rw (fetched, e) (fetched-shown auto_pin me g ss)
]

fetched-append :
    (auto_pin : Bool) (me : Text) (xs ys : List ShareRow)
    → fetched auto_pin me (xs ++ ys) ≡ fetched auto_pin me xs ++ fetched auto_pin me ys
fetched-append auto_pin me xs ys =
    ap (λ l. map (λ (row : ShareRow). row.share.share) l)
      (filter-append (λ (row : ShareRow). wanted auto_pin me row.share) xs ys)
    ∙ map-append (λ (row : ShareRow). row.share.share) _ _

wanted_off : (me : Text) (ss : List ShareWithStatus) → records (filter (wanted false me) ss) ≡ []
unfolding records
wanted_off me [] = refl
wanted_off me (s ∷ ss) = wanted_off me ss

module _ {S : Type 0} (node : Node S) (k : Suite) (json : Json ShareRecord) where
  list_all-fetched :
      (auto_pin : Bool) (me : Text) (gs : List LocalGroup) (s : S) (rows : List ShareRow)
      → (list_all node k json auto_pin me gs s).0 ≡ ok rows
      → (list_all node k json auto_pin me gs s).1 ≡ fetched auto_pin me rows
  unfolding list_all
  list_all-fetched auto_pin me [] s rows h = ap (fetched auto_pin me) (ok-injective h)
  list_all-fetched auto_pin me (g ∷ gs) s rows h =
      elim (Result-cases (Shares.list_with_status node json g s)) [
        | inl (shares, e) ↦ elim (Result-cases (list_all node k json auto_pin me gs s).0) [
          | inl (rest, e') ↦
              let same : shown g shares ++ rest ≡ rows = ok-injective (rw (list_all, e, e') at h) in
              rw (list_all, e)
                ((λ i.
                    fetched-shown auto_pin me g shares i
                    ++ list_all-fetched auto_pin me gs s rest e' i)
                  ∙ sym (fetched-append auto_pin me (shown g shares) rest)
                  ∙ ap (fetched auto_pin me) same)
          | inr (inl (y, e')) ↦ cc (rw (list_all, e, e') at h)
          | inr (inr e') ↦ cc (rw (list_all, e, e') at h)
        ]
        | inr (inl (y, e)) ↦ cc (rw (list_all, e) at h)
        | inr (inr e) ↦ cc (rw (list_all, e) at h)
      ]

  list_all_off :
      (me : Text) (gs : List LocalGroup) (s : S) → (list_all node k json false me gs s).1 ≡ []
  unfolding list_all
  list_all_off me [] s = refl
  list_all_off me (g ∷ gs) s = elim (Result-cases (Shares.list_with_status node json g s)) [
    | inl (shares, e) ↦ rw (list_all, e, wanted_off me shares) (list_all_off me gs s)
    | inr (inl (y, e)) ↦ rw (list_all, e) refl
    | inr (inr e) ↦ rw (list_all, e) refl
  ]

  -- With `auto_pin` off, `shares_list` spawns no task, whether it succeeds or not.
  shares_list_off :
      (group : Option Text) (a : AppState) (s : S)
      → a.settings.auto_pin ≡ false
      → (shares_list node k json group a s).1 ≡ []
  unfolding shares_list
  shares_list_off group a s off = elim (Result-cases (chosen node k json group a.groups)) [
    | inl (gs, e) ↦
        rw (shares_list, e)
          (ap
              (λ pin.
                (list_all node k json pin (Identity.pubkey_hex k.hex k.dalek a.identity) gs s).1)
              off
            ∙ list_all_off (Identity.pubkey_hex k.hex k.dalek a.identity) gs s)
    | inr (inl (y, e)) ↦ rw (shares_list, e) refl
    | inr (inr e) ↦ rw (shares_list, e) refl
  ]

  -- When `shares_list` succeeds, it has spawned a task for exactly the listed shares that are of
  -- another identity and not all local, in their order, if the setting `auto_pin` is on, and for no
  -- share if it is off.
  pub shares_list_pins :
      (group : Option Text) (a : AppState) (s : S) (rows : List ShareRow)
      → (shares_list node k json group a s).0 ≡ ok rows
      → (shares_list node k json group a s).1 ≡ (
          if a.settings.auto_pin
          then due (Identity.pubkey_hex k.hex k.dalek a.identity) rows
          else [])
  unfolding shares_list
  shares_list_pins group a s rows h = elim (Result-cases (chosen node k json group a.groups)) [
    | inl (gs, e) ↦
        rw (shares_list, e)
          (list_all-fetched a.settings.auto_pin _ gs s rows (rw (shares_list, e) at h)
            ∙ fetched-due a.settings.auto_pin _ rows)
    | inr (inl (y, e)) ↦ cc (rw (shares_list, e) at h)
    | inr (inr e) ↦ cc (rw (shares_list, e) at h)
  ]
