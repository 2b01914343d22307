-- ===== src/Groups/Resolution.antt =====
-- How a name or an id finds a group.
use shmark.Base.{Text, codes, ◌≡◌, ◌≢◌, ◌↔◌, refl, sym, ◌∙◌, [], ◌∷◌, List}
use shmark.Errors.{ok, panic}
use shmark.Maps.Same.{SameMap}
use shmark.Maps.Search
use shmark.Groups.{LocalGroup, Groups, resolve_key, resolve, choose}
use shmark.Groups.Valid.{IsValid}

choose-Search :
    (q : Text) (l : List LocalGroup)
    → choose q l ≡ Search.choose (λ g. g.namespace_id) (λ g. g.local_alias) (codes "group") q l
unfolding choose Search.choose
choose-Search q [] = refl
choose-Search q (x ∷ []) = refl
choose-Search q (x ∷ y ∷ rest) = refl

resolve-Search :
    (q : Text) (s : Groups)
    → resolve q s
      ≡ Search.resolve (λ g. g.namespace_id) (λ g. g.local_alias) (codes "group") q s.by_namespace
unfolding resolve resolve_key Search.resolve Search.resolve_key
resolve-Search q s = rw choose-Search

-- What a query means: the group with that namespace id, or, where no group has that id, the only
-- group with that alias.
abbrev pub Target : Text → Groups → LocalGroup → Type 0
Target q s =
    Search.Target (λ g. g.namespace_id) (λ g. g.local_alias) (codes "group") q s.by_namespace

-- In a valid index a query resolves to a group exactly when the group is what the query means: the
-- group with that namespace id, or, where no group has that id, the only group with that alias.
pub resolve_exact :
    (q : Text) (s : Groups) → IsValid s → (x : LocalGroup) → (resolve q s ≡ ok x) ↔ Target q s x
resolve_exact q s v x =
    rw resolve-Search (Search.resolve_exact _ _ _ q s.by_namespace v.keyed v.distinct x)

-- In a valid index no query makes `resolve` panic on its index into the map.
pub resolve-ne-panic : (q : Text) (s : Groups) → IsValid s → resolve q s ≢ panic
resolve-ne-panic q s v =
    rw resolve-Search (Search.resolve-ne-panic _ _ _ q s.by_namespace v.keyed v.distinct)

-- Two valid indexes with the same entries give the same result to every query, errors included: the
-- iteration order of the hash map does not show.
pub resolve-SameMap :
    (q : Text) (s t : Groups)
    → IsValid s
    → IsValid t
    → SameMap s.by_namespace t.by_namespace
    → resolve q s ≡ resolve q t
resolve-SameMap q s t v w same =
    resolve-Search q s
    ∙ Search.resolve-SameMap _ _ _ q s.by_namespace t.by_namespace v.keyed v.distinct w.keyed
        w.distinct same
    ∙ sym (resolve-Search q t)
