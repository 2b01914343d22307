-- ===== src/Maps/Search.antt =====
-- A query by key or by name, as `resolve_key` and `resolve` of the group index and of the contact
-- book make it, over any values with a key and a name.
use shmark.Base.{
  Text, ◌==◌, eq_refl, eq_sound, ◌≡◌, ◌≢◌, ◌↔◌, inl, inr, refl, ap, sym, subst, ◌∙◌, some, none,
  Bool, [], ◌∷◌, arith, List, filter, Option-cases, length, if◌then◌else◌,
}
use shmark.Errors.{Result, ok, err, panic, no_match, ambiguous, expect, ◌>>=◌, ok-injective}
use shmark.Maps.{Map, lookup, contains_key, values}
use shmark.Maps.Distinct.{Distinct}
use shmark.Maps.Keyed.{KeyedBy, lookup_of_match, two_matches}
use shmark.Maps.Same.{SameMap, count_matches-SameMap, only_match, no_match as no_match_of}

module _ {ℓ} {V : Type ℓ} (key name : V → Text) (noun : Text) where
  abbrev named : Text → V → Bool
  named q x = name x == q

  unfoldable pub choose : Text → List V → Result Text
  choose q [] = err (no_match noun q)
  choose q (x ∷ []) = ok (key x)
  choose q (x ∷ y ∷ rest) = err (ambiguous (length (x ∷ y ∷ rest)) noun q)

  unfoldable pub resolve_key : Text → Map V → Result Text
  resolve_key q m = if contains_key q m then ok q else choose q (filter (named q) (values m))

  unfoldable pub resolve : Text → Map V → Result V
  resolve q m = resolve_key q m >>= λ k. expect (lookup k m)

  -- What a query means: the value at that key; else the only value with that name.
  pub data Target (q : Text) (s : Map V) (x : V) : Type ℓ where
    by_id : lookup q s ≡ some x → Target q s x
    by_alias :
        lookup q s ≡ none
        → lookup (key x) s ≡ some x
        → name x ≡ q
        → ((k : Text) (y : V) → lookup k s ≡ some y → name y ≡ q → y ≡ x)
        → Target q s x

  module _ (q : Text) (s : Map V) where
    abbrev matches : List V
    matches = filter (named q) (values s)

    resolve_by_id : (y : V) → lookup q s ≡ some y → resolve q s ≡ ok y
    unfolding resolve resolve_key
    resolve_by_id y found = ground arith

    resolve_by_alias :
        lookup q s ≡ none → resolve q s ≡ (choose q matches >>= λ k. expect (lookup k s))
    unfolding resolve resolve_key
    resolve_by_alias missing = ground arith

    module _ (keyed : KeyedBy key s) (distinct : Distinct s) where
      no_match_in : (x : V) → matches ≡ [] → lookup (key x) s ≡ some x → name x ≡ q → ⊥
      no_match_in x e at alias = no_match_of (named q) s (key x) x at (rw alias (eq_refl q)) e

      module _ (missing : lookup q s ≡ none) where
        -- The three results of a search by alias.
        resolve_none : matches ≡ [] → resolve q s ≡ err (no_match noun q)
        unfolding choose
        resolve_none e = rw (resolve_by_alias missing, e)

        resolve_one : (y : V) → matches ≡ y ∷ [] → resolve q s ≡ ok y
        unfolding choose
        resolve_one y e =
            rw (
              resolve_by_alias missing,
              e,
              (lookup_of_match key (named q) s y [] keyed distinct e).0,
            )

        resolve_many :
            (y z : V) (rest : List V)
            → matches ≡ y ∷ z ∷ rest
            → resolve q s ≡ err (ambiguous (length (y ∷ z ∷ rest)) noun q)
        unfolding choose
        resolve_many y z rest e = rw (resolve_by_alias missing, e)

        matches-Target : (x : V) (l : List V) → matches ≡ l → resolve q s ≡ ok x → Target q s x
        matches-Target x [] e h = cc (resolve_none e)
        matches-Target x (y ∷ z ∷ rest) e h = cc (resolve_many y z rest e)
        matches-Target x (y ∷ []) e h =
            let y-eq-x : y ≡ x = ok-injective (sym (resolve_one y e) ∙ h) in
            subst (Target q s) y-eq-x (
              by_alias missing (lookup_of_match key (named q) s y [] keyed distinct e).0
                (eq_sound _ _ (lookup_of_match key (named q) s y [] keyed distinct e).1)
                (λ k w at alias. only_match (named q) s k y w at (rw alias (eq_refl q)) e))

        matches_of-Target :
            (x : V) (l : List V)
            → matches ≡ l
            → lookup (key x) s ≡ some x
            → name x ≡ q
            → ((k : Text) (y : V) → lookup k s ≡ some y → name y ≡ q → y ≡ x)
            → resolve q s ≡ ok x
        matches_of-Target x [] e at alias only = absurd (no_match_in x e at alias)
        matches_of-Target x (y ∷ []) e at alias only =
            resolve_one y e
            ∙ ap ok (sym (only_match (named q) s (key x) y x at (rw alias (eq_refl q)) e))
        matches_of-Target x (y ∷ z ∷ rest) e at alias only =
            let (at_y, alias_y) = lookup_of_match key (named q) s y (z ∷ rest) keyed distinct e in
            let (at_z, alias_z, differ) = two_matches key (named q) s y z rest keyed distinct e in
            absurd (
              differ (
                ap key (
                  only _ y at_y (eq_sound _ _ alias_y)
                  ∙ sym (only _ z at_z (eq_sound _ _ alias_z)))))

      resolve-Target : (x : V) → resolve q s ≡ ok x → Target q s x
      resolve-Target x h = elim (Option-cases (lookup q s)) [
        | inr (y, found) ↦ by_id (found ∙ ap some (ok-injective (sym (resolve_by_id y found) ∙ h)))
        | inl missing ↦ matches-Target missing x matches refl h
      ]

      resolve_of-Target : (x : V) → Target q s x → resolve q s ≡ ok x
      resolve_of-Target x (by_id found) = resolve_by_id x found
      resolve_of-Target x (by_alias missing at alias only) =
          matches_of-Target missing x matches refl at alias only

      -- A query resolves exactly to what it means.
      pub resolve_exact : (x : V) → (resolve q s ≡ ok x) ↔ Target q s x
      resolve_exact x = (resolve-Target x, resolve_of-Target x)

      ne-panic_of-matches : lookup q s ≡ none → (l : List V) → matches ≡ l → resolve q s ≢ panic
      ne-panic_of-matches missing [] e h = cc (resolve_none missing e)
      ne-panic_of-matches missing (y ∷ []) e h = cc (resolve_one missing y e)
      ne-panic_of-matches missing (y ∷ z ∷ rest) e h = cc (resolve_many missing y z rest e)

      pub resolve-ne-panic : resolve q s ≢ panic
      resolve-ne-panic h = elim (Option-cases (lookup q s)) [
        | inr (y, found) ↦ cc (resolve_by_id y found)
        | inl missing ↦ ne-panic_of-matches missing matches refl h
      ]

  module _ (q : Text) (s t : Map V) (keyed : KeyedBy key s) (distinct : Distinct s)
      (keyed' : KeyedBy key t) (distinct' : Distinct t) (same : SameMap s t) where
    same_matches :
        lookup q s ≡ none
        → lookup q t ≡ none
        → (l m : List V) → matches q s ≡ l
        → matches q t ≡ m
        → length l ≡ length m
        → resolve q s ≡ resolve q t
    same_matches a b [] [] e f n =
        resolve_none q s keyed distinct a e ∙ sym (resolve_none q t keyed' distinct' b f)
    same_matches a b (x ∷ []) (y ∷ []) e f n =
        let (at_y, alias_y) = lookup_of_match key (named q) t y [] keyed' distinct' f in
        resolve_one q s keyed distinct a x e
        ∙ ap ok (sym (only_match (named q) s (key y) x y (same _ ∙ at_y) alias_y e))
        ∙ sym (resolve_one q t keyed' distinct' b y f)
    same_matches a b (x ∷ x' ∷ l) (y ∷ y' ∷ m) e f n =
        resolve_many q s keyed distinct a x x' l e
        ∙ ap (λ k. err (ambiguous k noun q)) n
        ∙ sym (resolve_many q t keyed' distinct' b y y' m f)
    same_matches a b [] (y ∷ m) e f n = absurd (omega arith)
    same_matches a b (x ∷ l) [] e f n = absurd (omega arith)
    same_matches a b (x ∷ []) (y ∷ y' ∷ m) e f n = absurd (omega arith)
    same_matches a b (x ∷ x' ∷ l) (y ∷ []) e f n = absurd (omega arith)

    -- Maps with the same lookups give the same result to every query, errors included.
    pub resolve-SameMap : resolve q s ≡ resolve q t
    resolve-SameMap = elim (Option-cases (lookup q s)) [
      | inr (y, found) ↦
          resolve_by_id q s y found ∙ sym (resolve_by_id q t y (sym (same q) ∙ found))
      | inl missing ↦
          same_matches missing (sym (same q) ∙ missing) (matches q s) (matches q t) refl refl
            (count_matches-SameMap (named q) s t distinct distinct' same)
    ]
