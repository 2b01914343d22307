-- ===== src/Maps/Same.antt =====
-- Two maps with the same lookups: what does not depend on the order of the entries.
use shmark.Base.{
  ℕ, ◌+◌, Text, eq_iff, eq_refl, ◌≡◌, ◌≢◌, refl, none, some, Bool, true, [], ◌∷◌, arith, filter,
  length, if◌then◌else◌,
}
use shmark.Maps.{Map, lookup, remove, values}
use shmark.Maps.Distinct.{Distinct, remove-Distinct}
use shmark.Maps.Laws.{lookup-remove}

abbrev one_if : Bool → ℕ
one_if b = if b then 1 else 0

module _ {ℓ} {V : Type ℓ} where
  abbrev pub SameMap : Map V → Map V → Type ℓ
  SameMap m n = (k : Text) → lookup k m ≡ lookup k n

  abbrev pub count_matches : (V → Bool) → Map V → ℕ
  count_matches p m = length (filter p (values m))

  remove_absent : (k : Text) (m : Map V) → lookup k m ≡ none → remove k m ≡ m
  unfolding lookup remove
  remove_absent k [] h = refl
  remove_absent k ((j, w) ∷ m) h = ground (arith, remove_absent k m)

  count_matches-remove :
      (p : V → Bool) (k : Text) (v : V) (m : Map V)
      → Distinct m
      → lookup k m ≡ some v
      → count_matches p m ≡ one_if (p v) + count_matches p (remove k m)
  unfolding lookup remove
  count_matches-remove p k v [] d h = cc
  count_matches-remove p k v ((j, w) ∷ m) d h =
      ground (arith, eq_iff j k, remove_absent k m, count_matches-remove p k v m d.1)

  SameMap-remove :
      (k : Text) (v : V) (m n : Map V)
      → Distinct ((k, v) ∷ m)
      → SameMap ((k, v) ∷ m) n
      → SameMap m (remove k n)
  unfolding lookup
  SameMap-remove k v m n d s j = ground (arith, lookup-remove k j n, s j, eq_iff k j)

  empty_of_SameMap : (n : Map V) → SameMap [] n → n ≡ []
  unfolding lookup
  empty_of_SameMap [] s = refl
  empty_of_SameMap ((k, v) ∷ n) s = ground (arith, s k, eq_refl k)

  -- The number of values that pass a test is the same in both.
  pub count_matches-SameMap :
      (p : V → Bool) (m n : Map V)
      → Distinct m
      → Distinct n
      → SameMap m n
      → count_matches p m ≡ count_matches p n
  unfolding lookup
  count_matches-SameMap p [] n d e s = rw (empty_of_SameMap n s)
  count_matches-SameMap p ((k, v) ∷ m) n d e s = ground (
    arith,
    s k,
    eq_refl k,
    count_matches-remove p k v n e,
    count_matches-SameMap p m (remove k n) d.1 (remove-Distinct k n e) (SameMap-remove k v m n d s),
  )

  pub no_match :
      (p : V → Bool) (m : Map V) (k : Text) (y : V)
      → lookup k m ≡ some y
      → p y ≡ true
      → filter p (values m) ≢ []
  unfolding lookup
  no_match p [] k y h t e = cc
  no_match p ((j, w) ∷ m) k y h t e = ground (arith, eq_iff j k, no_match p m k y)

  -- Among the matches of a test is each value that passes it.
  pub only_match :
      (p : V → Bool) (m : Map V) (k : Text) (x y : V)
      → lookup k m ≡ some y
      → p y ≡ true
      → filter p (values m) ≡ x ∷ []
      → y ≡ x
  unfolding lookup
  only_match p [] k x y h t e = cc
  only_match p ((j, w) ∷ m) k x y h t e =
      ground (arith, eq_iff j k, no_match p m k y, only_match p m k x y)
