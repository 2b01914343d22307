-- ===== src/Maps/Keyed.antt =====
-- Maps whose values hold their own key (`namespace_id`, `identity_pubkey`), and the entries that
-- a search over the values finds.
use shmark.Base.{
  Text, eq_iff, ◌≡◌, ◌≢◌, refl, some, Bool, true, [], ◌∷◌, arith, All, filter, List, map,
  Bool-cases, inl, inr,
}
use shmark.Maps.{Map, lookup, insert, insert_ordered, remove, update, values}
use shmark.Maps.Distinct.{Distinct}

module _ {ℓ} {V : Type ℓ} (key : V → Text) where
  abbrev pub KeyedBy : Map V → Type 0
  KeyedBy m = All (λ e. key e.1 ≡ e.0) m

  -- What `load` collects and `save` writes: the values under their own keys.
  abbrev pub with_keys : List V → Map V
  with_keys = map (λ v. (key v, v))

  pub insert-KeyedBy :
      (k : Text) (v : V) (m : Map V) → key v ≡ k → KeyedBy m → KeyedBy (insert k v m)
  unfolding insert
  insert-KeyedBy k v [] e h = (e, tt)
  insert-KeyedBy k v ((j, w) ∷ m) e h = ground (arith, insert-KeyedBy k v m e h.1)

  pub insert_ordered-KeyedBy :
      (k : Text) (v : V) (m : Map V) → key v ≡ k → KeyedBy m → KeyedBy (insert_ordered k v m)
  unfolding insert_ordered
  insert_ordered-KeyedBy k v [] e h = (e, tt)
  insert_ordered-KeyedBy k v ((j, w) ∷ m) e h = ground (arith, insert_ordered-KeyedBy k v m e h.1)

  pub update-KeyedBy :
      (k : Text) (v : V) (m : Map V) → key v ≡ k → KeyedBy m → KeyedBy (update k v m)
  unfolding update
  update-KeyedBy k v [] e h = tt
  update-KeyedBy k v ((j, w) ∷ m) e h = ground (arith, update-KeyedBy k v m e h.1)

  pub remove-KeyedBy : (k : Text) (m : Map V) → KeyedBy m → KeyedBy (remove k m)
  unfolding remove
  remove-KeyedBy k [] h = tt
  remove-KeyedBy k ((j, w) ∷ m) h = ground (arith, remove-KeyedBy k m h.1)

  pub key_of_lookup : (k : Text) (v : V) (m : Map V) → KeyedBy m → lookup k m ≡ some v → key v ≡ k
  unfolding lookup
  key_of_lookup k v [] h e = cc
  key_of_lookup k v ((j, w) ∷ m) h e = ground (arith, eq_iff j k, key_of_lookup k v m h.1)

  -- Saving the values and collecting them again under their keys gives the entries back.
  pub with_keys-values : (m : Map V) → KeyedBy m → with_keys (values m) ≡ m
  with_keys-values [] h = refl
  with_keys-values ((j, w) ∷ m) h = λ i. (h.0 i, w) ∷ with_keys-values m h.1 i

  -- A value that a search finds first is the one at its own key.
  pub lookup_of_match :
      (p : V → Bool) (m : Map V) (x : V) (rest : List V)
      → KeyedBy m
      → Distinct m
      → filter p (values m) ≡ x ∷ rest
      → (lookup (key x) m ≡ some x) × (p x ≡ true)
  unfolding lookup
  lookup_of_match p [] x rest h d e = cc
  lookup_of_match p ((j, w) ∷ m) x rest h d e = elim (Bool-cases (p w)) [
    | inl found ↦ ground (arith, eq_iff j (key x))
    | inr other ↦
        let (at, holds) = lookup_of_match p m x rest h.1 d.1 (rw other at e) in
        (ground (arith, eq_iff j (key x)), holds)
  ]

  -- The second value that a search finds is an entry too, and at another key than the first.
  pub two_matches :
      (p : V → Bool) (m : Map V) (x y : V) (rest : List V)
      → KeyedBy m
      → Distinct m
      → filter p (values m) ≡ x ∷ y ∷ rest
      → (lookup (key y) m ≡ some y) × (p y ≡ true) × (key x ≢ key y)
  unfolding lookup
  two_matches p [] x y rest h d e = cc
  two_matches p ((j, w) ∷ m) x y rest h d e = elim (Bool-cases (p w)) [
    | inl found ↦
        let e' : w ∷ filter p (values m) ≡ x ∷ y ∷ rest = rw found at e in
        let (at, holds) = lookup_of_match p m y rest h.1 d.1 (cc) in
        ground (arith, eq_iff j (key y))
    | inr other ↦
        let (at, holds, differ) = two_matches p m x y rest h.1 d.1 (rw other at e) in
        (ground (arith, eq_iff j (key y)), holds, differ)
  ]
