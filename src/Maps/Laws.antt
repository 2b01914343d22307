-- ===== src/Maps/Laws.antt =====
-- What can be read after a write, for either map.
use shmark.Base.{Text, ◌==◌, eq_iff, ◌≡◌, refl, none, some, [], ◌∷◌, if◌then◌else◌, arith}
use shmark.Maps.{Map, lookup, insert, insert_ordered, remove, update}

module _ {ℓ} {V : Type ℓ} where
  pub lookup-insert :
      (put asked : Text) (new : V) (m : Map V)
      → lookup asked (insert put new m) ≡ (if put == asked then some new else lookup asked m)
  unfolding lookup insert
  lookup-insert put asked new [] = refl
  lookup-insert put asked new ((key, old) ∷ rest) =
      let after = lookup-insert put asked new rest in
      ground (arith, after, eq_iff key put, eq_iff key asked, eq_iff put asked)

  pub lookup-insert_ordered :
      (k j : Text) (v : V) (m : Map V)
      → lookup j (insert_ordered k v m) ≡ (if k == j then some v else lookup j m)
  unfolding lookup insert_ordered
  lookup-insert_ordered k j v [] = refl
  lookup-insert_ordered k j v ((i, w) ∷ m) =
      ground (arith, eq_iff k j, eq_iff i k, eq_iff i j, lookup-insert_ordered k j v m)

  pub lookup-remove :
      (k j : Text) (m : Map V) → lookup j (remove k m) ≡ (if k == j then none else lookup j m)
  unfolding lookup remove
  lookup-remove k j [] = ground arith
  lookup-remove k j ((i, v) ∷ m) =
      ground (arith, lookup-remove k j m, eq_iff i k, eq_iff i j, eq_iff k j)

  pub lookup-update :
      (k j : Text) (v w : V) (m : Map V)
      → lookup k m ≡ some w
      → lookup j (update k v m) ≡ (if k == j then some v else lookup j m)
  unfolding lookup update
  lookup-update k j v w [] h = cc
  lookup-update k j v w ((i, x) ∷ m) h =
      ground (arith, eq_iff k j, eq_iff i k, eq_iff i j, lookup-update k j v w m)

  pub lookup-update-none :
      (k j : Text) (v : V) (m : Map V) → lookup j m ≡ none → lookup j (update k v m) ≡ none
  unfolding lookup update
  lookup-update-none k j v [] h = refl
  lookup-update-none k j v ((i, x) ∷ m) h =
      ground (arith, eq_iff i k, eq_iff i j, eq_iff k j, lookup-update-none k j v m)
