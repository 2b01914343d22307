-- ===== src/Maps/Distinct.antt =====
-- Maps in which each key stands once, and what the operations keep of that.
use shmark.Base.{Text, ◌==◌, eq_iff, ◌≡◌, refl, sym, ◌∙◌, none, false, [], ◌∷◌, ◌++◌, arith}
use mathlib.Core.List.{append_assoc, append-nil}
use shmark.Maps.{Map, lookup, insert, remove, update, collect_with}
use shmark.Maps.Laws.{lookup-insert, lookup-remove, lookup-update-none}

abbrev pub Distinct {ℓ} : {V : Type ℓ} → Map V → Type ℓ
Distinct [] = Unit
Distinct ((k, v) ∷ m) = (lookup k m ≡ none) × Distinct m

module _ {ℓ} {V : Type ℓ} where
  pub insert-Distinct : (k : Text) (v : V) (m : Map V) → Distinct m → Distinct (insert k v m)
  unfolding insert lookup
  insert-Distinct k v [] d = (refl, tt)
  insert-Distinct k v ((j, w) ∷ m) d =
      ground (arith, eq_iff j k, eq_iff k j, lookup-insert k j v m, insert-Distinct k v m d.1)

  pub remove-Distinct : (k : Text) (m : Map V) → Distinct m → Distinct (remove k m)
  unfolding remove lookup
  remove-Distinct k [] d = tt
  remove-Distinct k ((j, w) ∷ m) d = ground (arith, lookup-remove k j m, remove-Distinct k m d.1)

  pub update-Distinct : (k : Text) (v : V) (m : Map V) → Distinct m → Distinct (update k v m)
  unfolding update lookup
  update-Distinct k v [] d = tt
  update-Distinct k v ((j, w) ∷ m) d =
      ground (arith, eq_iff j k, lookup-update-none k j v m, update-Distinct k v m d.1)

  present :
      (j k : Text) (v : V) (m l : Map V) → lookup j (m ++ (k, v) ∷ l) ≡ none → (k == j) ≡ false
  unfolding lookup
  present j k v [] l h = ground arith
  present j k v ((i, w) ∷ m) l h = ground (arith, present j k v m l)

  fresh_of-Distinct-append :
      (k : Text) (v : V) (m l : Map V) → Distinct (m ++ (k, v) ∷ l) → lookup k m ≡ none
  unfolding lookup
  fresh_of-Distinct-append k v [] l d = refl
  fresh_of-Distinct-append k v ((j, w) ∷ m) l d =
      ground
        (arith, eq_iff j k, eq_iff k k, fresh_of-Distinct-append k v m l d.1, present j k v m l d.0)

  insert_fresh :
      (k : Text) (v : V) (m : Map V) → lookup k m ≡ none → insert k v m ≡ m ++ (k, v) ∷ []
  unfolding insert lookup
  insert_fresh k v [] h = refl
  insert_fresh k v ((j, w) ∷ m) h = ground (arith, insert_fresh k v m)

  -- Collecting distinct entries into a hash map keeps them all.
  pub collect-Distinct : (m l : Map V) → Distinct (m ++ l) → collect_with insert m l ≡ m ++ l
  unfolding collect_with
  collect-Distinct m [] d = sym (append-nil m)
  collect-Distinct m ((k, v) ∷ l) d =
      rw (insert_fresh k v m (fresh_of-Distinct-append k v m l d))
        (collect-Distinct (m ++ (k, v) ∷ []) l (rw append_assoc d) ∙ append_assoc m ((k, v) ∷ []) l)
