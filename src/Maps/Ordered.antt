-- ===== src/Maps/Ordered.antt =====
-- The entries of a `BTreeMap` stand in the strict order of their keys.
use shmark.Base.{
  Text, ◌==◌, eq_iff, eq_refl, text_leb, text_leb_total, text_leb_trans, ◌≡◌, ◌∙◌, refl, sym, none,
  false, true, [], ◌∷◌, ◌++◌, arith, All, Bool-cases, inl, inr, text_leb_antisym, text_leb_refl,
}
use mathlib.Core.List.{append_assoc, append-nil}
use shmark.Maps.{Map, lookup, insert_ordered, remove, update, collect_with}
use shmark.Maps.Distinct.{Distinct}

-- Every key of the map lies above `k`.
abbrev pub Above {ℓ} : {V : Type ℓ} → Text → Map V → Type 0
Above k m = All (λ e. text_leb e.0 k ≡ false) m

abbrev pub IsOrdered {ℓ} : {V : Type ℓ} → Map V → Type 0
IsOrdered [] = Unit
IsOrdered ((k, v) ∷ m) = Above k m × IsOrdered m

pub text_lt_trans :
    (a b c : Text) → text_leb b a ≡ false → text_leb c b ≡ false → text_leb c a ≡ false
text_lt_trans a b c h k = elim (Bool-cases (text_leb c a)) [
  | inl e ↦ cc (text_leb_trans b c a (text_leb_total c b k) e)
  | inr e ↦ e
]

text_lt_of_leb-ne : (a b : Text) → text_leb a b ≡ true → (b == a) ≡ false → text_leb b a ≡ false
text_lt_of_leb-ne a b h n = elim (Bool-cases (text_leb b a)) [
  | inl e ↦ cc (n, eq_refl a, text_leb_antisym b a e h)
  | inr e ↦ e
]

module _ {ℓ} {V : Type ℓ} where
  Above-trans : (a b : Text) (m : Map V) → text_leb b a ≡ false → Above b m → Above a m
  Above-trans a b [] h u = tt
  Above-trans a b ((k, v) ∷ m) h u = (text_lt_trans a b k h u.0, Above-trans a b m h u.1)

  Above-insert_ordered :
      (a k : Text) (v : V) (m : Map V)
      → text_leb k a ≡ false
      → Above a m
      → Above a (insert_ordered k v m)
  unfolding insert_ordered
  Above-insert_ordered a k v [] h u = (h, tt)
  Above-insert_ordered a k v ((j, w) ∷ m) h u = ground (arith, Above-insert_ordered a k v m h u.1)

  pub insert_ordered-IsOrdered :
      (k : Text) (v : V) (m : Map V) → IsOrdered m → IsOrdered (insert_ordered k v m)
  unfolding insert_ordered
  insert_ordered-IsOrdered k v [] o = (tt, tt)
  insert_ordered-IsOrdered k v ((j, w) ∷ m) o = ground (
    arith,
    eq_iff j k,
    text_lt_of_leb-ne k j,
    Above-trans k j m,
    Above-insert_ordered j k v m,
    insert_ordered-IsOrdered k v m o.1,
  )

  Above-remove : (a k : Text) (m : Map V) → Above a m → Above a (remove k m)
  unfolding remove
  Above-remove a k [] u = tt
  Above-remove a k ((j, w) ∷ m) u = ground (arith, Above-remove a k m u.1)

  pub remove-IsOrdered : (k : Text) (m : Map V) → IsOrdered m → IsOrdered (remove k m)
  unfolding remove
  remove-IsOrdered k [] o = tt
  remove-IsOrdered k ((j, w) ∷ m) o =
      ground (arith, Above-remove j k m o.0, remove-IsOrdered k m o.1)

  Above-update : (a k : Text) (v : V) (m : Map V) → Above a m → Above a (update k v m)
  unfolding update
  Above-update a k v [] u = tt
  Above-update a k v ((j, w) ∷ m) u = ground (arith, eq_iff j k, Above-update a k v m u.1)

  pub update-IsOrdered : (k : Text) (v : V) (m : Map V) → IsOrdered m → IsOrdered (update k v m)
  unfolding update
  update-IsOrdered k v [] o = tt
  update-IsOrdered k v ((j, w) ∷ m) o =
      ground (arith, eq_iff j k, Above-update j k v m o.0, update-IsOrdered k v m o.1)

  lookup-Above : (k : Text) (m : Map V) → Above k m → lookup k m ≡ none
  unfolding lookup
  lookup-Above k [] u = refl
  lookup-Above k ((j, w) ∷ m) u = ground (arith, eq_iff j k, text_leb_refl k, lookup-Above k m u.1)

  pub IsOrdered-Distinct : (m : Map V) → IsOrdered m → Distinct m
  IsOrdered-Distinct [] o = tt
  IsOrdered-Distinct ((k, v) ∷ m) o = (lookup-Above k m o.0, IsOrdered-Distinct m o.1)

  Above-middle :
      (j k : Text) (v : V) (m l : Map V) → Above j (m ++ (k, v) ∷ l) → text_leb k j ≡ false
  Above-middle j k v [] l u = u.0
  Above-middle j k v (e ∷ m) l u = Above-middle j k v m l u.1

  insert_last :
      (k : Text) (v : V) (m l : Map V)
      → IsOrdered (m ++ (k, v) ∷ l)
      → insert_ordered k v m ≡ m ++ (k, v) ∷ []
  unfolding insert_ordered
  insert_last k v [] l o = refl
  insert_last k v ((j, w) ∷ m) l o =
      ground
        (arith, eq_iff j k, text_leb_refl k, Above-middle j k v m l o.0, insert_last k v m l o.1)

  -- Collecting the entries of a tree map gives the same map again.
  pub collect-IsOrdered :
      (m l : Map V) → IsOrdered (m ++ l) → collect_with insert_ordered m l ≡ m ++ l
  unfolding collect_with
  collect-IsOrdered m [] o = sym (append-nil m)
  collect-IsOrdered m ((k, v) ∷ l) o =
      rw (insert_last k v m l o) (
        collect-IsOrdered (m ++ (k, v) ∷ []) l (rw append_assoc o) ∙ append_assoc m ((k, v) ∷ []) l)
