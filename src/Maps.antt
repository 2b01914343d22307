-- ===== src/Maps.antt =====
-- The maps of the standard library with text keys, as association lists: `HashMap` (the order of
-- the entries stands for the iteration order) and `BTreeMap` (the entries in the order of keys).
pub mod Laws
pub mod Distinct
pub mod Ordered
pub mod Keyed
pub mod Same
pub mod Search
use shmark.Base.{Text, ◌==◌, text_leb, Option, none, some, Bool, List, [], ◌∷◌, map, if◌then◌else◌}

abbrev pub Map {ℓ} : Type ℓ → Type ℓ
Map V = List (Text × V)

module _ {ℓ} {V : Type ℓ} where
  unfoldable pub lookup : Text → Map V → Option V
  lookup k [] = none
  lookup k ((key, v) ∷ rest) = if key == k then some v else lookup k rest

  abbrev pub contains_key : Text → Map V → Bool
  contains_key k m = elim (lookup k m) [ none ↦ Bool.false | some _ ↦ Bool.true ]

  abbrev pub values : Map V → List V
  values = map (λ e. e.1)

  -- `HashMap::insert`
  unfoldable pub insert : Text → V → Map V → Map V
  insert k v [] = (k, v) ∷ []
  insert k v ((key, old) ∷ rest) = if key == k then (k, v) ∷ rest else (key, old) ∷ insert k v rest

  -- `BTreeMap::insert`
  unfoldable pub insert_ordered : Text → V → Map V → Map V
  insert_ordered k v [] = (k, v) ∷ []
  insert_ordered k v ((j, w) ∷ m) =
      if j == k
      then (k, v) ∷ m
      else if text_leb k j
      then (k, v) ∷ (j, w) ∷ m
      else (j, w) ∷ insert_ordered k v m

  -- `remove` of either map
  unfoldable pub remove : Text → Map V → Map V
  remove k [] = []
  remove k ((j, v) ∷ m) = let rest = remove k m in if j == k then rest else (j, v) ∷ rest

  -- `collect` into either map: later entries replace earlier ones.
  unfoldable pub collect_with : (Text → V → Map V → Map V) → Map V → List (Text × V) → Map V
  collect_with ins m [] = m
  collect_with ins m ((k, v) ∷ l) = collect_with ins (ins k v m) l

  -- A write through `get_mut`.
  unfoldable pub update : Text → V → Map V → Map V
  update k v [] = []
  update k v ((j, w) ∷ m) = if j == k then (k, v) ∷ m else (j, w) ∷ update k v m
