-- ===== src/Paths/Names.antt =====
-- That the files of the data directory are different files.
use shmark.Base.{
  Text, codes, ◌≡◌, ◌≢◌, ◌∙◌, sym, false, ◌∷◌, Bool-cases, is_empty, ends_with, ◌||◌, inl, inr, [],
  arith, refl,
}
use shmark.Errors.{ok, Result-cases, ok-injective}
use shmark.Paths.{
  Surroundings, is_absolute, slash, join, data_dir, in_data_dir, identity_path, device_path,
  groups_state_path,
}
use mathlib.Core.List.{append_cancel_left}

pub join-injective :
    (base p q : Text)
    → is_absolute p ≡ false
    → is_absolute q ≡ false
    → join base p ≡ join base q
    → p ≡ q
unfolding join
join-injective base p q hp hq h = elim (Bool-cases (is_empty base || ends_with (slash ∷ []) base)) [
  | inl e ↦ append_cancel_left base p q (rw (hp, hq, e) at h)
  | inr e ↦
      let rest : slash ∷ p ≡ slash ∷ q =
        append_cancel_left base (slash ∷ p) (slash ∷ q) (rw (hp, hq, e) at h) in
      ground (arith, rest)
]

-- Two names in the data directory
names_differ :
    (e : Surroundings) (p q a b : Text)
    → is_absolute p ≡ false
    → is_absolute q ≡ false
    → p ≢ q
    → in_data_dir p e ≡ ok a
    → in_data_dir q e ≡ ok b
    → a ≢ b
unfolding in_data_dir
names_differ e p q a b hp hq differ at_a at_b same = elim (Result-cases (data_dir e)) [
  | inl (dir, there) ↦ differ (
      join-injective dir p q hp hq
        (ok-injective (rw there at at_a) ∙ same ∙ sym (ok-injective (rw there at at_b))))
  | inr (inl (y, there)) ↦ cc (rw there at at_a)
  | inr (inr there) ↦ cc (rw there at at_a)
]

module _ (e : Surroundings) where
  pub device_path-ne-identity_path :
      (a b : Text) → device_path e ≡ ok a → identity_path e ≡ ok b → a ≢ b
  unfolding device_path identity_path
  device_path-ne-identity_path a b =
      names_differ e (codes "device.json") (codes "identity.json") a b refl refl (λ h. ground arith)

  pub identity_path-ne-groups_state_path :
      (a b : Text) → groups_state_path e ≡ ok a → identity_path e ≡ ok b → a ≢ b
  unfolding groups_state_path identity_path
  identity_path-ne-groups_state_path a b =
      names_differ e (codes "groups.json") (codes "identity.json") a b refl refl (λ h. ground arith)

  pub device_path-ne-groups_state_path :
      (a b : Text) → groups_state_path e ≡ ok a → device_path e ≡ ok b → a ≢ b
  unfolding groups_state_path device_path
  device_path-ne-groups_state_path a b =
      names_differ e (codes "groups.json") (codes "device.json") a b refl refl (λ h. ground arith)
