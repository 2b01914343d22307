-- ===== src/Paths/Components.antt =====
-- The components of a path that was joined.
use shmark.Base.{
  ℕ, ◌-◌, Text, ◌≡◌, ◌⊎◌, refl, sym, ap, ◌∙◌, Bool, true, false, List, [], ◌∷◌, ◌++◌, filter,
  Bool-cases, inl, inr, is_empty, ends_with, ◌||◌, eqb, length, take, drop, take-append-drop, arith,
  eq_sound, if◌then◌else◌, is_empty_sound,
}
use mathlib.Core.List.{append_assoc, append-nil}
use shmark.Paths.{slash, join, split, pieces, is_absolute}

abbrev grow : ℕ → List Text → List Text
grow c [] = (c ∷ []) ∷ []
grow c (piece ∷ rest) = if eqb c slash then [] ∷ piece ∷ rest else (c ∷ piece) ∷ rest

split_step : (c : ℕ) (s : Text) → split (c ∷ s) ≡ grow c (split s)
unfolding split
split_step c s = refl

record Filled (xs : List Text) : Type 0 where
  head : Text
  tail : List Text
  same : xs ≡ head ∷ tail

grow-Filled : (c : ℕ) (xs : List Text) → Filled (grow c xs)
grow-Filled c [] = record { head = c ∷ []; tail = []; same = refl }
grow-Filled c (piece ∷ rest) = elim (Bool-cases (eqb c slash)) [
  | inl e ↦ record { head = []; tail = piece ∷ rest; same = rw e refl }
  | inr e ↦ record { head = c ∷ piece; tail = rest; same = rw e refl }
]

split-Filled : (s : Text) → Filled (split s)
unfolding split
split-Filled [] = record { head = []; tail = []; same = refl }
split-Filled (c ∷ s) = grow-Filled c (split s)

grow-append : (c : ℕ) (xs ys : List Text) → Filled xs → grow c (xs ++ ys) ≡ grow c xs ++ ys
grow-append c xs ys f =
    rw f.same (elim (Bool-cases (eqb c slash)) [ inl e ↦ rw e refl | inr e ↦ rw e refl ])

grow-slash : (xs : List Text) → Filled xs → grow slash xs ≡ [] ∷ xs
grow-slash xs f = rw f.same refl

split-slash : (a b : Text) → split (a ++ slash ∷ b) ≡ split a ++ split b
unfolding split
split-slash [] b = split_step slash b ∙ grow-slash (split b) (split-Filled b)
split-slash (c ∷ a) b =
    split_step c (a ++ slash ∷ b)
    ∙ ap (grow c) (split-slash a b)
    ∙ grow-append c (split a) (split b) (split-Filled a)
    ∙ ap (λ xs. xs ++ split b) (sym (split_step c a))

filter-append {ℓ} :
    {A : Type ℓ} (p : A → Bool) (xs ys : List A) → filter p (xs ++ ys) ≡ filter p xs ++ filter p ys
filter-append p [] ys = refl
filter-append p (x ∷ xs) ys = elim (Bool-cases (p x)) [
  | inl e ↦ rw e (ap (λ r. x ∷ r) (filter-append p xs ys))
  | inr e ↦ rw e (filter-append p xs ys)
]

pieces-slash : (a b : Text) → pieces (a ++ slash ∷ b) ≡ pieces a ++ pieces b
unfolding pieces
pieces-slash a b = rw (split-slash a b) (filter-append _ (split a) (split b))

pieces_closed : (a : Text) → pieces (a ++ slash ∷ []) ≡ pieces a
unfolding pieces
pieces_closed a = pieces-slash a [] ∙ append-nil (pieces a)

-- A text that ends with a slash.
record Closed (s : Text) : Type 0 where
  front : Text
  same : front ++ slash ∷ [] ≡ s

Closed-ends_with : (s : Text) → ends_with (slash ∷ []) s ≡ true → Closed s
Closed-ends_with s h =
    let rest : drop (length s - 1) s ≡ slash ∷ [] = eq_sound _ _ (ground (arith, h)) in
    record { front = take (length s - 1) s; same = rw (← rest) (take-append-drop (length s - 1) s) }

-- To join a relative path puts its components after those of the first path, with one slash between
-- them at most.
pub pieces-join :
    (base p : Text)
    → is_absolute p ≡ false
    → (pieces (join base p) ≡ pieces base ++ pieces p)
      × ((join base p ≡ base ++ p) ⊎ (join base p ≡ base ++ slash ∷ p))
unfolding join pieces
pieces-join base p relative = elim (Bool-cases (is_empty base || ends_with (slash ∷ []) base)) [
  | inr open_end ↦ rw (relative, open_end) (pieces-slash base p, inr refl)
  | inl closed ↦ elim (Bool-cases (is_empty base)) [
    | inl blank ↦ rw (relative, closed) (rw (is_empty_sound base blank) refl, inl refl)
    | inr filled ↦
        let c = Closed-ends_with base (ground (arith, filled, closed)) in
        rw (relative, closed)
          (
            rw (← c.same) (
                ap pieces (append_assoc c.front (slash ∷ []) p)
                ∙ pieces-slash c.front p
                ∙ ap (λ xs. xs ++ pieces p) (sym (pieces_closed c.front))),
            inl refl,
          )
  ]
]
