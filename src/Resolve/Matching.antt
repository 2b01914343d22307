-- ===== src/Resolve/Matching.antt =====
-- What a query matches: the name of a file, or the end of a path that begins at a component.
use shmark.Base.{
  Bool, ℕ, ◌+◌, ◌-◌, zero, suc, Text, eq_iff, eq_refl, eq_sound, ◌≡◌, ◌↔◌, ◌⊎◌, refl, ap, sym, ◌∙◌,
  some, none, true, false, List, [], ◌∷◌, ◌++◌, length, take, drop, get_elem?, arith, Option-cases,
  inl, inr, leb, eqb, take-append-drop, length-append, ◌||◌,
}
use shmark.Paths.{slash, file_name}
use shmark.Resolve.{matches_query}

drop-suc-append {ℓ} :
    {A : Type ℓ} (xs ys : List A) (y : A) → drop (suc (length xs)) (xs ++ y ∷ ys) ≡ ys
drop-suc-append [] ys y = refl
drop-suc-append (x ∷ xs) ys y = drop-suc-append xs ys y

get_elem?-append {ℓ} :
    {A : Type ℓ} (xs ys : List A) (y : A) → get_elem? (xs ++ y ∷ ys) (length xs) ≡ some y
get_elem?-append [] ys y = refl
get_elem?-append (x ∷ xs) ys y = get_elem?-append xs ys y

take-suc {ℓ} :
    {A : Type ℓ} (n : ℕ) (xs : List A) (x : A)
    → get_elem? xs n ≡ some x
    → take (suc n) xs ≡ take n xs ++ x ∷ []
take-suc zero [] x h = cc
take-suc zero (y ∷ xs) x h = ground arith
take-suc (suc n) [] x h = cc
take-suc (suc n) (y ∷ xs) x h = ap (λ r. y ∷ r) (take-suc n xs x h)

append_assoc_one {ℓ} : {A : Type ℓ} (xs ys : List A) (y : A) → (xs ++ y ∷ []) ++ ys ≡ xs ++ y ∷ ys
append_assoc_one [] ys y = refl
append_assoc_one (x ∷ xs) ys y = ap (λ r. x ∷ r) (append_assoc_one xs ys y)

-- The path is the query, or it ends with a slash and the query.
abbrev pub EndsAtComponent : Text → Text → Type 0
EndsAtComponent p query = (p ≡ query) ⊎ ((front : Text) × (p ≡ front ++ slash ∷ query))

matched :
    (p query : Text) (n : ℕ)
    → drop n p ≡ query
    → ((n ≡ 0) ⊎ ((m : ℕ) × (n ≡ suc m) × (get_elem? p m ≡ some slash)))
    → EndsAtComponent p query
matched p query n h (inl e) = inl (ground arith)
matched p query n h (inr (m, e, found)) = inr (
  take m p,
  sym (take-append-drop n p)
      ∙ (rw (h, e, take-suc m p slash found) (append_assoc_one (take m p) query slash)),
)

-- The byte before the position is a slash, or there is none.
abbrev slash_before : Text → ℕ → Bool
slash_before p n = eqb n 0 || (elim (get_elem? p (n - 1)) [ none ↦ false | some c ↦ eqb c slash ])

front_cases :
    (p : Text) (n : ℕ)
    → slash_before p n ≡ true
    → (n ≡ 0) ⊎ ((m : ℕ) × (n ≡ suc m) × (get_elem? p m ≡ some slash))
front_cases p zero h = inl refl
front_cases p (suc m) h = elim (Option-cases (get_elem? p m)) [
  | inl e ↦ ground arith
  | inr (c, e) ↦ inr (m, refl, ground arith)
]

matches_at :
    (p query : Text) (n : ℕ)
    → length p ≡ n + length query
    → drop n p ≡ query
    → slash_before p n ≡ true
    → matches_query p query false ≡ true
unfolding matches_query
matches_at p query n size rest before =
    let e : length p - length query ≡ n = omega (arith, size) in
    let long : leb (length query) (length p) ≡ true = ground (arith, size) in
    rw (long, e, rest, eq_refl query) before

slash_before-append :
    (front query : Text) → slash_before (front ++ slash ∷ query) (suc (length front)) ≡ true
slash_before-append front query =
    let e : suc (length front) - 1 ≡ length front = omega arith in
    rw (e, get_elem?-append front query slash) (ground arith)

at_component : (front query : Text) → matches_query (front ++ slash ∷ query) query false ≡ true
at_component front query =
    matches_at (front ++ slash ∷ query) query (suc (length front))
      (rw (length-append front (slash ∷ query)) (omega arith)) (drop-suc-append front query slash)
      (slash_before-append front query)

matches_of-EndsAtComponent :
    (p query : Text) → EndsAtComponent p query → matches_query p query false ≡ true
matches_of-EndsAtComponent p query (inl e) = rw e (matches_at query query 0 (omega arith) refl refl)
matches_of-EndsAtComponent p query (inr (front, e)) = rw e (at_component front query)

matches-EndsAtComponent :
    (p query : Text) → matches_query p query false ≡ true → EndsAtComponent p query
unfolding matches_query
matches-EndsAtComponent p query h =
    let n = length p - length query in
    matched p query n (ground (arith, eq_iff (drop n p) query)) (front_cases p n (ground arith))

named_of-matches : (p query : Text) → matches_query p query true ≡ true → file_name p ≡ some query
unfolding matches_query
named_of-matches p query h = elim (Option-cases (file_name p)) [
  | inl e ↦ cc (rw (e, matches_query) at h)
  | inr (name, e) ↦ rw e (ap some (eq_sound name query (rw (e, matches_query) at h)))
]

matches_of-named : (p query : Text) → file_name p ≡ some query → matches_query p query true ≡ true
unfolding matches_query
matches_of-named p query e = rw (e, matches_query) (eq_refl query)

-- Where `basename_only` is false, a query matches the paths that are the query, or that end with a
-- slash and the query. Where it is true, it matches the paths whose file name it is.
pub matches_query_exact :
    (p query : Text)
    → ((matches_query p query false ≡ true) ↔ EndsAtComponent p query)
      × ((matches_query p query true ≡ true) ↔ (file_name p ≡ some query))
matches_query_exact p query = (
  (matches-EndsAtComponent p query, matches_of-EndsAtComponent p query),
  (named_of-matches p query, matches_of-named p query),
)
