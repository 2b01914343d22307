-- ===== src/Resolve/Searching.antt =====
-- The search below the roots, as one expression, and what a query matches.
use shmark.Base.{
  ℕ, ◌≤◌, zero, suc, Text, ◌≡◌, refl, ap, sym, ◌∙◌, Option, none, some, Bool, not, List, [], ◌∷◌,
  ◌++◌, length, take, arith, Option-cases, Bool-cases, inl, inr, leb, if◌then◌else◌, contains,
  length-take-le, length-append,
}
use shmark.Paths.{slash}
use shmark.Resolve.{Candidate, Entry, FileSystem, hit, walk_root, walk_roots, search}

take-all {ℓ} : {A : Type ℓ} (n : ℕ) (xs : List A) → length xs ≤ n → take n xs ≡ xs
take-all zero [] h = refl
take-all zero (x ∷ xs) h = absurd (omega (arith, h))
take-all (suc n) [] h = refl
take-all (suc n) (x ∷ xs) h = ap (λ r. x ∷ r) (take-all n xs (omega (arith, h)))

-- Once there are `n` elements, what is put behind them does not matter.
take-append {ℓ} :
    {A : Type ℓ} (n : ℕ) (xs ys : List A) → n ≤ length xs → take n (xs ++ ys) ≡ take n xs
take-append zero xs ys h = refl
take-append (suc n) [] ys h = absurd (omega (arith, h))
take-append (suc n) (x ∷ xs) ys h = ap (λ r. x ∷ r) (take-append n xs ys (omega (arith, h)))

append_assoc {ℓ} : {A : Type ℓ} (xs ys zs : List A) → (xs ++ ys) ++ zs ≡ xs ++ (ys ++ zs)
append_assoc [] ys zs = refl
append_assoc (x ∷ xs) ys zs = ap (λ r. x ∷ r) (append_assoc xs ys zs)

append_nil {ℓ} : {A : Type ℓ} (xs : List A) → xs ++ [] ≡ xs
append_nil [] = refl
append_nil (x ∷ xs) = ap (λ r. x ∷ r) (append_nil xs)

take-take-append {ℓ} :
    {A : Type ℓ} (n : ℕ) (xs ys : List A) → take n (take n xs ++ ys) ≡ take n (xs ++ ys)
take-take-append zero xs ys = refl
take-take-append (suc n) [] ys = refl
take-take-append (suc n) (x ∷ xs) ys = ap (λ r. x ∷ r) (take-take-append n xs ys)

module _ (fs : FileSystem) (query : Text) (basename_only : Bool) where
  -- The hits of a walk, without a limit.
  pub all_hits : List (Option Entry) → List Candidate
  all_hits [] = []
  all_hits (entry ∷ entries) = elim (hit fs query basename_only entry) [
    | none ↦ all_hits entries
    | some c ↦ c ∷ all_hits entries
  ]

  all_hits-found :
      (entry : Option Entry) (entries : List (Option Entry)) (c : Candidate)
      → hit fs query basename_only entry ≡ some c
      → all_hits (entry ∷ entries) ≡ c ∷ all_hits entries
  unfolding all_hits
  all_hits-found entry entries c found = rw (found, all_hits) refl

  pub hits_below : List Text → List Candidate
  hits_below [] = []
  hits_below (root ∷ roots) =
      if fs.exists root then all_hits (fs.walk root) ++ hits_below roots else hits_below roots

  walk_root_lem :
      (limit : ℕ) (entries : List (Option Entry)) (out : List Candidate)
      → length out ≤ limit
      → walk_root fs query basename_only limit entries out ≡ take limit (out ++ all_hits entries)
  unfolding walk_root all_hits
  walk_root_lem limit [] out h = rw (append_nil out) (sym (take-all limit out h))
  walk_root_lem limit (entry ∷ entries) out h = elim (Bool-cases (leb limit (length out))) [
    | inl full ↦ rw full (sym (take-append limit out _ (ground arith) ∙ take-all limit out h))
    | inr room ↦ elim (Option-cases (hit fs query basename_only entry)) [
      | inl miss ↦ rw (room, miss, all_hits) (walk_root_lem limit entries out h)
      | inr (c, found) ↦
          rw (room, found)
            (walk_root_lem limit entries (out ++ c ∷ [])
                (rw (length-append out (c ∷ [])) (ground arith))
              ∙ ap (take limit) (
                  append_assoc out (c ∷ []) (all_hits entries)
                  ∙ ap (λ r. out ++ r) (sym (all_hits-found entry entries c found))))
    ]
  ]

  walk_roots_lem :
      (limit : ℕ) (roots : List Text) (out : List Candidate)
      → length out ≤ limit
      → walk_roots fs query basename_only limit roots out ≡ take limit (out ++ hits_below roots)
  unfolding walk_roots hits_below
  walk_roots_lem limit [] out h = rw (append_nil out) (sym (take-all limit out h))
  walk_roots_lem limit (root ∷ roots) out h = elim (Bool-cases (fs.exists root)) [
    | inl there ↦
        rw (there, walk_root_lem limit (fs.walk root) out h)
          (walk_roots_lem limit roots _ (length-take-le limit _)
            ∙ take-take-append limit (out ++ all_hits (fs.walk root)) (hits_below roots)
            ∙ ap (take limit) (append_assoc out (all_hits (fs.walk root)) (hits_below roots)))
    | inr missing ↦ rw (missing, hits_below) (walk_roots_lem limit roots out h)
  ]

-- The search with its early exits gives the first `limit` of all hits below the roots that exist, in
-- the order of the roots and of each walk.
pub search_exact :
    (fs : FileSystem) (query : Text) (roots : List Text) (limit : ℕ)
    → search fs query roots limit
      ≡ take limit (hits_below fs query (not (contains slash query)) roots)
unfolding search
search_exact fs query roots limit =
    walk_roots_lem fs query (not (contains slash query)) limit roots [] (omega arith)
