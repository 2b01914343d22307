-- ===== src/Pairing/Tokens.antt =====
-- The tokens against their history: a token is good once, for five minutes after it was minted.
use shmark.Base.{
  ℕ, ◌-◌, ◌≤◌, Text, ◌==◌, eq_iff, ◌≡◌, ◌⊎◌, refl, some, none, Option, Bool, true, false, ltb,
  arith, List, [], ◌∷◌, if◌then◌else◌,
}
use shmark.Maps.{Map, lookup, insert}
use shmark.Maps.Laws.{lookup-insert, lookup-remove}
use shmark.Maps.Distinct.{Distinct, insert-Distinct, remove-Distinct}
use shmark.Crypto.{Bytes, Hex}
use shmark.Pairing.{
  PairingHost, new, token_ttl, fresh, retain, mint_token, validate, validate_and_consume,
}

-- What happened to the host, the latest event first: a token was minted, or tried.
pub data Event : Type 0 where
  minted : Bytes → ℕ → Event
  tried : Text → ℕ → Event

abbrev pub time_of : Event → ℕ
time_of (minted b t) = t
time_of (tried k t) = t

abbrev pub latest : List Event → ℕ
latest [] = 0
latest (e ∷ h) = time_of e

-- The clock does not run backwards.
abbrev pub InOrder : List Event → Type 0
InOrder [] = Unit
InOrder (e ∷ h) = (latest h ≤ time_of e) × InOrder h

module _ (hex : Hex) where
  abbrev pub after : List Event → PairingHost
  after [] = new
  after (minted b t ∷ h) = (mint_token hex b t (after h)).1
  after (tried k t ∷ h) = (validate_and_consume k t (after h)).1

  -- When a token was last minted, if it was not tried since.
  abbrev pub mint_time : Text → List Event → Option ℕ
  mint_time k [] = none
  mint_time k (minted b t ∷ h) = if hex.encode b == k then some t else mint_time k h
  mint_time k (tried j t ∷ h) = if j == k then none else mint_time k h

  -- The specification of a try at time `now`.
  abbrev pub is_good : Text → ℕ → List Event → Bool
  is_good k now h = elim (mint_time k h) [ none ↦ false | some t ↦ ltb (now - t) token_ttl ]

lookup-retain :
    (keep : ℕ → Bool) (k : Text) (m : Map ℕ)
    → Distinct m
    → lookup k (retain keep m)
      ≡ (elim (lookup k m) [ none ↦ none | some v ↦ if keep v then some v else none ])
unfolding lookup retain
lookup-retain keep k [] d = refl
lookup-retain keep k ((j, v) ∷ m) d = ground (arith, eq_iff j k, lookup-retain keep k m d.1)

lookup-retain-none :
    (keep : ℕ → Bool) (k : Text) (m : Map ℕ) → lookup k m ≡ none → lookup k (retain keep m) ≡ none
unfolding lookup retain
lookup-retain-none keep k [] h = refl
lookup-retain-none keep k ((j, v) ∷ m) h = ground (arith, eq_iff j k, lookup-retain-none keep k m)

retain-Distinct : (keep : ℕ → Bool) (m : Map ℕ) → Distinct m → Distinct (retain keep m)
unfolding retain
retain-Distinct keep [] d = tt
retain-Distinct keep ((j, v) ∷ m) d =
    ground (arith, lookup-retain-none keep j m d.0, retain-Distinct keep m d.1)

-- What the host holds of a token, against when it was minted, at the time of the latest event.
abbrev Agrees : Option ℕ → Option ℕ → ℕ → Type 0
Agrees held none l = held ≡ none
Agrees held (some t) l = (held ≡ some t) ⊎ ((held ≡ none) × (token_ttl ≤ l - t))

abbrev retained : ℕ → Option ℕ → Option ℕ
retained now held = elim held [ none ↦ none | some v ↦ if fresh now v then some v else none ]

Agrees-minted :
    (same : Bool) (held mint : Option ℕ) (l t : ℕ)
    → l ≤ t
    → Agrees held mint l
    → Agrees (retained t (if same then some t else held)) (if same then some t else mint) t
unfolding fresh
Agrees-minted true held mint l t o a = ground arith
Agrees-minted false held none l t o a = ground arith
Agrees-minted false none (some m) l t o a = ground arith
Agrees-minted false (some v) (some m) l t o a = ground arith

Agrees-tried :
    (same : Bool) (held mint : Option ℕ) (l t : ℕ)
    → l ≤ t
    → Agrees held mint l
    → Agrees (if same then none else held) (if same then none else mint) t
Agrees-tried true held mint l t o a = refl
Agrees-tried false held none l t o a = a
Agrees-tried false held (some m) l t o a = ground arith

Agrees-validate :
    (held mint : Option ℕ) (l now : ℕ)
    → l ≤ now
    → Agrees held mint l
    → validate now held ≡ (elim mint [ none ↦ false | some t ↦ ltb (now - t) token_ttl ])
unfolding validate fresh
Agrees-validate held none l now o a = ground arith
Agrees-validate held (some m) l now o a = ground arith

module _ (hex : Hex) where
  after-Distinct : (h : List Event) → Distinct (after hex h).pending
  unfolding new mint_token validate_and_consume
  after-Distinct [] = tt
  after-Distinct (minted b t ∷ h) =
      retain-Distinct (fresh t) _
        (insert-Distinct (hex.encode b) t (after hex h).pending (after-Distinct h))
  after-Distinct (tried k t ∷ h) = remove-Distinct k (after hex h).pending (after-Distinct h)

  -- The host forgets a token only once it is used or too old.
  Tracks-after :
      (k : Text) (h : List Event)
      → InOrder h
      → Agrees (lookup k (after hex h).pending) (mint_time hex k h) (latest h)
  unfolding new mint_token validate_and_consume lookup
  Tracks-after k [] o = refl
  Tracks-after k (minted b t ∷ h) o =
      rw
        (lookup-retain (fresh t) k (insert (hex.encode b) t (after hex h).pending)
          (insert-Distinct (hex.encode b) t (after hex h).pending (after-Distinct h)))
        (rw (lookup-insert (hex.encode b) k t (after hex h).pending)
          (Agrees-minted (hex.encode b == k) _ _ (latest h) t o.0 (Tracks-after k h o.1)))
  Tracks-after k (tried j t ∷ h) o =
      rw (lookup-remove j k (after hex h).pending)
        (Agrees-tried (j == k) _ _ (latest h) t o.0 (Tracks-after k h o.1))

  -- Whatever was minted and tried before, with a clock that does not run backwards,
  -- `validate_and_consume` accepts a token exactly when it was minted, was not tried since it was
  -- last minted, and is less than five minutes old.
  pub validate_exact :
      (h : List Event) (k : Text) (now : ℕ)
      → InOrder h
      → latest h ≤ now
      → (validate_and_consume k now (after hex h)).0 ≡ is_good hex k now h
  unfolding validate_and_consume
  validate_exact h k now o later =
      Agrees-validate _ (mint_time hex k h) (latest h) now later (Tracks-after k h o)
