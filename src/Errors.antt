-- ===== src/Errors.antt =====
-- The results of fallible code (`anyhow::Result` in every crate), and of code that may panic.
use shmark.Base.{ℕ, Text, ◌≡◌, ◌≢◌, refl, ◌⊎◌, inl, inr, Option, none, some, Bool, true, false}

-- The causes that the code builds by `anyhow!` and `bail!`, the failures of the libraries, and the
-- layers that `context` and `with_context` add. `no_match` and `ambiguous` hold the kind of thing
-- (`group`, `contact`) and the query, `out_of_range` an index and the length,
-- `http` a status and the address.
pub data Error : Type 0 where
  message : Text → Error
  no_match : Text → Text → Error
  ambiguous : ℕ → Text → Text → Error
  out_of_range : ℕ → ℕ → Error
  http : ℕ → Text → Error
  os : Error
  serde : Error
  foreign : Error
  context : Text → Error → Error

pub data Result {ℓ} (A : Type ℓ) : Type ℓ where
  ok : A → Result A
  err : Error → Result A
  panic : Result A

-- A panic or an error ends a chain.
module _ {ℓ κ} {A : Type ℓ} {B : Type κ} where
  infixl 5 ◌>>=◌ ◌>>◌
  abbrev pub ◌>>=◌ : Result A → (A → Result B) → Result B
  panic >>= k = panic
  ok x >>= k = k x
  err cause >>= k = err cause

  abbrev pub ◌>>◌ : Result A → Result B → Result B
  r >> next = r >>= λ _. next

module _ {ℓ} {A : Type ℓ} where
  -- `ok_or_else`
  abbrev pub ok_or : Error → Option A → Result A
  ok_or e none = err e
  ok_or e (some a) = ok a

  -- `context`, `with_context`
  abbrev pub with_context : Text → Result A → Result A
  with_context t (ok a) = ok a
  with_context t (err e) = err (context t e)
  with_context t panic = panic

  -- An index into a map, or a slice: a missing entry is a panic.
  abbrev pub expect : Option A → Result A
  expect none = panic
  expect (some a) = ok a

  -- `.ok()`
  abbrev pub to_option : Result A → Option A
  to_option (ok a) = some a
  to_option (err e) = none
  to_option panic = none

  abbrev pub is_ok : Result A → Bool
  is_ok (ok a) = true
  is_ok (err e) = false
  is_ok panic = false

pub Result-cases {ℓ} :
    {A : Type ℓ} (r : Result A) → ((a : A) × (r ≡ ok a)) ⊎ ((e : Error) × (r ≡ err e)) ⊎ (r ≡ panic)
Result-cases (ok a) = inl (a, refl)
Result-cases (err e) = inr (inl (e, refl))
Result-cases panic = inr (inr refl)

pub ok-injective {ℓ} : {A : Type ℓ} {a b : A} → ok a ≡ ok b → a ≡ b
ok-injective h = cc

pub err-ne-ok {ℓ} : {A : Type ℓ} {e : Error} {a : A} → err e ≢ ok a
err-ne-ok h = cc
