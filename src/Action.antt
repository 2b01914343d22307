-- ===== src/Action.antt =====
-- Methods of an object that also touch the disk and may fail. What they changed before they failed
-- stays changed, so the state comes back beside an error too.
pub mod Saving
use shmark.Base.{Text, ◌≡◌, inl, inr, arith}
use shmark.Errors.{Error, Result, ok, err, panic, Result-cases}
use shmark.Disk
use shmark.Disk.{Disk}

pub record Held {ℓ} (C : Type ℓ) : Type ℓ where
  pub value : C
  pub disk : Disk

abbrev pub Action {ℓ} : Type ℓ → Type ℓ → Type ℓ
Action C A = Held C → Result A × Held C

module _ {ℓ} {C A : Type ℓ} where
  abbrev pub pure : A → Action C A
  pure a s = (ok a, s)

  abbrev pub lift : Result A → Action C A
  lift r s = (r, s)

-- A call that works on the disk only.
abbrev pub on_disk {ℓ} : {C : Type ℓ} {A : Type ℓ} → (Disk → Result A × Disk) → Action C A
on_disk call s = let (r, d) = call s.disk in (r, record s { disk = d })

module _ {ℓ} {C A B : Type ℓ} where
  abbrev pub continue : Result A → (A → Action C B) → Action C B
  continue (ok a) f s = f a s
  continue (err e) f s = (err e, s)
  continue panic f s = (panic, s)

  infixl 5 ◌>>=◌ ◌>>◌
  abbrev pub ◌>>=◌ : Action C A → (A → Action C B) → Action C B
  ◌>>=◌ m f s = let (r, s') = m s in continue r f s'

  abbrev pub ◌>>◌ : Action C A → Action C B → Action C B
  m >> k = m >>= λ _. k

-- The object, and a change of it.
abbrev pub this {ℓ} : {C : Type ℓ} → Action C C
this s = (ok s.value, s)

abbrev pub assign {ℓ} : {C : Type ℓ} → C → Action C (Unit {ℓ})
assign c s = (ok tt, record s { value = c })

abbrev pub write_file {ℓ} : {C : Type ℓ} → Text → Text → Action C (Unit {ℓ})
write_file path t s =
    let (r, d) = Disk.write path t s.disk in
    (elim r [ ok _ ↦ ok tt | err e ↦ err e | panic ↦ panic ], record s { disk = d })

pub write_file-done {ℓ} :
    {C : Type ℓ} (path t : Text) (s : Held C)
    → (write_file path t s).0 ≡ ok tt
    → (Disk.write path t s.disk).0 ≡ ok tt
write_file-done path t s h = ground arith

-- An action followed by a plain result ends in the state of the action, and succeeds only if the
-- action does.
module _ {ℓ} {C A B : Type ℓ} (m : Action C A) (b : B) (s : Held C) where
  pub state_then_pure : ((m >> pure b) s).1 ≡ (m s).1
  state_then_pure = ground arith

  pub done_then_pure : {b' : B} → ((m >> pure b) s).0 ≡ ok b' → (a : A) × ((m s).0 ≡ ok a)
  done_then_pure h = ground arith

  pub value_then_pure : {b' : B} → ((m >> pure b) s).0 ≡ ok b' → b ≡ b'
  value_then_pure h = ground arith

-- What a chain that ran to its end did at its first call, and after it.
module _ {ℓ} {C A B : Type ℓ} where
  pub ran :
      (m : Action C A) (k : A → Action C B) (s t : Held C) (b : B)
      → (m >>= k) s ≡ (ok b, t)
      → (a : A) × (mid : Held C) × (m s ≡ (ok a, mid)) × (k a mid ≡ (ok b, t))
  ran m k s t b h = elim (Result-cases (m s).0) [
    | inl (a, e) ↦ (a, (m s).1, (λ i. (e i, (m s).1)), rw e at h)
    | inr (inl (y, e)) ↦ cc (rw e at h)
    | inr (inr e) ↦ cc (rw e at h)
  ]

  pub ran_lift :
      (r : Result A) (k : A → Action C B) (s t : Held C) (b : B)
      → (lift r >>= k) s ≡ (ok b, t)
      → (a : A) × (r ≡ ok a) × (k a s ≡ (ok b, t))
  ran_lift r k s t b h = elim (Result-cases r) [
    | inl (a, e) ↦ (a, e, rw e at h)
    | inr (inl (y, e)) ↦ cc (rw e at h)
    | inr (inr e) ↦ cc (rw e at h)
  ]
