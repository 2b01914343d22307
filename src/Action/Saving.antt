-- ===== src/Action/Saving.antt =====
-- Methods that change the object, save it, and return a value: where they call `save`.
use shmark.Base.{◌≡◌}
use shmark.Errors.{ok}
use shmark.Action.{Held, Action, ◌>>◌, pure, state_then_pure, done_then_pure}

module _ {C A : Type 0} (save : Action C Unit) where
  -- A run of `m` ends with a `save` that succeeded, from an object `mid` with the disk of `s`.
  pub record Saves (m : Action C A) (s : Held C) : Type 0 where
    pub mid : Held C
    pub same : (m s).1 ≡ (save mid).1
    pub done : (save mid).0 ≡ ok tt
    pub disk : mid.disk ≡ s.disk

  pub then_saves :
      (mid : Held C) (x : A) {y : A}
      → ((save >> pure x) mid).0 ≡ ok y
      → (((save >> pure x) mid).1 ≡ (save mid).1) × ((save mid).0 ≡ ok tt)
  then_saves mid x h =
      let (_, done) = done_then_pure save x mid h in (state_then_pure save x mid, done)
