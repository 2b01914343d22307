-- ===== src/Cli/Daemon/Starting.antt =====
-- That `start` ends, and what its answer means.
use shmark.Base.{
  ℕ, zero, suc, ◌+◌, ◌*◌, ◌≤◌, ◌<◌, Text, codes, ◌≡◌, ◌≢◌, ◌⊎◌, refl, Option, none, some, true,
  Bool-cases, inl, inr, arith,
}
use shmark.Errors.{Error, Result, ok, err, panic, Result-cases}
use shmark.Cli.Daemon.{World, wait, spawn_detached, spawn_and_wait, data_dir_ready, start}

module _ {Value : Type 0} (w : World Value) where
  -- Each round of the loop sleeps for 100 ms: the first look, at `clock 1`, is not earlier than the
  -- deadline was set, at `clock 0`, and each later one comes at least 100 ms after the one before it.
  abbrev pub Sleeps : Type 0
  Sleeps = (w.clock 0 ≤ w.clock 1) × ((i : ℕ) → w.clock (i + 1) + 100 ≤ w.clock (i + 1 + 1))

  -- What a call comes to.
  call_cases :
      (x : Option (Result Value))
      → (x ≡ none)
        ⊎ (((v : Value) × (x ≡ some (ok v)))
            ⊎ (((e : Error) × (x ≡ some (err e))) ⊎ (x ≡ some panic)))
  call_cases none = inl refl
  call_cases (some (ok v)) = inr (inl (v, refl))
  call_cases (some (err e)) = inr (inr (inl (e, refl)))
  call_cases (some panic) = inr (inr (inr refl))

  module _ (returns : (i : ℕ) → w.call i (codes "daemon_status") ≢ none) where
    wait_ends :
        (fuel i deadline : ℕ)
        → ((j : ℕ) → w.clock (j + 1) + 100 ≤ w.clock (j + 1 + 1))
        → deadline ≤ w.clock (i + 1) + fuel * 100
        → wait w (suc fuel) (i + 1) deadline ≢ none
    unfolding wait
    wait_ends zero i deadline sleeps h = ground arith
    wait_ends (suc fuel) i deadline sleeps h =
        let rest = wait_ends fuel (i + 1) deadline sleeps (omega (arith, sleeps i, h)) in
        elim (call_cases (w.call (i + 1) (codes "daemon_status"))) [
          | inl never ↦ absurd (returns (i + 1) never)
          | inr (inl (v, c)) ↦ ground (arith, c, rest)
          | inr (inr (inl (e, c))) ↦ ground (arith, c, rest)
          | inr (inr (inr c)) ↦ ground (arith, c, rest)
        ]

    spawn_and_wait_ends :
        Sleeps → (display_name : Option Text) → spawn_and_wait w display_name ≢ none
    unfolding spawn_and_wait
    spawn_and_wait_ends sleeps display_name =
        let ends = wait_ends 50 0 (w.clock 0 + 5000) sleeps.1 (omega (arith, sleeps.0)) in
        elim (Result-cases (spawn_detached w display_name)) [
          | inl (u, e) ↦ rw (spawn_and_wait, e) ends
          | inr (inl (x, e)) ↦ rw (spawn_and_wait, e) (λ h. cc)
          | inr (inr e) ↦ rw (spawn_and_wait, e) (λ h. cc)
        ]

    -- If every call of `daemon_status` returns, with whatever result, and each round of its loop takes
    -- at least the 100 ms that it sleeps, then `start` ends with a result, a failure or a success:
    -- 51 rounds are enough to reach the deadline.
    pub start_ends : Sleeps → (display_name : Option Text) → start w display_name ≢ none
    unfolding start
    start_ends sleeps display_name =
        let ends = spawn_and_wait_ends sleeps display_name in
        elim (Result-cases (data_dir_ready w)) [
          | inl (dir, e) ↦ elim (Bool-cases (w.exists 0)) [
            | inl there ↦ elim (call_cases (w.call 0 (codes "daemon_status"))) [
              | inl never ↦ absurd (returns 0 never)
              | inr (inl (v, c)) ↦ rw (start, e, there, c) (λ h. cc)
              | inr (inr (inl (x, c))) ↦ rw (start, e, there, c) ends
              | inr (inr (inr c)) ↦ rw (start, e, there, c) (λ h. cc)
            ]
            | inr away ↦ rw (start, e, away) ends
          ]
          | inr (inl (x, e)) ↦ rw (start, e) (λ h. cc)
          | inr (inr e) ↦ rw (start, e) (λ h. cc)
        ]

  -- A look at which the new daemon answered.
  pub record Answers (t : Text) (deadline : ℕ) : Type 0 where
    pub look : ℕ
    pub value : Value
    pub there : w.exists look ≡ true
    pub answered : w.call look (codes "daemon_status") ≡ some (ok value)
    pub printed : w.to_string value ≡ some t
    pub in_time : w.clock look < deadline
