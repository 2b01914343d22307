-- ===== src/Desktop/Reloads.antt =====
-- Which state the parts of the shell use after reloads.
use shmark.Base.{
  ℕ, zero, suc, ◌<◌, eqb, ◌≡◌, refl, ap, subst, true, List, ◌∷◌, inl, inr, arith, Bool-cases, ◌&&◌,
}
use mathlib.Core.List.{Memᴰ}
use shmark.Desktop.{
  Phase, waiting, booting, swapped, stopping, is_waiting, Shell, initial, Step, ask, asked,
  boot_failed, managed_swapped, current_replaced, node_stopped,
}

pub data Reachable : Shell → Type 0 where
  start : Reachable initial
  next : (d e : Shell) → Reachable d → Step d e → Reachable e

-- The state that the watcher awaits, and that the node of the first state goes down, by where the
-- watcher stands: between two reloads it awaits the newest state, and the first one is down if there
-- is a newer one.
abbrev pub Tracks : Phase → Shell → Type 0
Tracks waiting d = (d.current ≡ d.boots) × (0 < d.boots → Memᴰ 0 d.down)
Tracks booting d = (d.current ≡ d.boots) × (0 < d.boots → Memᴰ 0 d.down)
Tracks swapped d = (suc d.current ≡ d.boots) × (0 < d.current → Memᴰ 0 d.down)
Tracks (stopping old) d = (d.current ≡ d.boots) × (suc old ≡ d.boots) × (0 < old → Memᴰ 0 d.down)

-- The frontend's methods use the newest state; the socket server uses the first one.
pub record IsConsistent (d : Shell) : Type 0 where
  pub managed_newest : d.managed ≡ d.boots
  pub serving_first : d.serving ≡ 0
  pub tracked : Tracks d.phase d

initial-IsConsistent : IsConsistent initial
unfolding initial
initial-IsConsistent = record {
  managed_newest = refl;
  serving_first = refl;
  tracked = (refl, λ h. absurd (omega arith));
}

first_stays_down : (old : ℕ) (down : List ℕ) → (0 < old → Memᴰ 0 down) → Memᴰ 0 (old ∷ down)
first_stays_down zero down h = Memᴰ.head refl
first_stays_down (suc n) down h = Memᴰ.tail (h (omega arith))

as_phase : (d : Shell) (p : Phase) → d.phase ≡ p → IsConsistent d → Tracks p d
as_phase d p e c = subst (λ q. Tracks q d) e c.tracked

awaits : (d : Shell) (p : Phase) → is_waiting p ≡ true → Tracks p d → Tracks booting d
awaits d waiting h t = t
awaits d booting h t = t
awaits d swapped h t = cc
awaits d (stopping old) h t = cc

ask-IsConsistent : (state : ℕ) (d : Shell) → IsConsistent d → IsConsistent (ask state d)
unfolding ask
ask-IsConsistent state d c = elim (Bool-cases (eqb state d.current && is_waiting d.phase)) [
  | inl e ↦
      rw (ask, e)
        (record {
          managed_newest = c.managed_newest;
          serving_first = c.serving_first;
          tracked = awaits d d.phase (ground (arith, e)) c.tracked;
        })
  | inr e ↦ rw (ask, e) c
]

Step-IsConsistent : (d e : Shell) → Step d e → IsConsistent d → IsConsistent e
Step-IsConsistent d e (asked d' s) c = ask-IsConsistent s d c
Step-IsConsistent d e (boot_failed d' w) c = record {
  managed_newest = c.managed_newest;
  serving_first = c.serving_first;
  tracked = as_phase d booting w c;
}
Step-IsConsistent d e (managed_swapped d' w) c =
    let (same, first) = as_phase d booting w c in
    record {
      managed_newest = refl;
      serving_first = c.serving_first;
      tracked = (ap suc same, λ h. first (ground (arith, same, h)));
    }
Step-IsConsistent d e (current_replaced d' w) c =
    let (newer, first) = as_phase d swapped w c in
    record {
      managed_newest = c.managed_newest;
      serving_first = c.serving_first;
      tracked = (refl, newer, first);
    }
Step-IsConsistent d e (node_stopped d' old w) c =
    let (same, newer, first) = as_phase d (stopping old) w c in
    record {
      managed_newest = c.managed_newest;
      serving_first = c.serving_first;
      tracked = (same, λ h. first_stays_down old d.down first);
    }

-- In every reachable state of the shell, the frontend's methods use the newest state, while the socket
-- server uses the first one. Whenever the watcher waits, it awaits the newest state, and once there was
-- a reload the node of the first state is down; within a reload, the watcher awaits the state before
-- the newest one until it replaces it.
pub reachable-IsConsistent : (d : Shell) → Reachable d → IsConsistent d
reachable-IsConsistent d start = initial-IsConsistent
reachable-IsConsistent d (next c e r s) = Step-IsConsistent c e s (reachable-IsConsistent c r)

-- Once there was a reload, and while the watcher waits: a reload that a method asks for over the socket
-- changes nothing, it is not heard, and the node on which the methods of the socket run is down. The
-- same asked for by the frontend makes the watcher boot a new state.
pub socket_left_behind :
    (d : Shell)
    → Reachable d
    → 0 < d.boots
    → d.phase ≡ waiting
    → (ask d.serving d ≡ d)
      × Memᴰ d.serving d.down
      × (ask d.managed d ≡ record d { phase = booting })
unfolding ask
socket_left_behind d r h idle =
    let c = reachable-IsConsistent d r in
    let (newest, first) = as_phase d waiting idle c in
    (
      ground (arith, c.serving_first, newest, h),
      rw c.serving_first (first h),
      rw (c.managed_newest, ← newest, idle) (ground arith),
    )
