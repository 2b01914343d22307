-- ===== src/Desktop.antt =====
-- crates/shmark-tauri/src/main.rs: the desktop shell around the methods. Windows, the tray and the
-- frontend are left out.
pub mod Reloads
pub mod Hotkeys
mod Examples
use shmark.Base.{
  ℕ, suc, eqb, ◌&&◌, Text, codes, ◌++◌, ◌==◌, ◌≡◌, ◌≢◌, ◌⊎◌, Bool, true, false, not, List, [], ◌∷◌,
  filter, is_empty, if◌then◌else◌,
}
use shmark.Errors.{Error, Result, ok, err, panic, message}
use shmark.Server.{flatten_chain}

-- What `rpc` gives the frontend: a value, or the text of the error. A panic ends the task.
pub data Reply (Value : Type 0) : Type 0 where
  value : Value → Reply Value
  failure : Text → Reply Value
  no_reply : Reply Value

pub rpc : {Value : Type 0} → (Error → Text) → Result Value → Reply Value
rpc display (ok v) = value v
rpc display (err e) = failure (flatten_chain display e)
rpc display panic = no_reply

-- The check for another daemon at the start. `connects` is whether a connection to the socket is
-- taken; the flag of the result is whether the socket file is removed.
pub claim_socket : Text → Bool → Bool → Result Bool
claim_socket socket there connects =
    if there
    then if connects
      then err (
          message (
            ((codes "shmark daemon already running on " ++ socket)
              ++ 0x20
                ∷ 0xe2
                ∷ 0x80
                ∷ 0x94
                ∷ codes " stop it with `shmark daemon stop` before launching the app")))
      else ok true
    else ok false

-- Where the watcher of reloads stands in its loop: it waits, it boots a new state, it has put the new
-- state in place for the frontend, or it shuts down the node of the state that it has replaced.
pub data Phase : Type 0 where
  waiting booting swapped : Phase
  stopping : ℕ → Phase

abbrev is_waiting : Phase → Bool
is_waiting waiting = true
is_waiting booting = false
is_waiting swapped = false
is_waiting (stopping old) = false

-- The states that the shell holds. They are numbered in the order in which they were booted: the one
-- of the start is 0, and `boots` were booted since. `current` is the state of that name in the
-- watcher, whose `reload_requested` it awaits; `managed` is what `rpc` uses, `serving` what the socket
-- server uses. The nodes of the states in `down` were shut down.
pub record Shell : Type 0 where
  pub boots : ℕ
  pub current : ℕ
  pub managed : ℕ
  pub serving : ℕ
  pub phase : Phase
  pub down : List ℕ

pub initial : Shell
initial = record { boots = 0; current = 0; managed = 0; serving = 0; phase = waiting; down = [] }

-- A method that runs on the state with this number asks for a reload: `notify_waiters` wakes the
-- watcher only if it waits, and on that very state.
unfoldable pub ask : ℕ → Shell → Shell
ask state d = if eqb state d.current && is_waiting d.phase then record d { phase = booting } else d

-- The steps of `spawn_reload_watcher`, and a reload that is asked for at any time on any state.
pub data Step : Shell → Shell → Type 0 where
  asked : (d : Shell) (state : ℕ) → Step d (ask state d)
  boot_failed : (d : Shell) → d.phase ≡ booting → Step d (record d { phase = waiting })
  managed_swapped :
      (d : Shell)
      → d.phase ≡ booting
      → Step d (record d { boots = suc d.boots; managed = suc d.boots; phase = swapped })
  current_replaced :
      (d : Shell)
      → d.phase ≡ swapped
      → Step d (record d { current = d.boots; phase = stopping d.current })
  node_stopped :
      (d : Shell) (old : ℕ)
      → d.phase ≡ stopping old
      → Step d (record d { phase = waiting; down = old ∷ d.down })

-- The hotkeys that are registered, and the one that the watcher thinks is.
pub record Keys : Type 0 where
  pub last : Text
  pub registered : List Text

-- `accepts` is whether the window system takes a registration, or its end.
pub register_hotkey : (Text → Bool) → Text → List Text → List Text
register_hotkey accepts accel registered =
    if is_empty accel then registered else if accepts accel then accel ∷ registered else registered

pub unregister_hotkey : (Text → Bool) → Text → List Text → List Text
unregister_hotkey accepts accel registered =
    if is_empty accel
    then registered
    else if accepts accel
    then filter (λ k. not (k == accel)) registered
    else registered

-- One round of the loop of `spawn_hotkey_watcher`, for the hotkey that the settings hold.
pub hotkey_round : (Text → Bool) → Text → Keys → Keys
unfolding register_hotkey unregister_hotkey
hotkey_round accepts new_hotkey k = if new_hotkey == k.last then k else record {
  last = new_hotkey;
  registered = register_hotkey accepts new_hotkey (unregister_hotkey accepts k.last k.registered);
}

-- Where the watcher of the hotkey stands: it awaits `settings_changed`, it was woken and has yet to read
-- the settings, or it registers the hotkey that it read.
pub data Watching : Type 0 where
  waits woken : Watching
  registers : Text → Watching

-- The watcher, and the settings that it looks at: those of the state that the shell started with.
-- `changed` is whether they were changed since the watcher last read them.
pub record Watcher : Type 0 where
  pub setting : Text
  pub keys : Keys
  pub at : Watching
  pub changed : Bool

-- The registration at the start; the first round of the loop has nothing to do.
pub watch_from : (Text → Bool) → Text → Watcher
unfolding register_hotkey
watch_from accepts hotkey = record {
  setting = hotkey;
  keys = record { last = hotkey; registered = register_hotkey accepts hotkey [] };
  at = registers hotkey;
  changed = false;
}

-- What `notify_waiters` of the settings does: a watcher that does not wait misses it.
unfoldable pub notified : Watcher → Watcher
notified v = elim v.at [ waits ↦ record v { at = woken } | woken ↦ v | registers h ↦ v ]

-- The loop of `spawn_hotkey_watcher`, and changes of the settings at any time. A change and the
-- notification of it are two steps, and a change whose save fails is not followed by one.
pub data Watch (accepts : Text → Bool) : Watcher → Watcher → Type 0 where
  set_hotkey : (v : Watcher) (h : Text) → Watch accepts v (record v { setting = h; changed = true })
  told : (v : Watcher) → Watch accepts v (notified v)
  read :
      (v : Watcher)
      → v.at ≡ woken
      → Watch accepts v (record v { at = registers v.setting; changed = false })
  round_done :
      (v : Watcher) (h : Text)
      → v.at ≡ registers h
      → Watch accepts v (record v { keys = hotkey_round accepts h v.keys; at = waits })
