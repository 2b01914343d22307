-- ===== src/Cli/Daemon.antt =====
-- crates/shmark-cli/src/commands/daemon.rs: starting, stopping and asking for the daemon.
pub mod Starting
mod Examples
use shmark.Base.{
  ℕ, zero, suc, ◌+◌, Text, codes, ◌++◌, ltb, Option, none, some, Bool, List, [], ◌∷◌, or_else,
  if◌then◌else◌,
}
use shmark.Errors
use shmark.Errors.{Error, Result, ok, err, panic, message, serde, ok_or, with_context}
use shmark.Paths
use shmark.Paths.{Surroundings}
use shmark.Dispatch.{Signal, shutdown}

-- What the commands meet outside: whether the socket file is there and what a call of a method gives,
-- each time that they look, none for a call that never returns, since the client has no timeout; the
-- clock in milliseconds at that time; the texts of JSON values and
-- errors; the directory; and the steps that spawn the daemon.
pub record World (Value : Type 0) : Type 0 where
  pub surroundings : Surroundings
  pub create_dir_all : Text → Result (Unit {0})
  pub exists : ℕ → Bool
  pub call : ℕ → Text → Option (Result Value)
  pub clock : ℕ → ℕ
  pub to_string : Value → Option Text
  pub to_string_pretty : Value → Option Text
  pub display : Error → Text
  pub current_exe : Result Text
  pub open_log : Text → Result (Unit {0})
  pub try_clone : Result (Unit {0})
  pub spawn : Text → List Text → Result (Unit {0})

abbrev then_do {ℓ κ} : {A : Type ℓ} {B : Type κ} → Result A → (A → Result B) → Result B
then_do = Errors.◌>>=◌

-- `default_display_name`, of the variables USER and USERNAME
pub default_display_name : Option Text → Option Text → Text
default_display_name (some user) username = user
default_display_name none (some username) = username
default_display_name none none = codes "shmark user"

-- How `foreground` ends: its server did, or ctrl-c came and then the server did. The server's task
-- gives its result, or it panicked.
pub data Ending : Type 0 where
  served ctrl_c : Result (Unit {0}) → Ending

task_result : Text → Result (Unit {0}) → Result (Unit {0})
task_result join_err (ok u) = ok u
task_result join_err (err e) = err e
task_result join_err panic = err (message (codes "daemon task panicked: " ++ join_err))

-- `foreground`: the error of the command, and what it signals to the server. `boot` is the outcome of
-- `AppState::boot`, and `join_err` the text of a panic.
pub foreground :
    {State : Type 0} → Surroundings → Result State → Text → Ending → Result (Unit {0}) × List Signal
unfolding task_result
foreground e boot join_err ending =
    elim (then_do (with_context (codes "boot AppState") boot) (λ _. Paths.socket_path e)) [
      | ok socket ↦ elim ending [
        | served res ↦ (task_result join_err res, [])
        | ctrl_c res ↦ (task_result join_err res, shutdown ∷ [])
      ]
      | err cause ↦ (err cause, [])
      | panic ↦ (panic, [])
    ]

-- What `start` prints: that a daemon runs already, or the status of the new one.
pub data Started : Type 0 where
  already_running : Started
  started : Text → Started

module _ {Value : Type 0} (w : World Value) where
  args_of : Option Text → List Text
  args_of none = codes "daemon" ∷ codes "foreground" ∷ []
  args_of (some name) = codes "daemon" ∷ codes "foreground" ∷ codes "--display-name" ∷ name ∷ []

  pub spawn_detached : Option Text → Result (Unit {0})
  unfolding args_of
  spawn_detached display_name =
      then_do (with_context (codes "locate current exe") w.current_exe) λ exe.
        then_do (Paths.log_path w.surroundings) λ log_path.
          then_do (Paths.ensure_data_dir w.create_dir_all w.surroundings) λ _.
            then_do (with_context (codes "open log " ++ log_path) (w.open_log log_path)) λ _.
              then_do w.try_clone λ _.
                with_context (codes "spawn daemon process") (w.spawn exe (args_of display_name))

  too_late : Result Started
  too_late = then_do (Paths.log_path w.surroundings) λ log_path. err (
      message (
        (codes "spawned daemon but it didn't start accepting connections within 5s "
          ++ 0xe2 ∷ 0x80 ∷ 0x94 ∷ codes " check logs at ")
        ++ log_path))

  -- The loop of `start` from its look `i` on; none when a call does not return, or the fuel is out.
  pub wait : ℕ → ℕ → ℕ → Option (Result Started)
  unfolding too_late
  wait zero i deadline = none
  wait (suc fuel) i deadline =
      let again = wait fuel (i + 1) deadline in
      if ltb (w.clock i) deadline
      then if w.exists i
        then elim (w.call i (codes "daemon_status")) [
          | none ↦ none
          | some (ok value) ↦ some (then_do (ok_or serde (w.to_string value)) λ t. ok (started t))
          | some (err e) ↦ again
          | some panic ↦ some panic
        ]
        else again
      else some too_late

  -- The part of `start` once no daemon runs. Each round sleeps for 100 ms, so that 51 rounds reach the
  -- deadline of 5 s, which is set at the time `clock 0`.
  spawn_and_wait : Option Text → Option (Result Started)
  unfolding spawn_detached wait
  spawn_and_wait display_name = elim (spawn_detached display_name) [
    | ok _ ↦ wait 51 1 (w.clock 0 + 5000)
    | err e ↦ some (err e)
    | panic ↦ some panic
  ]

  data_dir_ready : Result Text
  data_dir_ready =
      then_do (Paths.socket_path w.surroundings)
        λ _. Paths.ensure_data_dir w.create_dir_all w.surroundings

  -- A stale socket is removed, and a failure of that ignored.
  pub start : Option Text → Option (Result Started)
  unfolding spawn_and_wait data_dir_ready
  start display_name = elim data_dir_ready [
    | ok _ ↦
        if w.exists 0
        then elim (w.call 0 (codes "daemon_status")) [
          | none ↦ none
          | some (ok _) ↦ some (ok already_running)
          | some (err e) ↦ spawn_and_wait display_name
          | some panic ↦ some panic
        ]
        else spawn_and_wait display_name
    | err e ↦ some (err e)
    | panic ↦ some panic
  ]

  -- What `stop` and `status` print; none if their call does not return.
  pub stop : Option (Result Text)
  stop = elim (Paths.socket_path w.surroundings) [
    | ok _ ↦
        if w.exists 0
        then elim (w.call 0 (codes "daemon_stop")) [
          | none ↦ none
          | some r ↦ some (then_do r λ value. ok_or serde (w.to_string_pretty value))
        ]
        else some (ok (codes "daemon not running"))
    | err e ↦ some (err e)
    | panic ↦ some panic
  ]

  pub status : Option (Result Text)
  status = elim (Paths.socket_path w.surroundings) [
    | ok _ ↦
        if w.exists 0
        then elim (w.call 0 (codes "daemon_status")) [
          | none ↦ none
          | some (ok value) ↦ some (ok_or serde (w.to_string_pretty value))
          | some (err e) ↦ some (ok ((codes "not running (" ++ w.display e) ++ codes ")"))
          | some panic ↦ some panic
        ]
        else some (ok (codes "not running"))
    | err e ↦ some (err e)
    | panic ↦ some panic
  ]
