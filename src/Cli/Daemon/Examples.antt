-- ===== src/Cli/Daemon/Examples.antt =====
-- A daemon that answers at the second look.
use shmark.Base.{
  ℕ, ◌*◌, ◌-◌, codes, ◌≡◌, ◌≢◌, refl, eqb, ltb, none, some, [], ◌∷◌, if◌then◌else◌, arith,
}
use shmark.Errors.{ok, err, panic, message, context, os}
use shmark.Paths
use shmark.Paths.{Surroundings}
use shmark.Dispatch.{shutdown}
use shmark.Cli.Daemon.{
  World, wait, spawn_detached, spawn_and_wait, data_dir_ready, start, status, stop, foreground,
  task_result, served, ctrl_c, default_display_name,
}
use shmark.Cli.Daemon.Starting.{Sleeps, start_ends}

abbrev world : World ℕ
world = record {
  surroundings = record { custom = some (codes "/d"); os_data_dir = none };
  create_dir_all = λ dir. ok tt;
  exists = λ i. ltb 1 i;
  call = λ i method. some (if eqb i 2 then ok 7 else err os);
  clock = λ i. (i - 1) * 100;
  to_string = λ v. some (v ∷ []);
  to_string_pretty = λ v. some (v ∷ []);
  display = λ e. codes "refused";
  current_exe = ok (codes "/bin/shmark");
  open_log = λ path. ok tt;
  try_clone = ok tt;
  spawn = λ exe args. ok tt;
}

sleeps : Sleeps world
sleeps = (ground arith, λ i. omega arith)

returns : (i : ℕ) → world.call i (codes "daemon_status") ≢ none
returns i = λ h. cc

start_ends_example : start world none ≢ none
start_ends_example = start_ends world returns sleeps none

-- A daemon that takes the connection and never answers: `start` does not return.
abbrev silent : World ℕ
silent = record world { call = λ i method. none }

hangs : start silent none ≡ none
unfolding start spawn_and_wait spawn_detached wait data_dir_ready Paths.ensure_data_dir
    Paths.data_dir Paths.socket_path Paths.log_path Paths.in_data_dir
hangs = refl

status_of_none : status world ≡ some (ok (codes "not running"))
unfolding status Paths.data_dir Paths.socket_path Paths.in_data_dir
status_of_none = refl

abbrev home : Surroundings
home = record { custom = some (codes "/d"); os_data_dir = none }

-- A daemon that is stopped by ctrl-c tells its server to shut down, and nothing else.
interrupted :
    foreground {State = ℕ} home (ok 3) (codes "panicked") (ctrl_c (ok tt)) ≡ (ok tt, shutdown ∷ [])
unfolding foreground task_result Paths.data_dir Paths.socket_path Paths.in_data_dir
interrupted = refl

panicked :
    foreground {State = ℕ} home (ok 3) (codes "at the disco") (served panic)
    ≡ (err (message (codes "daemon task panicked: at the disco")), [])
unfolding foreground task_result Paths.data_dir Paths.socket_path Paths.in_data_dir
panicked = refl

not_booted :
    foreground {State = ℕ} home (err os) (codes "panicked") (served (ok tt))
    ≡ (err (context (codes "boot AppState") os), [])
unfolding foreground
not_booted = refl

user_named : default_display_name none (some (codes "ann")) ≡ codes "ann"
unfolding default_display_name
user_named = refl

nothing_to_stop : stop world ≡ some (ok (codes "daemon not running"))
unfolding stop Paths.data_dir Paths.socket_path Paths.in_data_dir
nothing_to_stop = refl
