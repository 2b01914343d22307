-- ===== src/Server/Listener.antt =====
-- `serve` of crates/shmark-api/src/server.rs: the socket file, and the loop that accepts connections.
pub mod Accepting
mod Examples
use shmark.Base.{
  ℕ, Text, codes, ◌++◌, Option, none, some, Bool, true, false, List, [], ◌∷◌, if◌then◌else◌,
}
use shmark.Errors.{Error, Result, ok, err, panic, os, context, with_context}
use shmark.Maps.{insert, remove}
use shmark.Disk.{Disk, exists, set_mode}
use shmark.Action.{Action, Held, pure, lift, ◌>>=◌, ◌>>◌}

-- How the file system answers for sockets: which files can be removed, where a socket can be bound,
-- and the mode of a new socket.
pub record Sockets : Type 0 where
  pub removable : Text → Bool
  pub bindable : Text → Bool
  pub new_mode : ℕ

-- `std::fs::remove_file`
pub remove_file : Sockets → Text → Disk → Result (Unit {0}) × Disk
remove_file k path d =
    if exists path d
    then if k.removable path
      then (ok tt, record d { files = remove path d.files; modes = remove path d.modes })
      else (err os, d)
    else (err os, d)

-- `UnixListener::bind`: it makes the socket file, which must not be there.
pub bind : Sockets → Text → Disk → Result (Unit {0}) × Disk
bind k path d =
    if exists path d
    then (err os, d)
    else if k.bindable path
    then (
      ok tt,
      record d { files = insert path [] d.files; modes = insert path k.new_mode d.modes },
    )
    else (err os, d)

-- One wake of the `select!`: whether `shutdown` was notified, and what `accept` has.
pub record Wake (C : Type 0) : Type 0 where
  pub notified : Bool
  pub accepted : Result C

-- What the loop has come to: it waits for the next wake, or it ended.
pub data Loop : Type 0 where
  waiting : Loop
  ended : Result (Unit {0}) → Loop

module _ {C : Type 0} where
  -- The loop, which is `biased`: it asks for the shutdown first. The list holds the connections for
  -- which a task was spawned.
  pub accept_loop : List (Wake C) → List C → Loop × List C
  accept_loop [] spawned = (waiting, spawned)
  accept_loop (w ∷ wakes) spawned =
      let next = accept_loop wakes in
      if w.notified
      then (ended (ok tt), spawned)
      else elim (with_context (codes "accept unix connection") w.accepted) [
        | ok c ↦ next (spawned ++ c ∷ [])
        | err e ↦ (ended (err e), spawned)
        | panic ↦ (ended panic, spawned)
      ]

  module _ (k : Sockets) (path : Text) where
    on_disk : (Disk → Result (Unit {0}) × Disk) → Action (List C) (Unit {0})
    on_disk f s = let (r, d) = f s.disk in (r, record s { disk = d })

    in_context : Text → Action (List C) (Unit {0}) → Action (List C) (Unit {0})
    in_context t m s = let (r, h) = m s in (with_context t r, h)

    remove_stale : Action (List C) (Unit {0})
    unfolding on_disk in_context remove_file
    remove_stale s =
        if exists path s.disk
        then in_context (codes "remove stale socket " ++ path) (on_disk (remove_file k path)) s
        else pure tt s

    -- The socket, up to its permissions.
    pub listen : Action (List C) (Unit {0})
    unfolding remove_stale on_disk in_context bind
    listen = do
      remove_stale
      in_context (codes "bind unix socket at " ++ path) (on_disk (bind k path))
      on_disk (set_mode path 0o600)

    finish : Loop → Action (List C) Loop
    unfolding on_disk remove_file
    finish waiting s = (ok waiting, s)
    finish (ended (ok _)) s = (ok (ended (ok tt)), (on_disk (remove_file k path) s).1)
    finish (ended (err e)) s = (ok (ended (err e)), s)
    finish (ended panic) s = (ok (ended panic), s)

    -- `serve`, for the wakes so far.
    pub serve : List (Wake C) → Action (List C) Loop
    unfolding listen accept_loop finish
    serve wakes = do
      listen
      (λ s. let (l, spawned) = accept_loop wakes s.value in finish l (record s { value = spawned }))
