-- ===== src/Server/Listener/Accepting.antt =====
-- When the server accepts connections, and how it stops.
use shmark.Base.{
  ℕ, Text, eq_refl, ◌≡◌, refl, ap, ◌∙◌, subst, some, true, false, codes, List, [], ◌∷◌, ◌++◌, map,
  arith,
}
use mathlib.Core.List.{append_assoc, append-nil}
use shmark.Errors.{ok, err, panic}
use shmark.Maps.{lookup}
use shmark.Maps.Laws.{lookup-remove, lookup-insert}
use shmark.Disk.{Disk, exists, set_mode}
use shmark.Action.{Held, ran}
use shmark.Server.Listener.{
  Sockets, Wake, Loop, waiting, ended, remove_file, bind, accept_loop, on_disk, in_context,
  remove_stale, listen, finish, serve,
}

-- A file that can be removed is gone afterwards.
exists-remove_file :
    (k : Sockets) (path : Text) (d : Disk)
    → k.removable path ≡ true
    → exists path (remove_file k path d).1 ≡ false
unfolding remove_file
exists-remove_file k path d h = ground (arith, lookup-remove path path d.files, eq_refl path)

set_mode-done :
    (path : Text) (mode : ℕ) (d : Disk)
    → (set_mode path mode d).0 ≡ ok tt
    → (exists path (set_mode path mode d).1 ≡ true)
      × (lookup path (set_mode path mode d).1.modes ≡ some mode)
unfolding set_mode
set_mode-done path mode d h = ground (arith, lookup-insert path path mode d.modes, eq_refl path)

-- A socket that was set up: it is there, for its owner only.
abbrev pub Private : Text → Disk → Type 0
Private path d = (exists path d ≡ true) × (lookup path d.modes ≡ some 0o600)

module _ {C : Type 0} where
  -- A wake at which a connection arrives, and no shutdown.
  abbrev pub arrival : C → Wake C
  arrival c = record { notified = false; accepted = ok c }

  accept_loop-arrivals :
      (cs spawned : List C) (w : Wake C) (rest : List (Wake C))
      → w.notified ≡ true
      → accept_loop (map arrival cs ++ w ∷ rest) spawned ≡ (ended (ok tt), spawned ++ cs)
  unfolding accept_loop
  accept_loop-arrivals [] spawned w rest h = rw (h, append-nil spawned)
  accept_loop-arrivals (c ∷ cs) spawned w rest h =
      rw (accept_loop-arrivals cs (spawned ++ c ∷ []) w rest h, append_assoc spawned (c ∷ []) cs)

  module _ (k : Sockets) (path : Text) where
    value-listen : (s : Held (List C)) → (listen k path s).1.value ≡ s.value
    unfolding listen on_disk in_context remove_stale
    value-listen s = ground arith

    listen-Private : (s f : Held (List C)) → listen k path s ≡ (ok tt, f) → Private path f.disk
    unfolding listen on_disk
    listen-Private s f h =
        let (u, s1, cleared, h1) = ran (remove_stale k path) _ s f tt h in
        let (v, s2, bound, h2) =
          ran
            (in_context k path (codes "bind unix socket at " ++ path)
              (on_disk k path (bind k path)))
            _ s1 f tt h1 in
        subst (λ (t : Held (List C)). Private path t.disk) (ap (λ p. p.1) h2)
          (set_mode-done path 0o600 s2.disk (ap (λ p. p.0) h2))

    finish-waiting : (l : Loop) (s f : Held (List C)) → finish k path l s ≡ (ok waiting, f) → s ≡ f
    unfolding finish
    finish-waiting waiting s f h = ap (λ p. p.1) h
    finish-waiting (ended (ok u)) s f h = cc
    finish-waiting (ended (err e)) s f h = cc
    finish-waiting (ended panic) s f h = cc

    -- As long as the server waits for connections, its socket is there, with the permissions of its
    -- owner only, whatever was at its path before.
    pub serve-Private :
        (wakes : List (Wake C)) (s f : Held (List C))
        → serve k path wakes s ≡ (ok waiting, f)
        → Private path f.disk
    unfolding serve finish
    serve-Private wakes s f h =
        let (u, s1, ready, h1) = ran (listen k path) _ s f waiting h in
        subst (λ (t : Held (List C)). Private path t.disk)
          (finish-waiting (accept_loop wakes s1.value).0 _ f h1) (listen-Private s s1 ready)

    -- If the socket can be set up and removed, then the server takes the connections that arrive
    -- before the first wake with a shutdown, in their order, and none from that wake on, not even one
    -- that arrives at it; it ends without an error, and its socket is gone.
    pub serve_stops :
        (cs : List C) (w : Wake C) (rest : List (Wake C)) (s : Held (List C))
        → (listen k path s).0 ≡ ok tt
        → k.removable path ≡ true
        → w.notified ≡ true
        → let end = serve k path (map arrival cs ++ w ∷ rest) s in
          (end.0 ≡ ok (ended (ok tt)))
          × (end.1.value ≡ s.value ++ cs)
          × (exists path end.1.disk ≡ false)
    unfolding serve finish on_disk
    serve_stops cs w rest s ready removable h =
        let s1 : Held (List C) = (listen k path s).1 in
        let loop : accept_loop (map arrival cs ++ w ∷ rest) s1.value
            ≡ (ended (ok tt), s.value ++ cs) =
          accept_loop-arrivals cs s1.value w rest h
          ∙ (λ i. (ended (ok tt), value-listen s i ++ cs)) in
        rw (ready, loop) (refl, refl, exists-remove_file k path s1.disk removable)
