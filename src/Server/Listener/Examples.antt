-- ===== src/Server/Listener/Examples.antt =====
-- A server over a stale socket, two connections, and a shutdown.
use shmark.Base.{ℕ, Text, codes, ◌≡◌, refl, true, false, List, [], ◌∷◌, ◌++◌, map}
use shmark.Errors.{ok}
use shmark.Maps.{lookup, insert, remove}
use shmark.Disk.{exists, set_mode}
use shmark.Action.{Held}
use shmark.Samples.{empty_disk}
use shmark.Server.Listener.{
  Sockets, Wake, waiting, ended, remove_file, bind, accept_loop, on_disk, in_context, remove_stale,
  listen, finish, serve,
}
use shmark.Server.Listener.Accepting.{arrival, Private, serve-Private, serve_stops}

abbrev sockets : Sockets
sockets = record { removable = λ p. true; bindable = λ p. true; new_mode = 0o755 }

abbrev path : Text
path = codes "/d/shmark.sock"

abbrev stale : Held (List ℕ)
stale = record { value = []; disk = record empty_disk { files = (path, []) ∷ [] } }

abbrev last : Wake ℕ
last = record { notified = true; accepted = ok 3 }

listens : (listen sockets path stale).0 ≡ ok tt
unfolding listen on_disk in_context remove_stale remove_file bind set_mode lookup insert remove
listens = refl

serve_stops_example :
    ((serve sockets path (map arrival (1 ∷ 2 ∷ []) ++ last ∷ []) stale).0 ≡ ok (ended (ok tt)))
    × ((serve sockets path (map arrival (1 ∷ 2 ∷ []) ++ last ∷ []) stale).1.value ≡ 1 ∷ 2 ∷ [])
    × (exists path (serve sockets path (map arrival (1 ∷ 2 ∷ []) ++ last ∷ []) stale).1.disk
        ≡ false)
serve_stops_example = serve_stops sockets path (1 ∷ 2 ∷ []) last [] stale listens refl refl

abbrev waits : Held (List ℕ)
waits = (serve sockets path (map arrival (1 ∷ 2 ∷ [])) stale).1

still_waiting : serve sockets path (map arrival (1 ∷ 2 ∷ [])) stale ≡ (ok waiting, waits)
unfolding serve finish accept_loop listen on_disk in_context remove_stale remove_file bind set_mode
    lookup insert remove
still_waiting = refl

serve-Private_example : Private path waits.disk
serve-Private_example =
    serve-Private sockets path (map arrival (1 ∷ 2 ∷ [])) stale waits still_waiting
