-- ===== src/Desktop/Examples.antt =====
-- A reload of the shell, a change of the hotkey, and one that is missed.
use shmark.Base.{ℕ, codes, ◌≡◌, refl, true, false, [], ◌∷◌, arith}
use mathlib.Core.List.{Memᴰ}
use shmark.Errors.{message, ok, err}
use shmark.Desktop.{
  waiting, booting, swapped, stopping, Shell, initial, ask, asked, managed_swapped,
  current_replaced, node_stopped, register_hotkey, unregister_hotkey, hotkey_round, waits, woken,
  registers, Watcher, watch_from, notified, set_hotkey, told, read, round_done, rpc, failure,
  claim_socket,
}
use shmark.Server.{flatten_chain}
use shmark.Desktop.Reloads
use shmark.Desktop.Reloads.{
  Reachable, next, IsConsistent, reachable-IsConsistent, socket_left_behind,
}
use shmark.Desktop.Hotkeys
use shmark.Desktop.Hotkeys.{IsTracked, hotkeys-IsTracked}

abbrev initial_shell : Shell
initial_shell = record {
  boots = 0;
  current = 0;
  managed = 0;
  serving = 0;
  phase = waiting;
  down = [];
}

abbrev once : Shell
once = record { boots = 1; current = 1; managed = 1; serving = 0; phase = waiting; down = 0 ∷ [] }

abbrev once_booting : Shell
once_booting = record initial_shell { phase = booting }

abbrev once_swapped : Shell
once_swapped = record initial_shell { boots = 1; managed = 1; phase = swapped }

abbrev once_stopping : Shell
once_stopping = record once_swapped { current = 1; phase = stopping 0 }

first_asked : Reachable once_booting
unfolding initial ask
first_asked = next initial_shell once_booting Reloads.start (asked initial_shell 0)

once-Reachable : Reachable once
once-Reachable =
    next once_stopping once
      (next once_swapped once_stopping
        (next once_booting once_swapped first_asked (managed_swapped once_booting refl))
        (current_replaced once_swapped refl))
      (node_stopped once_stopping 0 refl)

reachable-IsConsistent_example : IsConsistent once
reachable-IsConsistent_example = reachable-IsConsistent once once-Reachable

socket_left_behind_example :
    (ask once.serving once ≡ once)
    × Memᴰ once.serving once.down
    × (ask once.managed once ≡ record once { phase = booting })
socket_left_behind_example = socket_left_behind once once-Reachable (ground arith) refl

-- A hotkey that is set, and whose notification comes while the watcher waits.
abbrev F1 : Watcher
F1 = record {
  setting = codes "F1";
  keys = record { last = codes "F1"; registered = codes "F1" ∷ [] };
  at = registers (codes "F1");
  changed = false;
}

abbrev idle : Watcher
idle = record F1 { at = waits }

abbrev set_F2 : Watcher
set_F2 = record idle { setting = codes "F2"; changed = true }

abbrev F2 : Watcher
F2 = record {
  setting = codes "F2";
  keys = record { last = codes "F2"; registered = codes "F2" ∷ [] };
  at = waits;
  changed = false;
}

idle-Reachable : Hotkeys.Reachable (codes "F1") idle
unfolding watch_from hotkey_round register_hotkey
idle-Reachable = Hotkeys.next F1 idle Hotkeys.start (round_done F1 (codes "F1") refl)

set_F2-Reachable : Hotkeys.Reachable (codes "F1") set_F2
set_F2-Reachable = Hotkeys.next idle set_F2 idle-Reachable (set_hotkey idle (codes "F2"))

F2-Reachable : Hotkeys.Reachable (codes "F1") F2
unfolding notified hotkey_round register_hotkey unregister_hotkey
F2-Reachable =
    Hotkeys.next (record set_F2 { at = registers (codes "F2"); changed = false }) F2
      (Hotkeys.next (record set_F2 { at = woken })
        (record set_F2 { at = registers (codes "F2"); changed = false })
        (Hotkeys.next set_F2 (record set_F2 { at = woken }) set_F2-Reachable (told set_F2))
        (read (record set_F2 { at = woken }) refl))
      (round_done (record set_F2 { at = registers (codes "F2"); changed = false }) (codes "F2")
        refl)

hotkeys-IsTracked_example : IsTracked F2
hotkeys-IsTracked_example = hotkeys-IsTracked (codes "F1") F2 F2-Reachable

-- A hotkey that is set and notified while the watcher registers one is missed: the watcher waits, and
-- the hotkey of the settings is not registered.
abbrev missed : Watcher
missed = record F1 { setting = codes "F3"; at = waits; changed = true }

missed-Reachable : Hotkeys.Reachable (codes "F1") missed
unfolding watch_from notified hotkey_round register_hotkey
missed-Reachable =
    let set_F3 = record F1 { setting = codes "F3"; changed = true } in
    Hotkeys.next set_F3 missed
      (Hotkeys.next set_F3 set_F3
        (Hotkeys.next F1 set_F3 Hotkeys.start (set_hotkey F1 (codes "F3"))) (told set_F3))
      (round_done set_F3 (codes "F1") refl)

taken : claim_socket (codes "s") true false ≡ ok true
unfolding claim_socket
taken = refl

failed : rpc {Value = ℕ} (λ e. codes "gone") (err (message [])) ≡ failure (codes "gone")
unfolding rpc flatten_chain
failed = refl
