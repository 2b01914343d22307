-- ===== src/Desktop/Hotkeys.antt =====
-- Which hotkey is registered, whatever the settings go through.
use shmark.Base.{
  Text, ◌⊎◌, ◌==◌, eq_refl, eq_sound, sym, subst, ap, ◌∙◌, Bool, ◌≡◌, refl, true, false, List, [],
  ◌∷◌, is_empty, Bool-cases, inl, inr, arith, if◌then◌else◌,
}
use shmark.Desktop.{
  Keys, register_hotkey, unregister_hotkey, hotkey_round, Watching, waits, woken, registers,
  Watcher, watch_from, notified, Watch, set_hotkey, told, read, round_done,
}

-- No hotkey for an empty text.
abbrev pub only : Text → List Text
only h = if is_empty h then [] else h ∷ []

abbrev pub all_accepted : Text → Bool
all_accepted h = true

register_only : (h : Text) → register_hotkey all_accepted h [] ≡ only h
unfolding register_hotkey
register_only h = ground arith

unregister_only : (h : Text) → unregister_hotkey all_accepted h (only h) ≡ []
unfolding unregister_hotkey
unregister_only h = elim (Bool-cases (is_empty h)) [
  | inl e ↦ rw (unregister_hotkey, e) refl
  | inr e ↦ rw (unregister_hotkey, e) (rw (eq_refl h) refl)
]

round_only :
    (h : Text) (k : Keys)
    → k.registered ≡ only k.last
    → hotkey_round all_accepted h k ≡ record { last = h; registered = only h }
unfolding hotkey_round
round_only h k e = elim (Bool-cases (h == k.last)) [
  | inl same ↦
      let last : h ≡ k.last = eq_sound h k.last same in
      rw same (λ i. record { last = sym last i; registered = (e ∙ ap only (sym last)) i })
  | inr other ↦ rw (other, e) (rw (unregister_only k.last, register_only h) refl)
]

-- The states of the watcher from a start with the hotkey `initial` on.
pub data Reachable (initial : Text) : Watcher → Type 0 where
  start : Reachable initial (watch_from all_accepted initial)
  next : (v w : Watcher) → Reachable initial v → Watch all_accepted v w → Reachable initial w

-- What the watcher knows of the settings, by where it stands.
abbrev pub Knows : Watching → Watcher → Type 0
Knows waits v = v.changed ≡ false → v.keys.last ≡ v.setting
Knows woken v = Unit
Knows (registers h) v = v.changed ≡ false → h ≡ v.setting

pub record IsTracked (v : Watcher) : Type 0 where
  pub one : v.keys.registered ≡ only v.keys.last
  pub known : Knows v.at v

start-IsTracked : (h : Text) → IsTracked (watch_from all_accepted h)
unfolding watch_from
start-IsTracked h = record { one = register_only h; known = λ e. refl }

unknown : (p : Watching) (v : Watcher) → v.changed ≡ true → Knows p v
unknown waits v e = λ h. cc
unknown woken v e = tt
unknown (registers h) v e = λ h'. cc

abbrev after : Watcher → Watching → Watcher
after v waits = record v { at = woken }
after v woken = v
after v (registers h) = v

told_lem :
    (p : Watching) (v : Watcher)
    → v.at ≡ p
    → (notified v ≡ v) ⊎ (notified v ≡ record v { at = woken })
unfolding notified
told_lem waits v e = inr (ap (after v) e)
told_lem woken v e = inl (ap (after v) e)
told_lem (registers h) v e = inl (ap (after v) e)

told-IsTracked : (v : Watcher) → IsTracked v → IsTracked (notified v)
told-IsTracked v t = elim (told_lem v.at v refl) [
  | inl e ↦ subst IsTracked (sym e) t
  | inr e ↦ subst IsTracked (sym e) (record { one = t.one; known = tt })
]

done-IsTracked :
    (v : Watcher) (h : Text)
    → v.at ≡ registers h
    → IsTracked v
    → IsTracked (record v { keys = hotkey_round all_accepted h v.keys; at = waits })
done-IsTracked v h e t =
    let knows : Knows (registers h) v = subst (λ p. Knows p v) e t.known in
    subst (λ k. IsTracked (record v { keys = k; at = waits })) (sym (round_only h v.keys t.one))
      (record { one = refl; known = knows })

Watch-IsTracked : (v w : Watcher) → Watch all_accepted v w → IsTracked v → IsTracked w
Watch-IsTracked v w (set_hotkey v' h) t = record {
  one = t.one;
  known = unknown v.at (record v { setting = h; changed = true }) refl;
}
Watch-IsTracked v w (told v') t = told-IsTracked v t
Watch-IsTracked v w (read v' e) t = record { one = t.one; known = λ h. refl }
Watch-IsTracked v w (round_done v' h e) t = done-IsTracked v h e t

-- If the window system takes every registration and every end of one: whatever the settings of the
-- first state go through, and whichever notifications the watcher misses, there is never more than one
-- hotkey registered, and it is the one that the watcher has last registered; an empty one is not. When
-- the watcher waits, and the settings were not changed since it last read them, it is the hotkey of the
-- settings.
pub hotkeys-IsTracked : (initial : Text) (v : Watcher) → Reachable initial v → IsTracked v
hotkeys-IsTracked initial v start = start-IsTracked initial
hotkeys-IsTracked initial v (next u w r s) = Watch-IsTracked u w s (hotkeys-IsTracked initial u r)
