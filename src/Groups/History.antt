-- ===== src/Groups/History.antt =====
-- Sequences of calls of the methods, in which a failed call is not the last.
use shmark.Base.{ℕ, Text, ◌≡◌, false, List, [], ◌∷◌}
use shmark.Errors.{ok}
use shmark.Json.{Json}
use shmark.Action.{Held, Action, ◌>>◌, pure, state_then_pure, done_then_pure}
use shmark.Groups.{LocalGroup, StoredGroups, Groups, upsert, rename, mark_seen, remove_group}
use shmark.Groups.Valid.{
  IsValid, upsert-IsValid, rename-IsValid, mark_seen-IsValid, remove_group-IsValid,
}
use shmark.Groups.Durable.{
  Durable, upsert-Durable, rename-Durable, mark_seen-Durable, remove_group-Durable,
}

pub data Call : Type 0 where
  upsert_call : LocalGroup → Call
  rename_call : Text → Text → Call
  mark_seen_call : Text → ℕ → Call
  remove_call : Text → Call

module _ (json : Json StoredGroups) where
  abbrev pub perform : Call → Action Groups Unit
  perform (upsert_call g) = upsert json g
  perform (rename_call q a) = rename json q a >> pure tt
  perform (mark_seen_call q t) = mark_seen json q t >> pure tt
  perform (remove_call q) = remove_group json q >> pure tt

  abbrev pub run : List Call → Held Groups → Held Groups
  run [] s = s
  run (c ∷ cs) s = run cs (perform c s).1

  perform-IsValid : (c : Call) (s : Held Groups) → IsValid s.value → IsValid (perform c s).1.value
  perform-IsValid (upsert_call g) s v = upsert-IsValid json g s v
  perform-IsValid (rename_call q a) s v =
      rw (state_then_pure (rename json q a) tt s) (rename-IsValid json q a s v)
  perform-IsValid (mark_seen_call q t) s v =
      rw (state_then_pure (mark_seen json q t) tt s) (mark_seen-IsValid json q t s v)
  perform-IsValid (remove_call q) s v =
      rw (state_then_pure (remove_group json q) tt s) (remove_group-IsValid json q s v)

  -- From a valid index, any sequence of calls of the four methods, failed ones included, and
  -- whatever each write does, ends in a valid index.
  pub run-IsValid :
      (calls : List Call) (s : Held Groups) → IsValid s.value → IsValid (run calls s).value
  run-IsValid [] s v = v
  run-IsValid (c ∷ cs) s v = run-IsValid cs (perform c s).1 (perform-IsValid c s v)

  -- If a method succeeds on a valid index whose file can be read, then loading that file gives an
  -- index with the groups that are in memory.
  pub perform-Durable :
      (c : Call) (s : Held Groups)
      → IsValid s.value
      → s.disk.unreadable s.value.state_path ≡ false
      → (perform c s).0 ≡ ok tt
      → Durable json (perform c s).1
  perform-Durable (upsert_call g) s v readable done = upsert-Durable json s v readable g done
  perform-Durable (rename_call q a) s v readable done =
      let (x, there) = done_then_pure (rename json q a) tt s done in
      rw (state_then_pure (rename json q a) tt s) (rename-Durable json s v readable q a x there)
  perform-Durable (mark_seen_call q t) s v readable done =
      let (x, there) = done_then_pure (mark_seen json q t) tt s done in
      rw (state_then_pure (mark_seen json q t) tt s)
        (mark_seen-Durable json s v readable q t x there)
  perform-Durable (remove_call q) s v readable done =
      let (x, there) = done_then_pure (remove_group json q) tt s done in
      rw (state_then_pure (remove_group json q) tt s)
        (remove_group-Durable json s v readable q x there)
