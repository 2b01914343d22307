-- ===== src/Server/Invariants.antt =====
-- What a connection keeps, if the methods keep it.
use shmark.Base.{ℕ, Text, ◌⊎◌, ◌≡◌, refl, List, [], ◌∷◌, inl, inr, is_empty, Bool-cases}
use shmark.Errors.{Result, ok, err, panic, Result-cases}
use shmark.Resolve.{trim}
use shmark.Server.{Api, Served, respond, write_line, handle_conn}

parsed : {A B : Type 0} (x : A ⊎ B) → ((a : A) × (x ≡ inl a)) ⊎ ((b : B) × (x ≡ inr b))
parsed (inl a) = inl (a, refl)
parsed (inr b) = inr (b, refl)

module _ {S Value : Type 0} (api : Api S Value) (Keeps : S → Type 0)
    (kept : (method : Text) (params : Value) (s : S)
      → Keeps s
      → Keeps (api.dispatch method params s).1) where
  kept-respond : (line : Text) (s : S) → Keeps s → Keeps (respond api line s).1
  unfolding respond
  kept-respond line s k = elim (parsed (api.from_str line)) [
    | inl (e, bad) ↦ rw (respond, bad) k
    | inr (req, good) ↦ rw (respond, good) (kept req.method req.params s k)
  ]

  -- Whatever a connection reads, and whether its writes succeed or not.
  pub kept-handle_conn :
      (accepts : ℕ → Result (Unit {0})) (lines : List (Result Text)) (c : Served S)
      → Keeps c.state
      → Keeps (handle_conn api accepts lines c).1.state
  unfolding handle_conn
  kept-handle_conn accepts [] c k = k
  kept-handle_conn accepts (err e ∷ lines) c k = k
  kept-handle_conn accepts (panic ∷ lines) c k = k
  kept-handle_conn accepts (ok line ∷ lines) c k = elim (Bool-cases (is_empty line)) [
    | inl e ↦ rw (handle_conn, e) k
    | inr e ↦ elim (Bool-cases (is_empty (trim line))) [
      | inl e' ↦ rw (handle_conn, e, e') (kept-handle_conn accepts lines c k)
      | inr e' ↦
          let r = respond api (trim line) c.state in
          elim (Result-cases (write_line api accepts r.0 c.sent)) [
            | inl (sent, w) ↦
                rw (handle_conn, e, e', w)
                  (kept-handle_conn accepts lines (record { sent = sent; state = r.1 })
                    (kept-respond (trim line) c.state k))
            | inr (inl (y, w)) ↦ rw (handle_conn, e, e', w) (kept-respond (trim line) c.state k)
            | inr (inr w) ↦ rw (handle_conn, e, e', w) (kept-respond (trim line) c.state k)
          ]
    ]
  ]
