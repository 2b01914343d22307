-- ===== src/Server/Connections.antt =====
-- One answer for each request, in order.
use shmark.Base.{
  ℕ, suc, Text, ◌++◌, ◌≡◌, refl, sym, ap, ◌∙◌, none, some, false, List, [], ◌∷◌, map, inl, inr,
  is_empty, length, take, if◌then◌else◌, Option-cases, Bool-cases,
}
use shmark.Errors.{Result, ok, err, panic, Result-cases}
use shmark.Resolve.{trim}
use mathlib.Core.List.{append_assoc, append-nil}
use shmark.Server.{Response, Api, Served, respond, write_line, handle_conn}

-- The requests in what is read, up to the end of the stream or the first read that fails.
pub requests : List (Result Text) → List Text
requests [] = []
requests (err e ∷ lines) = []
requests (panic ∷ lines) = []
requests (ok line ∷ lines) =
    let rest = requests lines in
    if is_empty line then [] else if is_empty (trim line) then rest else trim line ∷ rest

requests_asked :
    (line : Text) (lines : List (Result Text))
    → is_empty line ≡ false
    → is_empty (trim line) ≡ false
    → requests (ok line ∷ lines) ≡ trim line ∷ requests lines
unfolding requests
requests_asked line lines e e' = rw (e, e')

-- What is sent is a part of the answers, from the first on.
pub record Sends (before after all : List Text) : Type 0 where
  pub count : ℕ
  pub lines : after ≡ before ++ take count all

Sends-none : (sent all : List Text) → Sends sent sent all
Sends-none sent all = record { count = 0; lines = sym (append-nil sent) }

Sends-one :
    (sent after all : List Text) (x : Text)
    → Sends (sent ++ x ∷ []) after all
    → Sends sent after (x ∷ all)
Sends-one sent after all x h = record {
  count = suc h.count;
  lines = h.lines ∙ append_assoc sent (x ∷ []) (take h.count all);
}

module _ {S Value : Type 0} (api : Api S Value) where
  -- The answers to the requests of a client, each given in the state that the one before it left. A
  -- request whose method panics, or whose response does not serialize, gets none, and is the last.
  pub answers : List Text → S → List Text
  answers [] s = []
  answers (req ∷ reqs) s =
      let (resp, t) = respond api req s in
      let rest = answers reqs t in
      elim resp [
        | ok r ↦ elim (api.to_string r) [ none ↦ [] | some buf ↦ (buf ++ 0x0a ∷ []) ∷ rest ]
        | err e ↦ []
        | panic ↦ []
      ]

  -- The round of the loop for a request.
  asked :
      (ℕ → Result (Unit {0})) → Text → List (Result Text) → Served S → Result (Unit {0}) × Served S
  asked accepts req lines c =
      let (resp, t) = respond api req c.state in
      elim (write_line api accepts resp c.sent) [
        | ok sent ↦ handle_conn api accepts lines (record { sent = sent; state = t })
        | err e ↦ (err e, record c { state = t })
        | panic ↦ (panic, record c { state = t })
      ]

  handle_conn_asked :
      (accepts : ℕ → Result (Unit {0})) (line : Text) (lines : List (Result Text)) (c : Served S)
      → is_empty line ≡ false
      → is_empty (trim line) ≡ false
      → handle_conn api accepts (ok line ∷ lines) c ≡ asked accepts (trim line) lines c
  unfolding handle_conn asked
  handle_conn_asked accepts line lines c e e' = rw (e, e')

  -- The state after a response was sent.
  abbrev answered : Text → Text → Served S → Served S
  answered req buf c = record {
    sent = c.sent ++ (buf ++ 0x0a ∷ []) ∷ [];
    state = (respond api req c.state).1;
  }

  asked-Sends :
      (accepts : ℕ → Result (Unit {0})) (req : Text) (lines : List (Result Text)) (c : Served S)
      → ((d : Served S)
          → Sends d.sent
              (handle_conn api accepts lines d).1.sent
              (answers (requests lines) d.state))
      → Sends c.sent (asked accepts req lines c).1.sent (answers (req ∷ requests lines) c.state)
  unfolding asked answers write_line
  asked-Sends accepts req lines c later = elim (Result-cases (respond api req c.state).0) [
    | inl (r, got) ↦ elim (Option-cases (api.to_string r)) [
      | inl lost ↦ rw (asked, answers, got, lost) (Sends-none c.sent [])
      | inr (buf, put) ↦ elim (Result-cases (accepts (length c.sent))) [
        | inl (u, out) ↦
            rw (asked, answers, got, put, out) (Sends-one c.sent _ _ _ (later (answered req buf c)))
        | inr (inl (y, out)) ↦ rw (asked, answers, got, put, out) (Sends-none c.sent _)
        | inr (inr out) ↦ rw (asked, answers, got, put, out) (Sends-none c.sent _)
      ]
    ]
    | inr (inl (y, got)) ↦ rw (asked, answers, got) (Sends-none c.sent [])
    | inr (inr got) ↦ rw (asked, answers, got) (Sends-none c.sent [])
  ]

  -- Whatever is read, and whatever reads, methods, serialization and writes fail or panic: the lines
  -- that a connection sent are the answers to its requests, in their order and from the first on,
  -- without a gap, each given in the state that the requests before it left.
  pub handle_conn-Sends :
      (accepts : ℕ → Result (Unit {0})) (lines : List (Result Text)) (c : Served S)
      → Sends c.sent (handle_conn api accepts lines c).1.sent (answers (requests lines) c.state)
  unfolding handle_conn requests answers
  handle_conn-Sends accepts [] c = Sends-none c.sent []
  handle_conn-Sends accepts (err e ∷ lines) c = Sends-none c.sent []
  handle_conn-Sends accepts (panic ∷ lines) c = Sends-none c.sent []
  handle_conn-Sends accepts (ok line ∷ lines) c = elim (Bool-cases (is_empty line)) [
    | inl e ↦ rw e (Sends-none c.sent [])
    | inr e ↦ elim (Bool-cases (is_empty (trim line))) [
      | inl e' ↦ rw (e, e') (handle_conn-Sends accepts lines c)
      | inr e' ↦ rw (handle_conn_asked accepts line lines c e e') (
          rw (requests_asked line lines e e')
            (asked-Sends accepts (trim line) lines c (handle_conn-Sends accepts lines)))
    ]
  ]

  -- A client and methods with which nothing fails: each method returns a value or an error, each
  -- response serializes, and each write is taken.
  pub record Healthy (accepts : ℕ → Result (Unit {0})) : Type 0 where
    pub accepted : (n : ℕ) → accepts n ≡ ok tt
    pub returns :
        (req : Text) (s : S)
        → (r : Response Value) × (buf : Text) × ((respond api req s).0 ≡ ok r)
          × (api.to_string r ≡ some buf)

  -- What the end of a connection that answered everything is.
  abbrev pub Answered : Served S → List Text → Result (Unit {0}) × Served S → Type 0
  Answered c reqs end =
      (end.0 ≡ ok tt)
      × (end.1.sent ≡ c.sent ++ answers reqs c.state)
      × (length (answers reqs c.state) ≡ length reqs)

  asked-Answered :
      (accepts : ℕ → Result (Unit {0})) (req : Text) (lines : List (Result Text)) (c : Served S)
      → Healthy accepts
      → ((d : Served S) → Answered d (requests lines) (handle_conn api accepts lines d))
      → Answered c (req ∷ requests lines) (asked accepts req lines c)
  unfolding asked answers write_line
  asked-Answered accepts req lines c h later =
      let (r, buf, got, put) = h.returns req c.state in
      let (ends, sent, count) = later (answered req buf c) in
      rw (asked, answers, got, put, h.accepted (length c.sent))
        (ends, sent ∙ append_assoc c.sent _ _, ap suc count)

  -- If nothing fails, a connection ends without an error, and the client was sent the answers to all
  -- its requests, one line for each, in order.
  pub handle_conn_answers_all :
      (accepts : ℕ → Result (Unit {0})) (lines : List Text) (c : Served S)
      → Healthy accepts
      → Answered c (requests (map ok lines)) (handle_conn api accepts (map ok lines) c)
  unfolding handle_conn requests answers
  handle_conn_answers_all accepts [] c h = (refl, sym (append-nil c.sent), refl)
  handle_conn_answers_all accepts (line ∷ lines) c h = elim (Bool-cases (is_empty line)) [
    | inl e ↦ rw e (refl, sym (append-nil c.sent), refl)
    | inr e ↦ elim (Bool-cases (is_empty (trim line))) [
      | inl e' ↦ rw (e, e') (handle_conn_answers_all accepts lines c h)
      | inr e' ↦ rw (handle_conn_asked accepts line (map ok lines) c e e') (
          rw (requests_asked line (map ok lines) e e') (
            asked-Answered accepts (trim line) (map ok lines) c h
              (λ d. handle_conn_answers_all accepts lines d h)))
    ]
  ]
