-- ===== src/Server.antt =====
-- crates/shmark-api/src/server.rs and protocol.rs: what the daemon answers on a connection, and the
-- loop that accepts connections.
pub mod Chains
pub mod Connections
pub mod Invariants
pub mod Listener
mod Examples
use shmark.Base.{
  ℕ, Text, codes, ◌++◌, Option, none, some, Bool, List, [], ◌∷◌, ◌⊎◌, inl, inr, is_empty, length,
  drop, if◌then◌else◌,
}
use shmark.Errors.{Error, Result, ok, err, panic, serde, context}
use shmark.Resolve.{trim}

-- `Request` of protocol.rs. `Value` is the type of JSON values of `serde_json`.
pub record Request (Value : Type 0) : Type 0 where
  pub method : Text
  pub params : Value

-- `ApiError`
pub record ApiError : Type 0 where
  pub code : Text
  pub message : Text

-- `Response`, with `Response::ok` and `Response::err`
pub data Response (Value : Type 0) : Type 0 where
  ok_response : Value → Response Value
  err_response : ApiError → Response Value

-- The causes of an error, the outermost first. `display` prints a cause that adds no context.
unfoldable pub chain : (Error → Text) → Error → List Text
chain display (context t e) = t ∷ chain display e
chain display e = display e ∷ []

-- `format!("{e}")`
unfoldable pub show : (Error → Text) → Error → Text
show display (context t e) = t
show display e = display e

unfoldable pub push_causes : Text → List Text → Text
push_causes msg [] = msg
push_causes msg (cause ∷ causes) = push_causes (msg ++ (codes ": " ++ cause)) causes

unfoldable pub flatten_chain : (Error → Text) → Error → Text
unfolding push_causes show chain
flatten_chain display e = push_causes (show display e) (drop 1 (chain display e))

-- What the server uses of other code: how errors are printed, `serde_json` for requests (with the
-- text of its error on the left) and responses, and the methods, over the state `S` of the daemon.
pub record Api (S Value : Type 0) : Type 0 where
  pub display : Error → Text
  pub from_str : Text → Text ⊎ Request Value
  pub to_string : Response Value → Option Text
  pub dispatch : Text → Value → S → Result Value × S

-- What a connection has done: the lines that the client was sent, and the state of the daemon.
pub record Served (S : Type 0) : Type 0 where
  pub sent : List Text
  pub state : S

module _ {S Value : Type 0} (api : Api S Value) where
  unfoldable pub answer : Result Value → Result (Response Value)
  answer (ok value) = ok (ok_response value)
  answer (err e) =
      ok (err_response (record { code = codes "internal"; message = flatten_chain api.display e }))
  answer panic = panic

  -- The response to one line.
  unfoldable pub respond : Text → S → Result (Response Value) × S
  unfolding answer flatten_chain
  respond trimmed s = elim (api.from_str trimmed) [
    | inl e ↦ (ok (err_response (record { code = codes "parse_error"; message = e })), s)
    | inr req ↦ let (r, t) = api.dispatch req.method req.params s in (answer r, t)
  ]

  -- `write_all` of the line of a response; `accepts` is what it does after so many responses.
  unfoldable pub write_line :
      (ℕ → Result (Unit {0})) → Result (Response Value) → List Text → Result (List Text)
  write_line accepts (ok resp) sent = elim (api.to_string resp) [
    | none ↦ err serde
    | some buf ↦ elim (accepts (length sent)) [
      | ok _ ↦ ok (sent ++ ((buf ++ 0x0a ∷ []) ∷ []))
      | err e ↦ err e
      | panic ↦ panic
    ]
  ]
  write_line accepts (err e) sent = err e
  write_line accepts panic sent = panic

  -- `handle_conn`. The list is what `read_line` gives, call by call; an empty line is the end of the
  -- stream. A response whose write failed is not among the lines that were sent.
  unfoldable pub handle_conn :
      (ℕ → Result (Unit {0})) → List (Result Text) → Served S → Result (Unit {0}) × Served S
  unfolding respond write_line
  handle_conn accepts [] c = (ok tt, c)
  handle_conn accepts (err e ∷ lines) c = (err e, c)
  handle_conn accepts (panic ∷ lines) c = (panic, c)
  handle_conn accepts (ok line ∷ lines) c =
      let rest = handle_conn accepts lines in
      if is_empty line
      then (ok tt, c)
      else if is_empty (trim line)
      then rest c
      else let (resp, t) = respond (trim line) c.state in
        elim (write_line accepts resp c.sent) [
          | ok sent ↦ rest (record { sent = sent; state = t })
          | err e ↦ (err e, record c { state = t })
          | panic ↦ (panic, record c { state = t })
        ]
