-- ===== src/Cli/Client/Calls.antt =====
-- A call of the client, answered by the server of the daemon.
use shmark.Base.{
  Text, codes, ◌≡◌, refl, ◌∙◌, ap, false, List, [], ◌∷◌, ◌++◌, some, inl, inr, is_empty,
}
use shmark.Errors.{Result, ok, err, panic, message, Result-cases}
use shmark.Resolve.{trim}
use shmark.Server.{
  Request, Response, ok_response, err_response, Api, chain, flatten_chain, answer, respond,
  write_line, handle_conn,
}
use shmark.Server.Chains.{joined, flatten_chain_exact}
use shmark.Cli.Client.{Stream, Wire, outcome, call_with_params}

-- What `read_line` gives of the lines that were sent.
abbrev first_line : List Text → Result Text
first_line [] = ok []
first_line (line ∷ lines) = ok line

-- A message in one line without blanks at its ends, as `serde_json` writes it.
pub record OneLine (text : Text) : Type 0 where
  pub trimmed : trim (text ++ 0x0a ∷ []) ≡ text
  pub not_blank : is_empty text ≡ false

not_empty : (text : Text) → is_empty (text ++ 0x0a ∷ []) ≡ false
not_empty [] = refl
not_empty (c ∷ text) = refl

module _ {S Value : Type 0} (wire : Wire Value) (api : Api S Value) where
  -- A connection to a daemon in the state `s`, on which nothing fails.
  abbrev pub connected : S → Stream
  connected s = record {
    connect = λ path. ok tt;
    write_all = λ buf. ok tt;
    shutdown = ok tt;
    read_line = λ buf.
        first_line
          (handle_conn api (λ n. ok tt) (ok buf ∷ []) (record { sent = []; state = s })).1.sent;
  }

  -- A request that the server reads as the client wrote it, and a response the other way round.
  pub record CarriesRequest (req : Request Value) : Type 0 where
    pub text : Text
    pub written : wire.to_string req ≡ some text
    pub read : api.from_str text ≡ inr req
    pub line : OneLine text

  pub record CarriesResponse (resp : Response Value) : Type 0 where
    pub text : Text
    pub written : api.to_string resp ≡ some text
    pub read : wire.from_str text ≡ some resp
    pub line : OneLine text

  -- What the caller of a method gets for what the method returned.
  pub delivered : Result Value → Result Value
  delivered (ok value) = ok value
  delivered (err e) = err (message (codes "internal: " ++ joined (chain api.display e)))
  delivered panic = err (message (codes "daemon closed the connection without responding"))

  module _ (path method : Text) (params : Value) (s : S)
      (c : CarriesRequest (record { method = method; params = params })) where
    -- The one line that the server sends.
    replies :
        (resp : Response Value) (r : CarriesResponse resp)
        → (respond api c.text s).0 ≡ ok resp
        → (connected s).read_line (c.text ++ 0x0a ∷ []) ≡ ok (r.text ++ 0x0a ∷ [])
    unfolding handle_conn write_line
    replies resp r got =
        rw (not_empty c.text, c.line.trimmed, c.line.not_blank) (rw (got, r.written) refl)

    hangs_up :
        (respond api c.text s).0 ≡ panic → (connected s).read_line (c.text ++ 0x0a ∷ []) ≡ ok []
    unfolding handle_conn write_line
    hangs_up got = rw (not_empty c.text, c.line.trimmed, c.line.not_blank) (rw got refl)

    receives :
        (resp : Response Value) (r : CarriesResponse resp)
        → (respond api c.text s).0 ≡ ok resp
        → call_with_params wire (connected s) path method params ≡ outcome wire (connected s) resp
    unfolding call_with_params
    receives resp r got =
        rw (c.written, replies resp r got, not_empty r.text, r.line.trimmed, r.read)

    receives_none :
        (respond api c.text s).0 ≡ panic
        → call_with_params wire (connected s) path method params
          ≡ err (message (codes "daemon closed the connection without responding"))
    unfolding call_with_params
    receives_none got = rw (c.written, hangs_up got)

    -- A call over a connection on which nothing fails, with a request and a response that are each
    -- carried in one line, gives the client the value that the method returned; for an error of the
    -- method a message with the text of every cause; and for a panic that the connection was closed.
    pub call_delivers :
        ((resp : Response Value) → (respond api c.text s).0 ≡ ok resp → CarriesResponse resp)
        → call_with_params wire (connected s) path method params
          ≡ delivered (api.dispatch method params s).0
    unfolding delivered outcome respond answer
    call_delivers carried = elim (Result-cases (api.dispatch method params s).0) [
      | inl (v, e) ↦
          let got : (respond api c.text s).0 ≡ ok (ok_response v) = rw (respond, c.read, e) refl in
          receives (ok_response v) (carried (ok_response v) got) got ∙ rw (delivered, e) refl
      | inr (inl (x, e)) ↦
          let resp : Response Value =
            err_response
              (record { code = codes "internal"; message = flatten_chain api.display x }) in
          let got : (respond api c.text s).0 ≡ ok resp = rw (respond, c.read, e) refl in
          receives resp (carried resp got) got
          ∙ rw (delivered, e)
              (ap (λ t. err (message (codes "internal: " ++ t)))
                (flatten_chain_exact api.display x))
      | inr (inr e) ↦ receives_none (rw (respond, c.read, e) refl) ∙ rw (delivered, e) refl
    ]
