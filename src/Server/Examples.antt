-- ===== src/Server/Examples.antt =====
-- A connection with a blank line, a request, a failing one and one that does not parse.
use shmark.Base.{
  ℕ, ◌+◌, Bool-cases, Text, codes, ◌==◌, ◌≡◌, refl, some, List, [], ◌∷◌, ◌++◌, map, inl, inr,
  if◌then◌else◌,
}
use shmark.Errors.{Error, ok, err, message, context}
use shmark.Resolve.{trim, strip_all, strip_any}
use shmark.Server.{
  Response, ok_response, err_response, Api, Served, flatten_chain, handle_conn, respond, answer,
}
use shmark.Server.Connections.{
  requests, answers, Sends, Healthy, Answered, handle_conn-Sends, handle_conn_answers_all,
}

abbrev print : Error → Text
print (message t) = t
print e = codes "error"

abbrev failure : Error
failure = context (codes "read groups") (context (codes "open file") (message (codes "not found")))

failure_text : flatten_chain print failure ≡ codes "read groups: open file: not found"
unfolding flatten_chain
failure_text = refl

abbrev print_response : Response Text → Text
print_response (ok_response value) = codes "ok " ++ value
print_response (err_response e) = (codes "err " ++ e.code) ++ (codes ": " ++ e.message)

-- Two methods: `count`, which counts its calls, and the rest, which fails.
abbrev api : Api ℕ Text
api = record {
  display = print;
  from_str = λ t.
      if t == codes "bad"
      then inl (codes "no request")
      else inr (record { method = t; params = [] });
  to_string = λ r. some (print_response r);
  dispatch =
      λ method params n. if method == codes "count" then (ok (n ∷ []), n + 1) else (err failure, n);
}

abbrev fresh : Served ℕ
fresh = record { sent = []; state = 0x30 }

abbrev lines : List Text
lines = codes "count" ∷ codes "  " ∷ codes " bad" ∷ codes "other" ∷ codes "count" ∷ []

all_lines :
    (handle_conn api (λ n. ok tt) (map ok lines) fresh).1.sent
    ≡ (codes "ok 0" ++ 0x0a ∷ [])
      ∷ (codes "err parse_error: no request" ++ 0x0a ∷ [])
      ∷ (codes "err internal: read groups: open file: not found" ++ 0x0a ∷ [])
      ∷ (codes "ok 1" ++ 0x0a ∷ [])
      ∷ []
unfolding handle_conn respond flatten_chain trim strip_all strip_any
all_lines = refl

handle_conn-Sends_example :
    Sends []
      (handle_conn api (λ n. ok tt) (ok (codes "count") ∷ err failure ∷ []) fresh).1.sent
      (answers api (requests (ok (codes "count") ∷ err failure ∷ [])) 0x30)
handle_conn-Sends_example =
    handle_conn-Sends api (λ n. ok tt) (ok (codes "count") ∷ err failure ∷ []) fresh

healthy : Healthy api (λ n. ok tt)
unfolding respond answer
healthy = record {
  accepted = λ n. refl;
  returns = λ req s. elim (Bool-cases (req == codes "bad")) [
    | inl e ↦ rw (respond, e) (_, _, refl, refl)
    | inr e ↦ elim (Bool-cases (req == codes "count")) [
      | inl e' ↦ rw (respond, e, e') (_, _, refl, refl)
      | inr e' ↦ rw (respond, e, e') (_, _, refl, refl)
    ]
  ];
}

handle_conn_answers_all_example :
    Answered api fresh (requests (map ok lines)) (handle_conn api (λ n. ok tt) (map ok lines) fresh)
handle_conn_answers_all_example = handle_conn_answers_all api (λ n. ok tt) lines fresh healthy
