-- ===== src/Cli/Client/Examples.antt =====
-- A call of a method that fails.
use shmark.Base.{
  ℕ, Text, codes, ◌≡◌, refl, subst, Option, none, some, [], ◌∷◌, inl, inr, ◌⊎◌, eqb, if◌then◌else◌,
}
use shmark.Errors.{Error, ok, err, message, context, ok-injective}
use shmark.Resolve.{trim, strip_all, strip_any}
use shmark.Server.{
  Request, Response, ok_response, err_response, Api, respond, answer, flatten_chain,
}
use shmark.Cli.Client.{Wire, call, call_with_params}
use shmark.Cli.Client.Calls.{connected, CarriesRequest, CarriesResponse, delivered, call_delivers}

abbrev print : Error → Text
print (message t) = t
print e = codes "error"

abbrev failure : Error
failure = context (codes "read groups") (message (codes "not found"))

-- A request is its method with a mark, a response a mark and its text.
abbrev read_request : Text → Text ⊎ Request Text
read_request [] = inl (codes "no request")
read_request (mark ∷ t) =
    if eqb mark 0x51 then inr (record { method = t; params = [] }) else inl (codes "no request")

abbrev read_response : Text → Option (Response Text)
read_response [] = none
read_response (mark ∷ t) =
    if eqb mark 0x56
    then some (ok_response t)
    else if eqb mark 0x45
    then some (err_response (record { code = codes "internal"; message = t }))
    else none

abbrev write_response : Response Text → Text
write_response (ok_response v) = 0x56 ∷ v
write_response (err_response e) = 0x45 ∷ e.message

abbrev api : Api ℕ Text
api = record {
  display = print;
  from_str = read_request;
  to_string = λ r. some (write_response r);
  dispatch = λ method params n. (err failure, n);
}

abbrev wire : Wire Text
wire = record { to_string = λ r. some (0x51 ∷ r.method); from_str = read_response; null = [] }

carried_request : CarriesRequest wire api (record { method = codes "groups_list"; params = [] })
unfolding trim strip_all strip_any
carried_request = record {
  text = codes "Qgroups_list";
  written = refl;
  read = refl;
  line = record { trimmed = refl; not_blank = refl };
}

abbrev failed : Response Text
failed = err_response (record { code = codes "internal"; message = codes "read groups: not found" })

carried_failed : CarriesResponse wire api failed
unfolding trim strip_all strip_any
carried_failed = record {
  text = codes "Eread groups: not found";
  written = refl;
  read = refl;
  line = record { trimmed = refl; not_blank = refl };
}

carried :
    (resp : Response Text)
    → (respond api carried_request.text 3).0 ≡ ok resp
    → CarriesResponse wire api resp
unfolding respond answer flatten_chain carried_request
carried resp h = subst (λ r. CarriesResponse wire api r) (ok-injective h) carried_failed

call_delivers_example :
    call_with_params wire (connected wire api 3) (codes "/d/shmark.sock") (codes "groups_list") []
    ≡ delivered wire api (err failure)
call_delivers_example =
    call_delivers wire api (codes "/d/shmark.sock") (codes "groups_list") [] 3 carried_request
      carried

called :
    call wire (connected wire api 3) (codes "/d/shmark.sock") (codes "groups_list")
    ≡ delivered wire api (err failure)
unfolding call
called =
    call_delivers wire api (codes "/d/shmark.sock") (codes "groups_list") [] 3 carried_request
      carried
