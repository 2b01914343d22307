-- ===== src/Dispatch/Methods/Served.antt =====
-- The methods behind the socket: `dispatch` as what `handle_conn` calls.
use shmark.Base.{ℕ, Text, Option, List, ◌⊎◌}
use shmark.Errors.{Error, Result}
use shmark.Server.{Request, Response, Api, Served, handle_conn}
use shmark.Server.Invariants.{kept-handle_conn}
use shmark.Dispatch.Preserved.{IsValidState}
use shmark.Dispatch.Methods.{Daemon, Service}
use shmark.Dispatch.Methods.Table.{dispatch}
use shmark.Dispatch.Methods.Calls.{dispatch-IsValid}

-- `Request` from its line, and the line of a `Response`.
pub record Lines (Value : Type 0) : Type 0 where
  pub display : Error → Text
  pub from_str : Text → Text ⊎ Request Value
  pub to_string : Response Value → Option Text

abbrev pub api : {S Value : Type 0} → Lines Value → Daemon S Value → Api (Service S) Value
api l d = record {
  display = l.display;
  from_str = l.from_str;
  to_string = l.to_string;
  dispatch = dispatch d;
}

module _ {S Value : Type 0} (l : Lines Value) (d : Daemon S Value) where
  -- Whatever a client sends over a connection, in whatever order, and whether reads, writes, methods
  -- and the disk fail or not: a daemon whose index of groups and contact book are valid keeps them
  -- valid.
  pub served-IsValid :
      (accepts : ℕ → Result (Unit {0})) (lines : List (Result Text)) (c : Served (Service S))
      → IsValidState c.state.app.value
      → IsValidState (handle_conn (api l d) accepts lines c).1.state.app.value
  served-IsValid accepts lines c valid =
      kept-handle_conn (api l d) (λ s. IsValidState s.app.value)
        (λ method params s. dispatch-IsValid d method params s) accepts lines c valid
