-- ===== src/Cli/Client.antt =====
-- crates/shmark-cli/src/client.rs: one call of a method over the socket.
pub mod Calls
mod Examples
use shmark.Base.{ℕ, Text, codes, ◌++◌, Option, none, some, [], ◌∷◌, is_empty, if◌then◌else◌}
use shmark.Errors.{Result, ok, err, panic, message, serde, ok_or, with_context, ◌>>=◌, ◌>>◌}
use shmark.Resolve.{trim}
use shmark.Server.{Request, ApiError, Response, ok_response, err_response}

-- The connection as the client sees it: the outcome of each call on it, and what `read_line` gives
-- for the bytes that were written. An empty line is the end of the stream.
pub record Stream : Type 0 where
  pub connect : Text → Result (Unit {0})
  pub write_all : Text → Result (Unit {0})
  pub shutdown : Result (Unit {0})
  pub read_line : Text → Result Text

-- `serde_json` for the two messages
pub record Wire (Value : Type 0) : Type 0 where
  pub to_string : Request Value → Option Text
  pub from_str : Text → Option (Response Value)
  pub null : Value

module _ {Value : Type 0} (wire : Wire Value) (stream : Stream) where
  outcome : Response Value → Result Value
  outcome (ok_response value) = ok value
  outcome (err_response e) = err (message ((e.code ++ codes ": ") ++ e.message))

  pub call_with_params : Text → Text → Value → Result Value
  unfolding outcome
  call_with_params socket_path method params =
      with_context
        (codes "connect to daemon socket at " ++ socket_path ++ codes " (is the daemon running?)")
        (stream.connect socket_path)
      >>= λ _.
          ok_or serde (wire.to_string (record { method = method; params = params })) >>= λ json.
          let buf = json ++ 0x0a ∷ [] in
          stream.write_all buf >>= λ _. stream.shutdown >>= λ _. stream.read_line buf >>= λ line.
          if is_empty line
          then err (message (codes "daemon closed the connection without responding"))
          else with_context (codes "parse daemon response: " ++ trim line)
              (ok_or serde (wire.from_str (trim line)))
            >>= outcome

  pub call : Text → Text → Result Value
  unfolding call_with_params
  call socket_path method = call_with_params socket_path method wire.null
