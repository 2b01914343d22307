-- ===== src/Pairing.antt =====
-- crates/shmark-core/src/pairing.rs: the host's one-shot tokens. Times are monotonic clock readings
-- in nanoseconds.
pub mod Tokens
pub mod Code
pub mod Protocol
mod Examples
use shmark.Base.{
  ℕ, ◌-◌, ◌*◌, ◌^◌, Text, ltb, Option, none, some, Bool, false, List, [], ◌∷◌, if◌then◌else◌,
}
use shmark.Maps.{Map, lookup, insert, remove}
use shmark.Crypto.{Bytes, Hex}

abbrev pub token_ttl : ℕ
token_ttl = 5 * 60 * 10 ^ 9

pub record PairingHost : Type 0 where
  pub pending : Map ℕ

unfoldable pub new : PairingHost
new = record { pending = [] }

-- `mint.elapsed() < TOKEN_TTL`
unfoldable pub fresh : ℕ → ℕ → Bool
fresh now mint = ltb (now - mint) token_ttl

-- `HashMap::retain`
retain : (ℕ → Bool) → Map ℕ → Map ℕ
retain keep [] = []
retain keep ((k, v) ∷ m) = let rest = retain keep m in if keep v then (k, v) ∷ rest else rest

-- `bytes` are the 32 bytes of the system's generator.
unfoldable pub mint_token : Hex → Bytes → ℕ → PairingHost → Text × PairingHost
unfolding retain fresh
mint_token hex bytes now s =
    let token = hex.encode bytes in
    (token, record { pending = retain (fresh now) (insert token now s.pending) })

unfoldable pub validate : ℕ → Option ℕ → Bool
validate now none = false
validate now (some mint) = fresh now mint

unfoldable pub validate_and_consume : Text → ℕ → PairingHost → Bool × PairingHost
unfolding validate fresh
validate_and_consume token now s =
    (validate now (lookup token s.pending), record { pending = remove token s.pending })
