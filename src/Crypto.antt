-- ===== src/Crypto.antt =====
-- What the code uses of other crates for keys: `hex`, `ed25519_dalek` and the key type of `iroh`,
-- as parameters. A key is its bytes, as `from_bytes` and `to_bytes` have it.
use shmark.Base.{ℕ, Text, length, eqb, ◌≡◌, Bool, true, Option, none, some, if◌then◌else◌}

-- Byte strings have the representation of texts.
abbrev pub Bytes : Type 0
Bytes = Text

-- `hex::encode` and `hex::decode`
pub record Hex : Type 0 where
  pub encode : Bytes → Text
  pub decode : Text → Option Bytes
  pub decode-encode : (b : Bytes) → decode (encode b) ≡ some b

-- `SigningKey` and `VerifyingKey`; `is_key` is the success of `VerifyingKey::from_bytes`.
pub record Ed25519 : Type 0 where
  pub public : Bytes → Bytes
  pub is_key : Bytes → Bool
  pub sign : Bytes → Bytes → Bytes
  pub verify : Bytes → Bytes → Bytes → Bool
  pub length-public : (k : Bytes) → length (public k) ≡ 32
  pub length-sign : (k m : Bytes) → length (sign k m) ≡ 64
  pub public-is_key : (k : Bytes) → is_key (public k) ≡ true
  pub verify-sign : (k m : Bytes) → verify (public k) m (sign k m) ≡ true

-- `try_into` of a byte slice to an array of n bytes
abbrev pub to_array : ℕ → Bytes → Option Bytes
to_array n b = if eqb (length b) n then some b else none
