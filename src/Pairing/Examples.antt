-- ===== src/Pairing/Examples.antt =====
-- A token's life, and a pairing code.
use shmark.Base.{Text, codes, ◌≡◌, refl, List, [], ◌∷◌, ◌++◌, arith}
use shmark.Errors.{ok}
use shmark.Samples.{plain_hex, plain_base64, code_postcard}
use shmark.Pairing.{validate_and_consume}
use shmark.Pairing.Tokens.{Event, minted, tried, after, is_good, validate_exact}
use shmark.Pairing.Code
use shmark.Pairing.Code.{PairCode, decode-encode}

abbrev token : Text
token = codes "token"

abbrev history : List Event
history = tried token 4 ∷ minted token 3 ∷ minted (codes "other") 1 ∷ []

validate_exact_example :
    (validate_and_consume (codes "other") 5 (after plain_hex history)).0
    ≡ is_good plain_hex (codes "other") 5 history
validate_exact_example =
    validate_exact plain_hex history (codes "other") 5
      (omega arith, (omega arith, (omega arith, tt))) (omega arith)

abbrev pair_code : PairCode
pair_code = record { addr = codes "addr"; token = token }

abbrev written_code : Text
written_code = codes "shpair-" ++ ((4 ∷ codes "addr") ++ (5 ∷ token))

code_written : Code.encode code_postcard plain_base64 pair_code ≡ ok written_code
unfolding Code.encode
code_written = refl

decode-encode_example : Code.decode code_postcard plain_base64 written_code ≡ ok pair_code
decode-encode_example = decode-encode code_postcard plain_base64 pair_code written_code code_written
