-- ===== src/Pairing/Code.antt =====
-- The pairing code of crates/shmark-core/src/pairing.rs, its text form and back.
use shmark.Base.{Text, codes, ◌++◌, ◌≡◌, Option, some, strip_prefix, Option-cases, inl, inr}
use shmark.Errors.{
  Result, ok, message, foreign, ok_or, with_context, ◌>>=◌, err-ne-ok, ok-injective,
}
use shmark.Json.{Json}
use shmark.Crypto.{Bytes}

-- `addr` is the serialized `EndpointAddr`.
pub record PairCode : Type 0 where
  pub addr : Bytes
  pub token : Text

-- `base64` with the URL-safe alphabet and no padding
pub record Base64 : Type 0 where
  pub encode : Bytes → Text
  pub decode : Text → Option Bytes
  pub decode-encode : (b : Bytes) → decode (encode b) ≡ some b

module _ (postcard : Json PairCode) (base64 : Base64) where
  unfoldable pub encode : PairCode → Result Text
  encode c =
      ok_or foreign (postcard.to_string c) >>= λ bytes. ok (codes "shpair-" ++ base64.encode bytes)

  unfoldable pub decode : Text → Result PairCode
  decode s =
      ok_or (message (codes "not a shmark pairing code (missing shpair- prefix)"))
        (strip_prefix (codes "shpair-") s)
      >>= λ stripped.
          with_context (codes "decode base64 pairing code") (ok_or foreign (base64.decode stripped))
          >>= λ bytes.
              with_context (codes "postcard decode pairing code")
                (ok_or foreign (postcard.from_str bytes))

  -- A code that was made decodes to the address and the token that it was made of.
  pub decode-encode : (c : PairCode) (s : Text) → encode c ≡ ok s → decode s ≡ ok c
  unfolding encode decode
  decode-encode c s h = elim (Option-cases (postcard.to_string c)) [
    | inl failed ↦ absurd (err-ne-ok (rw failed at h))
    | inr (bytes, made) ↦
        let same : codes "shpair-" ++ base64.encode bytes ≡ s = ok-injective (rw made at h) in
        rw (← same) (rw (base64.decode-encode bytes, postcard.from_str-to_string c bytes made))
  ]
