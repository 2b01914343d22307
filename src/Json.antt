-- ===== src/Json.antt =====
-- `serde_json` with the derived `Serialize` and `Deserialize` of one type, which the build
-- generates: a parameter of the model. The law is that a value which was written can be read back.
use shmark.Base.{Text, ◌≡◌, Option, some}

pub record Json {ℓ} (A : Type ℓ) : Type ℓ where
  pub to_string : A → Option Text
  pub from_str : Text → Option A
  pub from_str-to_string : (a : A) (t : Text) → to_string a ≡ some t → from_str t ≡ some a
