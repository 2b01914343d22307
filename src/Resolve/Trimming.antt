-- ===== src/Resolve/Trimming.antt =====
-- Trimming ends: the length of the text is enough fuel.
use shmark.Base.{
  ℕ, zero, suc, ◌≤◌, ◌<◌, Text, ◌≡◌, none, some, List, [], ◌∷◌, length, length-append, All, arith,
  ◌∙◌, strip_prefix, strip_prefix_sound, Option-cases, inl, inr, refl, leb, all, Bool, true,
}
use shmark.Resolve.{spaces, strip_any, strip_all}

abbrev IsLong : Text → Type 0
IsLong p = 1 ≤ length p

shorter-strip_prefix :
    (p s rest : Text) → IsLong p → strip_prefix p s ≡ some rest → length rest < length s
shorter-strip_prefix p s rest long h =
    rw (strip_prefix_sound p s rest h, length-append p rest) (omega (arith, long))

shorter-strip_any :
    (ps : List Text) (s rest : Text)
    → All IsLong ps
    → strip_any ps s ≡ some rest
    → length rest < length s
unfolding strip_any
shorter-strip_any [] s rest long h = cc
shorter-strip_any (p ∷ ps) s rest long h = elim (Option-cases (strip_prefix p s)) [
  | inl e ↦ shorter-strip_any ps s rest long.1 (rw (e, strip_any) at h)
  | inr (t, e) ↦ shorter-strip_prefix p s rest long.0 (e ∙ (rw (e, strip_any) at h))
]

-- If the prefixes are not empty, what is left after stripping with at least as much fuel as the text
-- is long begins with none of them.
pub strip_all-done :
    (n : ℕ) (ps : List Text) (s : Text)
    → All IsLong ps
    → length s ≤ n
    → strip_any ps (strip_all n ps s) ≡ none
unfolding strip_all
strip_all-done zero ps s long h = elim (Option-cases (strip_any ps s)) [
  | inl e ↦ e
  | inr (rest, e) ↦ absurd (omega (arith, shorter-strip_any ps s rest long e, h))
]
strip_all-done (suc n) ps s long h = elim (Option-cases (strip_any ps s)) [
  | inl e ↦ rw (e, strip_all) e
  | inr (rest, e) ↦
      rw (e, strip_all)
        (strip_all-done n ps rest long (omega (arith, shorter-strip_any ps s rest long e, h)))
]

all_long : List Text → Bool
all_long = all (λ p. leb 1 (length p))

All-all_long : (ps : List Text) → all_long ps ≡ true → All IsLong ps
unfolding all_long
All-all_long [] h = tt
All-all_long (p ∷ ps) h = (ground arith, All-all_long ps (ground arith))

-- The front of a text is trimmed in as many rounds as it has bytes.
pub strip_all-spaces : (s : Text) → strip_any spaces (strip_all (length s) spaces s) ≡ none
unfolding all_long
strip_all-spaces s = strip_all-done (length s) spaces s (All-all_long spaces refl) (omega arith)
