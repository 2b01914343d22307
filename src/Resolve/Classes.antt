-- ===== src/Resolve/Classes.antt =====
-- The classes that `resolve` sorts the clipboard into, and what each carries.
use shmark.Base.{
  ◌≤◌, Text, codes, ◌≡◌, ◌≢◌, ◌⊎◌, none, some, true, false, not, List, [], ◌∷◌, ◌++◌, length, take,
  IsSorted, starts_with, ◌||◌, strip_prefix, contains, or_else,
}
use mathlib.Core.List.{Perm}
use shmark.Paths.{slash}
use shmark.Resolve.{
  Candidate, Resolution, empty, unsupported, url, path, candidates, not_found, FileSystem,
  newest_first, trim, looks_like_path, expand_direct, candidate_from,
}
use shmark.Resolve.Searching.{hits_below}

module _ (fs : FileSystem) (raw : Text) (roots : List Text) where
  -- The trimmed text without a leading `file://`.
  abbrev pub as_path : Text
  as_path = or_else (trim raw) (strip_prefix (codes "file://") (trim raw))

  -- All files below the roots that match.
  pub hits : List Candidate
  hits = hits_below fs as_path (not (contains slash as_path)) roots

  -- Some of a list, in front: what is left out is not newer, and nothing else is in it.
  abbrev pub Newest : List Candidate → List Candidate → Type 0
  Newest cs found =
      (rest : List Candidate) × IsSorted newest_first (cs ++ rest) × Perm (cs ++ rest) found

  -- The text is not blank and not a web address.
  abbrev pub Unclassified : Type 0
  Unclassified =
      (trim raw ≢ [])
      × (starts_with (codes "http://") (trim raw) ≡ false)
      × (starts_with (codes "https://") (trim raw) ≡ false)

  -- It names nothing directly that is there, so that the roots are searched.
  abbrev pub Searches : Type 0
  Searches = Unclassified × ((p : Text) → expand_direct fs as_path ≡ some p → fs.exists p ≡ false)

  -- It names something directly.
  abbrev pub Names : Text → Type 0
  Names p = Unclassified × (expand_direct fs as_path ≡ some p) × (fs.exists p ≡ true)

  -- What each result says about the text and the file system. The results exclude each other, but for
  -- a path that is named directly and one that is the only hit.
  pub Explains : Resolution → Type 0
  Explains empty = trim raw ≡ []
  Explains (unsupported t) =
      Searches × (t ≡ trim raw) × (hits ≡ []) × (looks_like_path as_path ≡ false)
  Explains (url u) =
      (u ≡ trim raw)
      × ((starts_with (codes "http://") u || starts_with (codes "https://") u) ≡ true)
  Explains (path c) =
      ((p : Text) × Names p × (candidate_from fs p ≡ some c)) ⊎ (Searches × (hits ≡ c ∷ []))
  Explains (candidates cs) = Searches × (2 ≤ length cs) × (length cs ≤ 5) × Newest cs (take 50 hits)
  Explains (not_found q rs) =
      (Searches × (q ≡ as_path) × (rs ≡ roots) × (hits ≡ []) × (looks_like_path as_path ≡ true))
      ⊎ (Names q × (rs ≡ []) × (candidate_from fs q ≡ none))
