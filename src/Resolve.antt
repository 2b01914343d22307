-- ===== src/Resolve.antt =====
-- crates/shmark-core/src/resolve.rs: what the text of the clipboard stands for.
pub mod Searching
pub mod Matching
pub mod Classes
pub mod Trimming
mod Examples
use shmark.Base.{
  ℕ, zero, suc, ◌-◌, Text, codes, ◌==◌, ◌&&◌, ◌||◌, eqb, leb, ltb, Option, none, some, Bool, true,
  false, not, List, [], ◌∷◌, ◌++◌, filter, length, take, get_elem?, is_empty, sort_by, strip_prefix,
  starts_with, or_else, ends_with, contains, if◌then◌else◌,
}
use mathlib.Core.List.{reverse, map}
use shmark.Paths.{slash, join, file_name, parent}

pub data CandidateKind : Type 0 where
  file : CandidateKind
  dir : CandidateKind

pub record Candidate : Type 0 where
  pub path : Text
  pub parent_dir : Text
  pub size_bytes : ℕ
  pub mtime_secs : ℕ
  pub kind : CandidateKind

pub data Resolution : Type 0 where
  empty : Resolution
  unsupported : (raw : Text) → Resolution
  url : (url : Text) → Resolution
  path : (candidate : Candidate) → Resolution
  candidates : (candidates : List Candidate) → Resolution
  not_found : (query : Text) (roots : List Text) → Resolution

-- `std::fs::Metadata`; `modified` is the time after the epoch, where it is known and not before it.
pub record Metadata : Type 0 where
  pub is_dir : Bool
  pub is_file : Bool
  pub len : ℕ
  pub modified : Option ℕ

-- An entry of a walk; `is_file` is none where the entry has no file type.
pub record Entry : Type 0 where
  pub path : Text
  pub is_file : Option Bool

-- The file system as `resolve` sees it. `walk` is what the walker of the `ignore` crate yields below
-- a root, with none for an error.
pub record FileSystem : Type 0 where
  pub home_dir : Option Text
  pub exists : Text → Bool
  pub metadata : Text → Option Metadata
  pub walk : Text → List (Option Entry)

-- The UTF-8 forms of the characters of Unicode's White_Space.
abbrev pub spaces : List Text
spaces =
    (0x09 ∷ [])
    ∷ (0x0a ∷ [])
    ∷ (0x0b ∷ [])
    ∷ (0x0c ∷ [])
    ∷ (0x0d ∷ [])
    ∷ (0x20 ∷ [])
    ∷ (0xc2 ∷ 0x85 ∷ [])
    ∷ (0xc2 ∷ 0xa0 ∷ [])
    ∷ (0xe1 ∷ 0x9a ∷ 0x80 ∷ [])
    ∷ (0xe2 ∷ 0x80 ∷ 0x80 ∷ [])
    ∷ (0xe2 ∷ 0x80 ∷ 0x81 ∷ [])
    ∷ (0xe2 ∷ 0x80 ∷ 0x82 ∷ [])
    ∷ (0xe2 ∷ 0x80 ∷ 0x83 ∷ [])
    ∷ (0xe2 ∷ 0x80 ∷ 0x84 ∷ [])
    ∷ (0xe2 ∷ 0x80 ∷ 0x85 ∷ [])
    ∷ (0xe2 ∷ 0x80 ∷ 0x86 ∷ [])
    ∷ (0xe2 ∷ 0x80 ∷ 0x87 ∷ [])
    ∷ (0xe2 ∷ 0x80 ∷ 0x88 ∷ [])
    ∷ (0xe2 ∷ 0x80 ∷ 0x89 ∷ [])
    ∷ (0xe2 ∷ 0x80 ∷ 0x8a ∷ [])
    ∷ (0xe2 ∷ 0x80 ∷ 0xa8 ∷ [])
    ∷ (0xe2 ∷ 0x80 ∷ 0xa9 ∷ [])
    ∷ (0xe2 ∷ 0x80 ∷ 0xaf ∷ [])
    ∷ (0xe2 ∷ 0x81 ∷ 0x9f ∷ [])
    ∷ (0xe3 ∷ 0x80 ∷ 0x80 ∷ [])
    ∷ []

unfoldable pub strip_any : List Text → Text → Option Text
strip_any [] s = none
strip_any (p ∷ ps) s = elim (strip_prefix p s) [ none ↦ strip_any ps s | some rest ↦ some rest ]

-- Each round takes at least one byte, so the length of the text is enough fuel.
unfoldable pub strip_all : ℕ → List Text → Text → Text
unfolding strip_any
strip_all zero ps s = s
strip_all (suc n) ps s = elim (strip_any ps s) [ none ↦ s | some rest ↦ strip_all n ps rest ]

-- `str::trim`
unfoldable pub trim : Text → Text
unfolding strip_all
trim s =
    let front = strip_all (length s) spaces s in
    reverse (strip_all (length front) (map reverse spaces) (reverse front))

-- `usize::saturating_sub` is the subtraction of ℕ.
pub matches_query : Text → Text → Bool → Bool
matches_query p query true = elim (file_name p) [ none ↦ false | some name ↦ name == query ]
matches_query p query false =
    ends_with query p
    && (let prefix_len = length p - length query in
        eqb prefix_len 0
        || (elim (get_elem? p (prefix_len - 1)) [ none ↦ false | some c ↦ eqb c slash ]))

-- True for a text that looks like a path.
pub looks_like_path : Text → Bool
looks_like_path s =
    if contains 0x0a s || ltb 1024 (length s) then false else contains slash s || contains 0x2e s

abbrev hard_limit : ℕ
hard_limit = 50

-- The most recent first.
abbrev pub newest_first : Candidate → Candidate → Bool
newest_first a b = leb b.mtime_secs a.mtime_secs

module _ (fs : FileSystem) where
  pub candidate_of : Text → Metadata → CandidateKind → Candidate
  candidate_of p meta kind = record {
    path = p;
    parent_dir = or_else [] (parent p);
    size_bytes = meta.len;
    mtime_secs = or_else 0 meta.modified;
    kind = kind;
  }

  pub candidate_from : Text → Option Candidate
  unfolding candidate_of
  candidate_from p = elim (fs.metadata p) [
    | none ↦ none
    | some meta ↦
        if meta.is_dir
        then some (candidate_of p meta dir)
        else if meta.is_file
        then some (candidate_of p meta file)
        else none
  ]

  pub single : Text → Resolution
  single p = elim (candidate_from p) [ none ↦ not_found p [] | some c ↦ path c ]

  pub expand_direct : Text → Option Text
  expand_direct s = elim (strip_prefix (codes "~/") s) [
    | some rest ↦ (elim fs.home_dir [ none ↦ none | some home ↦ some (join home rest) ])
    | none ↦
        if s == codes "~" then fs.home_dir else if starts_with (codes "/") s then some s else none
  ]

  -- What one entry adds to the hits.
  pub hit : Text → Bool → Option Entry → Option Candidate
  hit query basename_only none = none
  hit query basename_only (some entry) = elim entry.is_file [
    | some true ↦
        if matches_query entry.path query basename_only then candidate_from entry.path else none
    | some false ↦ none
    | none ↦ none
  ]

  -- The loop over the entries of one root, with the hits so far.
  pub walk_root : Text → Bool → ℕ → List (Option Entry) → List Candidate → List Candidate
  unfolding hit
  walk_root query basename_only limit [] out = out
  walk_root query basename_only limit (entry ∷ entries) out =
      if leb limit (length out) then out else elim (hit query basename_only entry) [
        | none ↦ walk_root query basename_only limit entries out
        | some c ↦ walk_root query basename_only limit entries (out ++ c ∷ [])
      ]

  pub walk_roots : Text → Bool → ℕ → List Text → List Candidate → List Candidate
  walk_roots query basename_only limit [] out = out
  walk_roots query basename_only limit (root ∷ roots) out =
      if fs.exists root
      then walk_roots query basename_only limit roots
          (walk_root query basename_only limit (fs.walk root) out)
      else walk_roots query basename_only limit roots out

  pub search : Text → List Text → ℕ → List Candidate
  search query roots limit = walk_roots query (not (contains slash query)) limit roots []

  -- The end of `resolve`, from the hits on.
  outcome : Text → Text → List Text → List Candidate → Resolution
  outcome trimmed as_path roots [] =
      if not (looks_like_path as_path) then unsupported trimmed else not_found as_path roots
  outcome trimmed as_path roots (c ∷ []) = path c
  outcome trimmed as_path roots (c ∷ d ∷ rest) = candidates (c ∷ d ∷ rest)

  searched : Text → Text → List Text → Resolution
  unfolding outcome
  searched trimmed as_path roots =
      outcome trimmed as_path roots
        (take 5 (sort_by newest_first (search as_path roots hard_limit)))

  unfoldable pub resolve : Text → List Text → Resolution
  unfolding searched
  resolve raw roots =
      let trimmed = trim raw in
      if is_empty trimmed
      then empty
      else if starts_with (codes "http://") trimmed || starts_with (codes "https://") trimmed
      then url trimmed
      else (let as_path = or_else trimmed (strip_prefix (codes "file://") trimmed) in
          elim (expand_direct as_path) [
            | none ↦ searched trimmed as_path roots
            | some p ↦ if fs.exists p then single p else searched trimmed as_path roots
          ])
