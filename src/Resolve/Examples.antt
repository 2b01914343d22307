-- ===== src/Resolve/Examples.antt =====
-- A small file system, and what texts stand for in it.
use shmark.Base.{codes, ◌==◌, ◌≡◌, ◌↔◌, refl, some, none, true, false, not, [], ◌∷◌, take, contains}
use shmark.Paths.{slash, file_name, split, parent}
use shmark.Paths.{join}
use shmark.Resolve.{
  CandidateKind, candidate_from, candidate_of, expand_direct, looks_like_path, empty, FileSystem,
  matches_query, search, resolve, trim,
}
use shmark.Resolve.Searching.{hits_below, search_exact}
use shmark.Resolve.Matching.{EndsAtComponent, matches_query_exact}

abbrev small : FileSystem
small = record {
  home_dir = some (codes "/home/me");
  exists = λ p. p == codes "/src";
  metadata = λ p. some (record { is_dir = false; is_file = true; len = 4; modified = some 9 });
  walk = λ root.
      some (record { path = codes "/src/a/b.md"; is_file = some true })
      ∷ none
      ∷ some (record { path = codes "/src/a"; is_file = some false })
      ∷ [];
}

matches_query_exact_example :
    ((matches_query (codes "/src/a/b.md") (codes "a/b.md") false ≡ true)
      ↔ EndsAtComponent (codes "/src/a/b.md") (codes "a/b.md"))
    × ((matches_query (codes "/src/a/b.md") (codes "a/b.md") true ≡ true)
        ↔ (file_name (codes "/src/a/b.md") ≡ some (codes "a/b.md")))
matches_query_exact_example = matches_query_exact (codes "/src/a/b.md") (codes "a/b.md")

search_exact_example :
    search small (codes "b.md") (codes "/src" ∷ codes "/gone" ∷ []) 50
    ≡ take 50 (
        hits_below small
          (codes "b.md")
          (not (contains slash (codes "b.md")))
          (codes "/src" ∷ codes "/gone" ∷ []))
search_exact_example = search_exact small (codes "b.md") (codes "/src" ∷ codes "/gone" ∷ []) 50

trim_example : trim (codes "  a b ") ≡ codes "a b"
unfolding trim
trim_example = refl

file_name_example : file_name (codes "/src/a/./b.md/") ≡ some (codes "b.md")
unfolding file_name split
file_name_example = refl

parent_example : parent (codes "/src/a//b.md") ≡ some (codes "/src/a")
unfolding parent split
parent_example = refl

blank_example : resolve small (codes "  ") [] ≡ empty
unfolding resolve trim
blank_example = refl

home_example : expand_direct small (codes "~/a") ≡ some (codes "/home/me/a")
unfolding expand_direct join
home_example = refl

shape_example :
    (looks_like_path (codes "a.md") ≡ true) × (looks_like_path (codes "a sentence") ≡ false)
unfolding looks_like_path
shape_example = (refl, refl)

candidate_example :
    candidate_from small (codes "/src/a/b.md")
    ≡ some (record {
      path = codes "/src/a/b.md";
      parent_dir = codes "/src/a";
      size_bytes = 4;
      mtime_secs = 9;
      kind = CandidateKind.file;
    })
unfolding candidate_from candidate_of parent split
candidate_example = refl
