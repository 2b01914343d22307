-- ===== src/Server/Chains.antt =====
-- The text of an error as the client gets it.
use shmark.Base.{Text, codes, ◌≡◌, refl, ap, ◌∙◌, ◌++◌, List, [], ◌∷◌}
use shmark.Errors.{
  Error, message, no_match, ambiguous, out_of_range, http, os, serde, foreign, context,
}
use shmark.Server.{chain, show, push_causes, flatten_chain}
use mathlib.Core.List.{append_assoc}

-- All causes, with `: ` between them.
pub joined : List Text → Text
joined [] = []
joined (t ∷ []) = t
joined (t ∷ u ∷ rest) = t ++ (codes ": " ++ joined (u ∷ rest))

joined_front :
    (a b : Text) (causes : List Text) → joined ((a ++ b) ∷ causes) ≡ a ++ joined (b ∷ causes)
unfolding joined
joined_front a b [] = refl
joined_front a b (c ∷ causes) = append_assoc a b (codes ": " ++ joined (c ∷ causes))

push_causes_lem : (msg : Text) (causes : List Text) → push_causes msg causes ≡ joined (msg ∷ causes)
unfolding push_causes joined
push_causes_lem msg [] = refl
push_causes_lem msg (c ∷ causes) =
    push_causes_lem (msg ++ (codes ": " ++ c)) causes
    ∙ joined_front msg (codes ": " ++ c) causes
    ∙ ap (λ t. msg ++ t) (joined_front (codes ": ") c causes)

-- The message of a failed method is the text of every cause of the error, the outermost first, with
-- `: ` between them.
pub flatten_chain_exact :
    (display : Error → Text) (e : Error) → flatten_chain display e ≡ joined (chain display e)
unfolding flatten_chain chain show
flatten_chain_exact display (context t e) = push_causes_lem t (chain display e)
flatten_chain_exact display (message t) = push_causes_lem (display (message t)) []
flatten_chain_exact display (no_match t u) = push_causes_lem (display (no_match t u)) []
flatten_chain_exact display (ambiguous n t u) = push_causes_lem (display (ambiguous n t u)) []
flatten_chain_exact display (out_of_range n m) = push_causes_lem (display (out_of_range n m)) []
flatten_chain_exact display (http n t) = push_causes_lem (display (http n t)) []
flatten_chain_exact display os = push_causes_lem (display os) []
flatten_chain_exact display serde = push_causes_lem (display serde) []
flatten_chain_exact display foreign = push_causes_lem (display foreign) []
