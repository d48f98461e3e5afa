-- ===== src/Search/Fragments/Tests.antt =====
-- The fragments of a text (snippets.rs) on concrete tokens.
use kodegen_tools_citescrape.Base.{
  ℕ, ◌+◌, String, str_eq, ◌≡◌, refl, arith, Option, none, some, List, [], ◌∷◌, All, max, length,
  if◌then◌else◌,
}
use kodegen_tools_citescrape.Search.Fragments.{
  Scores, Token, search_fragments, search_loop, new_fragment, add_term, matched, keep,
}
use kodegen_tools_citescrape.Search.Fragments.Bounds.{Fits, search_fragments-Fits}

abbrev counts : Scores
counts = record { Score = ℕ; zero_score = 0; add_score = λ a b. a + b; weigh = λ a. a }

abbrev tokens : List Token
tokens =
    record { text = "x"; offset_from = 0; offset_to = 1 }
    ∷ record { text = "y"; offset_from = 2; offset_to = 3 }
    ∷ record { text = "x"; offset_from = 4; offset_to = 5 }
    ∷ []

abbrev only_x : String → Option ℕ
only_x t = if str_eq t "x" then some 1 else none

two_fragments : length (search_fragments counts (λ t. t) only_x 3 tokens) ≡ 2
unfolding search_fragments search_loop new_fragment matched add_term keep
two_fragments = refl

search_fragments-Fits_example :
    All (Fits 5 (max 3 1)) (search_fragments counts (λ t. t) only_x 3 tokens)
search_fragments-Fits_example =
    search_fragments-Fits counts (λ t. t) only_x 5 1 3 tokens
      (
        omega arith,
        omega arith,
        omega arith,
        (
          omega arith,
          omega arith,
          omega arith,
          (omega arith, omega arith, omega arith, omega arith),
        ),
      )
