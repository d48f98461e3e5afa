-- ===== src/Search/Fragments.antt =====
-- src/search/query/snippets.rs: the fragments of a text among which the snippet is chosen. The tokens
-- are what the tokenizer of the crate tantivy yields; `to_lowercase`, and the f32 scores with their
-- sum and the product by the diversity weight, are arbitrary.
pub mod Bounds
mod Tests
use kodegen_tools_citescrape.Base.{
  ℕ, ◌+◌, ◌-◌, String, Bool, true, false, not, Option, none, some, List, [], ◌∷◌, ◌++◌, length, has,
  ltb, ◌==◌, if◌then◌else◌,
}
use kodegen_tools_citescrape.Search.Snippets.{Range}

pub record Scores : Type 1 where
  pub Score : Type 0
  pub zero_score : Score
  pub add_score : Score → Score → Score
  pub weigh : Score → Score

pub record Token : Type 0 where
  pub text : String
  pub offset_from : ℕ
  pub offset_to : ℕ

pub record FragmentCandidate (S : Scores) : Type 0 where
  pub start_offset : ℕ
  pub stop_offset : ℕ
  pub unique_terms : List String
  pub term_positions : List (String × Range)
  pub diversity_score : S.Score
  pub frequency_score : S.Score

module _ (S : Scores) where
  unfoldable pub new_fragment : ℕ → FragmentCandidate S
  new_fragment start_offset = record {
    start_offset = start_offset;
    stop_offset = start_offset;
    unique_terms = [];
    term_positions = [];
    diversity_score = S.zero_score;
    frequency_score = S.zero_score;
  }

  unfoldable pub add_term :
      (String → String) → String → S.Score → ℕ → ℕ → FragmentCandidate S → FragmentCandidate S
  add_term to_lowercase term term_score offset_from offset_to f =
      let lower = to_lowercase term in
      let seen = has lower f.unique_terms in
      record f {
        stop_offset = offset_to;
        unique_terms = if seen then f.unique_terms else lower ∷ f.unique_terms;
        diversity_score =
            if seen then f.diversity_score else S.add_score f.diversity_score (S.weigh term_score);
        frequency_score = S.add_score f.frequency_score term_score;
        term_positions =
            f.term_positions ++ (term, record { start = offset_from; stop = offset_to }) ∷ [];
      }

  unfoldable pub total_score : FragmentCandidate S → S.Score
  total_score f = S.add_score f.diversity_score f.frequency_score

  matched :
      (String → String)
      → String
      → Token
      → FragmentCandidate S
      → Option S.Score
      → FragmentCandidate S
  unfolding add_term
  matched to_lowercase lower token f none = f
  matched to_lowercase lower token f (some score) =
      add_term to_lowercase lower score token.offset_from token.offset_to f

  -- A fragment that has found a term is kept.
  keep : FragmentCandidate S → List (FragmentCandidate S) → List (FragmentCandidate S)
  keep f fragments = if not (length f.unique_terms == 0) then fragments ++ f ∷ [] else fragments

  -- The loop over the tokens, and what follows it: the current fragment, and those kept.
  unfoldable pub search_loop :
      (String → String)
      → (String → Option S.Score)
      → ℕ
      → List Token
      → FragmentCandidate S
      → List (FragmentCandidate S)
      → List (FragmentCandidate S)
  unfolding keep new_fragment matched
  search_loop to_lowercase terms max_chars [] fragment fragments = keep fragment fragments
  search_loop to_lowercase terms max_chars (token ∷ tokens) fragment fragments =
      let lower = to_lowercase token.text in
      let full = ltb max_chars (token.offset_to - fragment.start_offset) in
      let fragments = if full then keep fragment fragments else fragments in
      let fragment = if full then new_fragment token.offset_from else fragment in
      let fragment =
        matched to_lowercase lower token (record fragment { stop_offset = token.offset_to })
          (terms lower) in
      search_loop to_lowercase terms max_chars tokens fragment fragments

  unfoldable pub search_fragments :
      (String → String) → (String → Option S.Score) → ℕ → List Token → List (FragmentCandidate S)
  unfolding search_loop
  search_fragments to_lowercase terms max_chars tokens =
      search_loop to_lowercase terms max_chars tokens (new_fragment 0) []
