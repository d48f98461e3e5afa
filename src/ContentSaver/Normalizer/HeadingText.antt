-- ===== src/ContentSaver/Normalizer/HeadingText.antt =====
-- The parts of a heading line that `normalize_heading` (html_to_markdown.rs) keeps.
use kodegen_tools_citescrape.Base.{
  ℕ, ◌<◌, ◌≡◌, refl, ap, ◌∙◌, ◌⊎◌, inl, inr, All, true, ◌&&◌, List, [], ◌∷◌, ◌++◌, arith, length,
  ◌==◌, Bool-cases,
}
use kodegen_tools_citescrape.ContentSaver.Htmd.Whitespace.{is_whitespace}
use kodegen_tools_citescrape.ContentSaver.Htmd.Strip.{trim_start_matches, trim_end_matches}
use kodegen_tools_citescrape.ContentSaver.Htmd.ListProcessing.{trim}
use kodegen_tools_citescrape.ContentSaver.Classify.{
  heading, hash_count, after_hashes, empty_or_space, is_heading, classify,
}
use kodegen_tools_citescrape.ContentSaver.Normalizer.{indent_of, normalize_heading}
use kodegen_tools_citescrape.ContentSaver.Normalizer.Headings.{
  hashes, hashes-split, rest_white, heading-is_heading, normalize_heading-spaced, unchanged,
  hash_count-trim_end-le,
}

abbrev pub White : ℕ → Type 0
White c = is_whitespace c ≡ true

indent-split : (line : List ℕ) → line ≡ indent_of line ++ trim_start_matches is_whitespace line
unfolding indent_of trim_start_matches
indent-split [] = refl
indent-split (c ∷ cs) = elim (Bool-cases (is_whitespace c)) [
  | inl white ↦ rw white (ap (c ∷◌) (indent-split cs))
  | inr other ↦ rw other refl
]

all-White : (x : List ℕ) → trim_end_matches is_whitespace x ≡ [] → All White x
unfolding trim_end_matches
all-White [] e = tt
all-White (c ∷ cs) e =
    let rest = trim_end_matches is_whitespace cs in
    elim (Bool-cases (is_whitespace c && (length rest == 0))) [
      | inl gone ↦ (ground (arith, gone), all-White cs (no_length rest (ground (arith, gone))))
      | inr stays ↦ absurd (ground (arith, rw stays at e))
    ]
  where
    no_length : (xs : List ℕ) → length xs ≡ 0 → xs ≡ []
    no_length [] h = refl
    no_length (x ∷ xs) h = absurd (ground (arith, h))

-- A line that is classified as a heading is its indentation, some hashes and a rest, and the
-- normalization of headings leaves it as it is, or the rest is whitespace only and a space more
-- goes between the hashes and the rest.
pub normalize_heading_lem :
    (line : List ℕ)
    → classify line ≡ heading
    → let t = trim_start_matches is_whitespace line in
      (line ≡ indent_of line ++ (hashes t ++ after_hashes t))
      × (0 < hash_count t)
      × ((normalize_heading line ≡ line)
          ⊎ (All White (after_hashes t)
              × (normalize_heading line ≡ indent_of line ++ (hashes t ++ 32 ∷ after_hashes t))))
unfolding classify trim
normalize_heading_lem line e =
    let t : List ℕ = trim_start_matches is_whitespace line in
    let h : is_heading (trim line) ≡ true = heading-is_heading (trim line) e in
    let some_hash : 0 < hash_count t = ground (arith, hash_count-trim_end-le t) in
    let whole = indent-split line ∙ ap (indent_of line ++◌) (hashes-split t) in
    (
      whole,
      some_hash,
      elim (Bool-cases (empty_or_space (after_hashes t))) [
        | inl fine ↦ inl (unchanged line fine)
        | inr spaced ↦
            let white = all-White (after_hashes t) (rest_white t (ground (arith, h)) spaced) in
            inr (white, normalize_heading-spaced line spaced)
      ],
    )
