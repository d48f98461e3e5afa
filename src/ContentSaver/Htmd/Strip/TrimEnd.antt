-- ===== src/ContentSaver/Htmd/Strip/TrimEnd.antt =====
-- How `trim_end_matches` and `++` go together.
use kodegen_tools_citescrape.Base.{
  ℕ, ◌≡◌, refl, ap, inl, inr, Bool, false, ◌&&◌, List, [], ◌∷◌, ◌++◌, arith, length, ◌==◌,
  Bool-cases,
}
use kodegen_tools_citescrape.ContentSaver.Htmd.Strip.{trim_end_matches}

module _ (p : ℕ → Bool) where
  pub trim_end-append_all :
      (xs r : List ℕ)
      → trim_end_matches p r ≡ []
      → trim_end_matches p (xs ++ r) ≡ trim_end_matches p xs
  unfolding trim_end_matches
  trim_end-append_all [] r e = e
  trim_end-append_all (c ∷ cs) r e = rw (trim_end-append_all cs r e) refl

  pub trim_end-append :
      (xs r : List ℕ) (d : ℕ) (ds : List ℕ)
      → trim_end_matches p r ≡ d ∷ ds
      → trim_end_matches p (xs ++ r) ≡ xs ++ d ∷ ds
  unfolding trim_end_matches
  trim_end-append [] r d ds e = e
  trim_end-append (c ∷ cs) r d ds e =
      rw (trim_end-append cs r d ds e, not_empty cs)
        (elim (Bool-cases (p c)) [ inl s ↦ rw s refl | inr o ↦ rw o refl ])
    where
      not_empty : (l : List ℕ) → (length (l ++ d ∷ ds) == 0) ≡ false
      not_empty [] = ground arith
      not_empty (a ∷ l) = ground arith

  pub trim_end-again :
      (text : List ℕ) → trim_end_matches p (trim_end_matches p text) ≡ trim_end_matches p text
  unfolding trim_end_matches
  trim_end-again [] = refl
  trim_end-again (c ∷ cs) = elim (Bool-cases (p c && (length (trim_end_matches p cs) == 0))) [
    | inl gone ↦ rw gone refl
    | inr stays ↦ rw stays (rw (trim_end-again cs, stays) refl)
  ]

  pub trim_end-split : (text : List ℕ) → (rest : List ℕ) × (text ≡ trim_end_matches p text ++ rest)
  unfolding trim_end_matches
  trim_end-split [] = ([], refl)
  trim_end-split (c ∷ cs) = elim (Bool-cases (p c && (length (trim_end_matches p cs) == 0))) [
    | inl gone ↦ rw gone (c ∷ cs, refl)
    | inr stays ↦ let (rest, split) = trim_end-split cs in rw stays (rest, ap (c ∷◌) split)
  ]
