-- ===== src/ContentSaver/Normalizer/Lines.antt =====
-- Line breaks in the lines that the normalizer (html_to_markdown.rs) reads and writes.
use kodegen_tools_citescrape.Base.{
  ℕ, zero, suc, ◌≡◌, refl, inl, inr, Bool, false, List, [], ◌∷◌, ◌++◌, All, All-append, length,
  replicate, ◌==◌, Bool-cases,
}
use kodegen_tools_citescrape.ContentSaver.Htmd.Whitespace.{is_whitespace}
use kodegen_tools_citescrape.ContentSaver.Htmd.Strip.{trim_start_matches}
use kodegen_tools_citescrape.ContentSaver.Classify.{hash_count, after_hashes, empty_or_space}
use kodegen_tools_citescrape.ContentSaver.Normalizer.{
  indent_of, normalize_heading, strip_return, lines_loop, lines,
}

abbrev pub NoBreak : List ℕ → Type 0
NoBreak = All (λ c. (c == 10) ≡ false)

strip_return-NoBreak : (text : List ℕ) → NoBreak text → NoBreak (strip_return text)
unfolding strip_return
strip_return-NoBreak [] h = tt
strip_return-NoBreak (c ∷ []) h = elim (Bool-cases (c == 13)) [
  | inl return ↦ rw return tt
  | inr other ↦ rw other h
]
strip_return-NoBreak (c ∷ d ∷ cs) h = (h.0, strip_return-NoBreak (d ∷ cs) h.1)

lines_loop-NoBreak :
    (text current : List ℕ) → NoBreak current → All NoBreak (lines_loop text current)
unfolding lines_loop
lines_loop-NoBreak [] current h = elim (Bool-cases (length current == 0)) [
  | inl none_left ↦ rw none_left tt
  | inr last ↦ rw last (h, tt)
]
lines_loop-NoBreak (c ∷ cs) current h = elim (Bool-cases (c == 10)) [
  | inl break ↦ rw break (strip_return-NoBreak current h, lines_loop-NoBreak cs [] tt)
  | inr other ↦ rw other (
      lines_loop-NoBreak cs (current ++ c ∷ [])
        (All-append (λ d. (d == 10) ≡ false) current (c ∷ []) h (other, tt)))
]

pub lines-NoBreak : (text : List ℕ) → All NoBreak (lines text)
unfolding lines
lines-NoBreak text = lines_loop-NoBreak text [] tt

indent_of-NoBreak : (line : List ℕ) → NoBreak line → NoBreak (indent_of line)
unfolding indent_of
indent_of-NoBreak [] h = tt
indent_of-NoBreak (c ∷ cs) h = elim (Bool-cases (is_whitespace c)) [
  | inl white ↦ rw white (h.0, indent_of-NoBreak cs h.1)
  | inr other ↦ rw other tt
]

trim_start-NoBreak :
    (p : ℕ → Bool) (line : List ℕ) → NoBreak line → NoBreak (trim_start_matches p line)
unfolding trim_start_matches
trim_start-NoBreak p [] h = tt
trim_start-NoBreak p (c ∷ cs) h = elim (Bool-cases (p c)) [
  | inl gone ↦ rw gone (trim_start-NoBreak p cs h.1)
  | inr stays ↦ rw stays h
]

after_hashes-NoBreak : (t : List ℕ) → NoBreak t → NoBreak (after_hashes t)
after_hashes-NoBreak [] h = tt
after_hashes-NoBreak (c ∷ cs) h = elim (Bool-cases (c == 35)) [
  | inl hash ↦ rw hash (after_hashes-NoBreak cs h.1)
  | inr other ↦ rw other h
]

hashes-NoBreak : (n : ℕ) → NoBreak (replicate n 35)
hashes-NoBreak zero = tt
hashes-NoBreak (suc n) = (refl, hashes-NoBreak n)

pub normalize_heading-NoBreak : (line : List ℕ) → NoBreak line → NoBreak (normalize_heading line)
unfolding normalize_heading
normalize_heading-NoBreak line h =
    let t : List ℕ = trim_start_matches is_whitespace line in
    let rest = after_hashes-NoBreak t (trim_start-NoBreak is_whitespace line h) in
    let no_break : ℕ → Type 0 = λ c. (c == 10) ≡ false in
    elim (Bool-cases (empty_or_space (after_hashes t))) [
      | inl fine ↦ rw fine h
      | inr spaced ↦ rw spaced (
          All-append no_break _ (32 ∷ after_hashes t)
            (All-append no_break (indent_of line) (replicate (hash_count t) 35)
              (indent_of-NoBreak line h) (hashes-NoBreak (hash_count t)))
            (refl, rest))
    ]
