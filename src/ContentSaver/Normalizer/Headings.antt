-- ===== src/ContentSaver/Normalizer/Headings.antt =====
-- What `normalize_heading` (html_to_markdown.rs) does to the lines that it is called with.
use mathlib.Core.List.{append_assoc}
use kodegen_tools_citescrape.Base.{
  ℕ, zero, suc, ◌≤◌, ◌<◌, ◌≡◌, ◌≢◌, refl, sym, ap, subst, ◌∙◌, inl, inr, Bool, true, false, ◌&&◌,
  List, [], ◌∷◌, ◌++◌, arith, length, replicate, ◌==◌, if◌then◌else◌, Bool-cases,
}
use kodegen_tools_citescrape.ContentSaver.Htmd.Whitespace.{is_whitespace}
use kodegen_tools_citescrape.ContentSaver.Htmd.Strip.{trim_start_matches, trim_end_matches}
use kodegen_tools_citescrape.ContentSaver.Htmd.Strip.TrimEnd.{trim_end-append_all}
use kodegen_tools_citescrape.ContentSaver.Htmd.ListProcessing.{trim}
use kodegen_tools_citescrape.ContentSaver.Classify.{
  LineType, blank, html_comment, code_fence, blockquote, table_row, horizontal_rule,
  empty_list_markers, unordered_list, ordered_list, paragraph, heading, hash_count, classify_rest,
  after_hashes, empty_or_space, is_heading, classify_trimmed, classify,
}
use kodegen_tools_citescrape.ContentSaver.Normalizer.{indent_of, normalize_heading}

abbrev pub hashes : List ℕ → List ℕ
hashes t = replicate (hash_count t) 35

pub hashes-split : (t : List ℕ) → t ≡ hashes t ++ after_hashes t
hashes-split [] = refl
hashes-split (c ∷ cs) = elim (Bool-cases (c == 35)) [
  | inl hash ↦ let same : c ≡ 35 = ground arith in rw (same) (ap (35 ∷◌) (hashes-split cs))
  | inr other ↦ rw other refl
]

not_white : is_whitespace 35 ≡ false
unfolding is_whitespace
not_white = refl

trim_start-indent :
    (line t : List ℕ)
    → trim_start_matches is_whitespace (indent_of line ++ t) ≡ trim_start_matches is_whitespace t
unfolding trim_start_matches indent_of
trim_start-indent [] t = refl
trim_start-indent (c ∷ cs) t = elim (Bool-cases (is_whitespace c)) [
  | inl white ↦ rw white (rw white (trim_start-indent cs t))
  | inr other ↦ rw other refl
]

hash_kept :
    (cs : List ℕ)
    → trim_end_matches is_whitespace (35 ∷ cs) ≡ 35 ∷ trim_end_matches is_whitespace cs
unfolding trim_end_matches
hash_kept cs = rw not_white refl

other_end :
    (c : ℕ) (cs : List ℕ)
    → (c == 35) ≡ false
    → empty_or_space (after_hashes (trim_end_matches is_whitespace (c ∷ cs))) ≡ true
    → (c == 32) ≡ false
    → trim_end_matches is_whitespace (c ∷ cs) ≡ []
unfolding trim_end_matches
other_end c cs o e f =
    elim (Bool-cases (is_whitespace c && (length (trim_end_matches is_whitespace cs) == 0))) [
      | inl gone ↦ rw gone refl
      | inr stays ↦ absurd (ground (arith, e, rw stays at e))
    ]

-- Where only the trimmed text ends after the hashes, whitespace follows them.
pub rest_white :
    (t : List ℕ)
    → empty_or_space (after_hashes (trim_end_matches is_whitespace t)) ≡ true
    → empty_or_space (after_hashes t) ≡ false
    → trim_end_matches is_whitespace (after_hashes t) ≡ []
unfolding trim_end_matches
rest_white [] e f = cc
rest_white (c ∷ cs) e f = elim (Bool-cases (c == 35)) [
  | inl hash ↦
      let same : c ≡ 35 = ground arith in
      let e' : empty_or_space (after_hashes (35 ∷ trim_end_matches is_whitespace cs)) ≡ true =
        subst (λ l. empty_or_space (after_hashes l) ≡ true) (hash_kept cs)
          (subst
            (λ d. empty_or_space (after_hashes (trim_end_matches is_whitespace (d ∷ cs))) ≡ true)
            same e) in
      rw same (rest_white cs e' (rw same at f))
  | inr other ↦ rw other (other_end c cs other e (rw other at f))
]

rest-heading : (t : List ℕ) → classify_rest t ≢ heading
unfolding classify_rest
rest-heading t e = no_heading _ _ _ _ _ _ e
  where
    no_heading :
        (a b c d f g : Bool)
        → (if a
            then blockquote
            else if b
            then table_row
            else if c
            then horizontal_rule
            else if d
            then empty_list_markers
            else if f
            then unordered_list
            else if g
            then ordered_list
            else paragraph)
          ≢ heading
    no_heading a b c d f g e = ground arith

pub heading-is_heading : (t : List ℕ) → classify_trimmed t ≡ heading → is_heading t ≡ true
unfolding classify_trimmed
heading-is_heading t e = tested _ _ _ (is_heading t) _ (rest-heading t) e
  where
    tested :
        (a b c h : Bool) (rest : LineType)
        → rest ≢ heading
        → (if a
            then blank
            else if b
            then html_comment
            else if c
            then code_fence
            else if h
            then heading
            else rest)
          ≡ heading
        → h ≡ true
    tested a b c h rest n e = ground (arith, n)

pub normalize_heading-spaced :
    (line : List ℕ)
    → let t = trim_start_matches is_whitespace line in
      empty_or_space (after_hashes t) ≡ false
      → normalize_heading line ≡ indent_of line ++ (hashes t ++ 32 ∷ after_hashes t)
unfolding normalize_heading
normalize_heading-spaced line f =
    rw f (append_assoc (indent_of line) (hashes (trim_start_matches is_whitespace line)) _)

starts_black :
    (n : ℕ) (x : List ℕ)
    → 0 < n
    → trim_start_matches is_whitespace (replicate n 35 ++ x) ≡ replicate n 35 ++ x
unfolding trim_start_matches
starts_black zero x h = absurd (omega arith)
starts_black (suc n) x h = rw not_white refl

white_space :
    (x : List ℕ)
    → trim_end_matches is_whitespace x ≡ []
    → trim_end_matches is_whitespace (32 ∷ x) ≡ []
unfolding trim_end_matches is_whitespace
white_space x e = rw e refl

pub unchanged :
    (line : List ℕ)
    → empty_or_space (after_hashes (trim_start_matches is_whitespace line)) ≡ true
    → normalize_heading line ≡ line
unfolding normalize_heading
unchanged line f = rw f refl

pub hash_count-trim_end-le :
    (t : List ℕ) → hash_count (trim_end_matches is_whitespace t) ≤ hash_count t
unfolding trim_end_matches
hash_count-trim_end-le [] = omega arith
hash_count-trim_end-le (c ∷ cs) = ground (arith, hash_count-trim_end-le cs)

pub trim-normalize_heading :
    (line : List ℕ) → classify line ≡ heading → trim (normalize_heading line) ≡ trim line
unfolding classify trim
trim-normalize_heading line e =
    let t : List ℕ = trim_start_matches is_whitespace line in
    let h : is_heading (trim line) ≡ true = heading-is_heading (trim line) e in
    elim (Bool-cases (empty_or_space (after_hashes t))) [
      | inl fine ↦ ap trim (unchanged line fine)
      | inr spaced ↦
          let rest : List ℕ = after_hashes t in
          let some_hash : 0 < hash_count t = ground (arith, hash_count-trim_end-le t) in
          let white : trim_end_matches is_whitespace rest ≡ [] =
            rest_white t (ground (arith, h)) spaced in
          let strip = trim_end_matches is_whitespace in
          let kept =
            trim_start-indent line (hashes t ++ 32 ∷ rest)
            ∙ starts_black (hash_count t) (32 ∷ rest) some_hash in
          ap trim (normalize_heading-spaced line spaced)
          ∙ ap strip kept
          ∙ trim_end-append_all is_whitespace (hashes t) (32 ∷ rest) (white_space rest white)
          ∙ sym (trim_end-append_all is_whitespace (hashes t) rest white)
          ∙ sym (ap strip (hashes-split t))
    ]
