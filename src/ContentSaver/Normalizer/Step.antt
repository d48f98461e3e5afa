-- ===== src/ContentSaver/Normalizer/Step.antt =====
-- What one line makes of the normalizer (html_to_markdown.rs): its record, in a fence, and blank.
use kodegen_tools_citescrape.Base.{
  ℕ, suc, ◌+◌, ◌%◌, ◌^◌, ◌≤◌, ◌<◌, ◌≡◌, refl, subst, inl, inr, true, false, List, [], ◌∷◌, ◌++◌,
  All, arith, min, leb, if◌then◌else◌, Bool-cases,
}
use kodegen_tools_citescrape.ContentSaver.Htmd.Whitespace.{is_whitespace}
use kodegen_tools_citescrape.ContentSaver.Htmd.Strip.{trim_start_matches}
use kodegen_tools_citescrape.ContentSaver.Classify.{blank, fence_start, classify, is_blank}
use kodegen_tools_citescrape.ContentSaver.Normalizer.{
  MarkdownNormalizer, write_line, emit_fenced, emit_blank,
}
use kodegen_tools_citescrape.ContentSaver.Normalizer.Lines.{NoBreak}
use kodegen_tools_citescrape.ContentSaver.Normalizer.Spaced.{write_all, Spaced, resets}

abbrev pub From : MarkdownNormalizer → List (List ℕ) → Type 0
From n ls = Spaced n.in_code_fence (min n.consecutive_blanks 2) (is_blank n.prev_type) ls

-- After blank lines the last line is blank, and in a code fence none is counted.
pub record Sound (n : MarkdownNormalizer) : Type 0 where
  pub last : (0 < n.consecutive_blanks) → is_blank n.prev_type ≡ true
  pub fenced : n.in_code_fence ≡ true → n.consecutive_blanks ≡ 0

pub record Emits (line : List ℕ) (n m : MarkdownNormalizer) : Type 0 where
  pub written : List (List ℕ)
  pub output : m.output ≡ write_all n.output written
  pub no_break : All NoBreak written
  pub spaced : (ls : List (List ℕ)) → From m ls → From n (written ++ ls)
  pub sound : Sound m
  pub few :
      (k : ℕ) → n.consecutive_blanks ≤ k → m.consecutive_blanks ≤ (if resets line then 0 else suc k)

pub fenced-Emits :
    (line : List ℕ) (n : MarkdownNormalizer)
    → NoBreak line
    → n.in_code_fence ≡ true
    → Sound n
    → Emits line n (emit_fenced line n)
unfolding emit_fenced write_line
fenced-Emits line n h e s =
    elim (Bool-cases (fence_start (trim_start_matches is_whitespace line))) [
      | inl closes ↦ rw closes (record {
        written = line ∷ [];
        output = refl;
        no_break = (h, tt);
        spaced = λ ls f. rw e (rw closes f);
        sound = record { last = s.last; fenced = λ g. s.fenced e };
        few = λ k le. omega (arith, s.fenced e);
      })
      | inr goes_on ↦ rw goes_on (record {
        written = line ∷ [];
        output = refl;
        no_break = (h, tt);
        spaced = λ ls f. rw e (rw goes_on (rw e at f));
        sound = record { last = s.last; fenced = s.fenced };
        few = λ k le. omega (arith, s.fenced e);
      })
    ]

grown : (n : ℕ) → leb (n + 1) 2 ≡ true → min (n + 1) 2 ≡ min n 2 + 1
grown n e = ground arith

pub blank-Emits :
    (line : List ℕ) (n : MarkdownNormalizer)
    → NoBreak line
    → classify line ≡ blank
    → n.in_code_fence ≡ false
    → n.consecutive_blanks < 255
    → Sound n
    → Emits line n (emit_blank line n)
unfolding emit_blank write_line
blank-Emits line n h ty e small s =
    let no_wrap : (n.consecutive_blanks + 1) % 2 ^ 8 ≡ n.consecutive_blanks + 1 = omega arith in
    elim (Bool-cases (leb (n.consecutive_blanks + 1) 2)) [
      | inl few ↦
          rw (no_wrap, few)
            (record {
              written = line ∷ [];
              output = refl;
              no_break = (h, tt);
              spaced = λ ls f.
                  rw (e, ty)
                    (
                      ground arith,
                      subst (λ r. Spaced false r true ls) (grown n.consecutive_blanks few)
                          (rw e at f),
                    );
              sound = record { last = λ p. refl; fenced = λ g. absurd (cc) };
              few = λ k le. rw ty (omega arith);
            })
      | inr many ↦
          rw (no_wrap, many)
            (record {
              written = [];
              output = refl;
              no_break = tt;
              spaced = λ ls f.
                  let after : is_blank n.prev_type ≡ true = s.last (ground arith) in
                  let same : min (n.consecutive_blanks + 1) 2 ≡ min n.consecutive_blanks 2 =
                    ground arith in
                  rw after (subst (λ r. Spaced n.in_code_fence r true ls) same f);
              sound = record { last = λ p. refl; fenced = λ g. absurd (cc) };
              few = λ k le. rw ty (omega arith);
            })
    ]
