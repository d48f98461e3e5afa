-- ===== src/ContentSaver/Normalizer/Emits.antt =====
-- What one line makes of the normalizer (html_to_markdown.rs).
use kodegen_tools_citescrape.Base.{
  ℕ, ◌+◌, ◌<◌, ◌≡◌, refl, sym, ap, subst, ◌∙◌, inl, inr, Bool, true, false, not, ◌&&◌, List, [],
  ◌∷◌, arith, min, if◌then◌else◌, Bool-cases,
}
use kodegen_tools_citescrape.ContentSaver.Htmd.ListProcessing.{trim}
use kodegen_tools_citescrape.ContentSaver.Classify.{
  LineType, blank, heading, unordered_list, ordered_list, code_fence, blockquote, table_row,
  horizontal_rule, html_comment, empty_list_markers, paragraph, classify_trimmed, classify,
  needs_blank_before, is_blank, is_paragraph,
}
use kodegen_tools_citescrape.ContentSaver.Normalizer.{
  is_code_fence, is_heading_type, MarkdownNormalizer, write_line, normalize_heading,
  is_section_titled_link, emit_line, emit_other, emit_as, emit,
}
use kodegen_tools_citescrape.ContentSaver.Normalizer.Lines.{NoBreak, normalize_heading-NoBreak}
use kodegen_tools_citescrape.ContentSaver.Normalizer.Headings.{trim-normalize_heading}
use kodegen_tools_citescrape.ContentSaver.Normalizer.Spaced.{LineFits, Spaced, resets_type, resets}
use kodegen_tools_citescrape.ContentSaver.Normalizer.Step.{Sound, Emits, fenced-Emits, blank-Emits}

-- What holds of every type of line that is written when it is not blank.
record Writable (type_ : LineType) (line : List ℕ) : Type 1 where
  text_type : classify (if is_heading_type type_ then normalize_heading line else line) ≡ type_
  text_no_break : NoBreak (if is_heading_type type_ then normalize_heading line else line)
  fits :
      (run : ℕ) (after_blank : Bool) (Rest : Bool → ℕ → Bool → Type 0)
      → (needs_blank_before type_ && not after_blank) ≡ false
      → Rest (is_code_fence type_) 0 false
      → LineFits type_ run after_blank Rest
  filled : is_blank type_ ≡ false

plain-Writable :
    (type_ : LineType) (line : List ℕ)
    → is_heading_type type_ ≡ false
    → is_blank type_ ≡ false
    → ((run : ℕ) (after_blank : Bool) (Rest : Bool → ℕ → Bool → Type 0)
        → (needs_blank_before type_ && not after_blank) ≡ false
        → Rest (is_code_fence type_) 0 false
        → LineFits type_ run after_blank Rest)
    → NoBreak line
    → classify line ≡ type_
    → Writable type_ line
plain-Writable type_ line plain filled fits h ty = record {
  text_type = rw plain ty;
  text_no_break = rw plain h;
  fits = fits;
  filled = filled;
}

empty_line : classify [] ≡ blank
unfolding classify classify_trimmed trim
empty_line = refl

line-Emits :
    (type_ : LineType) (line : List ℕ) (n : MarkdownNormalizer)
    → Writable type_ line
    → n.in_code_fence ≡ false
    → Sound n
    → Emits line n (
        emit_line type_ line
          (record n { in_code_fence = if is_code_fence type_ then true else n.in_code_fence }))
unfolding emit_line write_line
line-Emits type_ line n w e s =
    let text : List ℕ = if is_heading_type type_ then normalize_heading line else line in
    let fence : (if is_code_fence type_ then true else n.in_code_fence) ≡ is_code_fence type_ =
      ground (arith, e) in
    elim (Bool-cases (needs_blank_before type_ && not (is_blank n.prev_type))) [
      | inl apart ↦ rw apart (record {
        written = [] ∷ text ∷ [];
        output = refl;
        no_break = (tt, (w.text_no_break, tt));
        spaced = λ ls f.
            let none_yet : min n.consecutive_blanks 2 < 2 = ground (arith, s.last) in
            rw (e, empty_line, w.text_type)
              (
                none_yet,
                w.fits (min n.consecutive_blanks 2 + 1) true (λ g r a. Spaced g r a ls)
                    (ground arith) (rw (fence, w.filled) at f),
              );
        sound = record { last = λ p. absurd (omega arith); fenced = λ g. refl };
        few = λ k le. omega arith;
      })
      | inr fine ↦ rw fine (record {
        written = text ∷ [];
        output = refl;
        no_break = (w.text_no_break, tt);
        spaced = λ ls f.
            rw (e, w.text_type)
              (w.fits (min n.consecutive_blanks 2) (is_blank n.prev_type) (λ g r a. Spaced g r a ls)
                fine (rw (fence, w.filled) at f));
        sound = record { last = λ p. absurd (omega arith); fenced = λ g. refl };
        few = λ k le. omega arith;
      })
    ]

paragraph-no_fence : (type_ : LineType) → is_paragraph type_ ≡ true → is_code_fence type_ ≡ false
paragraph-no_fence paragraph e = refl
paragraph-no_fence code_fence e = cc
paragraph-no_fence _ e = ground (arith, e)

paragraph-no_reset :
    (type_ : LineType) (link : Bool)
    → is_paragraph type_ ≡ true
    → link ≡ true
    → resets_type type_ link ≡ false
paragraph-no_reset paragraph link e f = rw f refl
paragraph-no_reset _ link e f = ground (arith, e)

other-Emits :
    (type_ : LineType) (line : List ℕ) (n : MarkdownNormalizer)
    → Writable type_ line
    → classify line ≡ type_
    → n.in_code_fence ≡ false
    → Sound n
    → Emits line n (
        emit_other type_ line
          (record n { in_code_fence = if is_code_fence type_ then true else n.in_code_fence }))
unfolding emit_other
other-Emits type_ line n w ty e s =
    elim (Bool-cases (
      n.prev_was_heading
      && is_blank n.prev_type
      && is_paragraph type_
      && is_section_titled_link line)) [
        | inl skipped ↦
            let no_fence = paragraph-no_fence type_ (ground arith) in
            let no_reset : resets_type type_ (is_section_titled_link line) ≡ false =
              paragraph-no_reset type_ (is_section_titled_link line) (ground arith)
                (ground arith) in
            rw skipped (record {
              written = [];
              output = refl;
              no_break = tt;
              spaced = λ ls f. rw no_fence at f;
              sound = record { last = s.last; fenced = λ g. absurd (cc (rw no_fence at g)) };
              few = λ k le. rw (ty, no_reset) (omega arith);
            })
        | inr written_ ↦ rw written_ (line-Emits type_ line n w e s)
      ]

unwritten :
    (line : List ℕ) (n : MarkdownNormalizer) → resets line ≡ false → Sound n → Emits line n n
unwritten line n r s = record {
  written = [];
  output = refl;
  no_break = tt;
  spaced = λ ls f. f;
  sound = s;
  few = λ k le. rw r (omega arith);
}

heading_stays :
    (line : List ℕ) → classify line ≡ heading → classify (normalize_heading line) ≡ heading
unfolding classify
heading_stays line e = ap classify_trimmed (trim-normalize_heading line e) ∙ e

as-Emits :
    (type_ : LineType) (line : List ℕ) (n : MarkdownNormalizer)
    → NoBreak line
    → classify line ≡ type_
    → n.in_code_fence ≡ false
    → n.consecutive_blanks < 255
    → Sound n
    → Emits line n (
        emit_as type_ line
          (record n { in_code_fence = if is_code_fence type_ then true else n.in_code_fence }))
unfolding emit_as
as-Emits html_comment line n h ty e small s = unwritten line n (rw ty refl) s
as-Emits empty_list_markers line n h ty e small s = unwritten line n (rw ty refl) s
as-Emits blank line n h ty e small s = blank-Emits line n h ty e small s
as-Emits heading line n h ty e small s =
    other-Emits heading line n
      (record {
        text_type = heading_stays line ty;
        text_no_break = normalize_heading-NoBreak line h;
        fits = λ run a Rest ok rest. (ok, rest);
        filled = refl;
      })
      ty e s
as-Emits code_fence line n h ty e small s =
    other-Emits code_fence line n
      (plain-Writable code_fence line refl refl (λ run a Rest ok rest. (ok, rest)) h ty) ty e s
as-Emits unordered_list line n h ty e small s =
    other-Emits unordered_list line n
      (plain-Writable unordered_list line refl refl (λ run a Rest ok rest. (ok, rest)) h ty) ty e s
as-Emits ordered_list line n h ty e small s =
    other-Emits ordered_list line n
      (plain-Writable ordered_list line refl refl (λ run a Rest ok rest. (ok, rest)) h ty) ty e s
as-Emits blockquote line n h ty e small s =
    other-Emits blockquote line n
      (plain-Writable blockquote line refl refl (λ run a Rest ok rest. (ok, rest)) h ty) ty e s
as-Emits table_row line n h ty e small s =
    other-Emits table_row line n
      (plain-Writable table_row line refl refl (λ run a Rest ok rest. (ok, rest)) h ty) ty e s
as-Emits horizontal_rule line n h ty e small s =
    other-Emits horizontal_rule line n
      (plain-Writable horizontal_rule line refl refl (λ run a Rest ok rest. (ok, rest)) h ty) ty e s
as-Emits paragraph line n h ty e small s =
    other-Emits paragraph line n
      (plain-Writable paragraph line refl refl (λ run a Rest ok rest. (ok, rest)) h ty) ty e s

taken : (x y : MarkdownNormalizer) (b : Bool) → b ≡ true → (if b then x else y) ≡ x
taken x y b e = rw e refl

passed : (x y : MarkdownNormalizer) (b : Bool) → b ≡ false → (if b then x else y) ≡ y
passed x y b e = rw e refl

pub emit-Emits :
    (line : List ℕ) (n : MarkdownNormalizer)
    → NoBreak line
    → n.consecutive_blanks < 255
    → Sound n
    → Emits line n (emit line n)
unfolding emit
emit-Emits line n h small s = elim (Bool-cases n.in_code_fence) [
  | inl fenced ↦
      subst (Emits line n) (sym (taken _ _ n.in_code_fence fenced)) (fenced-Emits line n h fenced s)
  | inr open_ ↦
      subst (Emits line n) (sym (passed _ _ n.in_code_fence open_))
        (as-Emits (classify line) line n h refl open_ small s)
]
