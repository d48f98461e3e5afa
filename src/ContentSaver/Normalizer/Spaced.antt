-- ===== src/ContentSaver/Normalizer/Spaced.antt =====
-- How the lines of a normalized text (html_to_markdown.rs) are spaced, and which texts are.
use kodegen_tools_citescrape.Base.{
  ℕ, suc, ◌+◌, ◌<◌, ◌≡◌, refl, Bool, true, false, not, ◌&&◌, List, [], ◌∷◌, ◌++◌, if◌then◌else◌,
}
use kodegen_tools_citescrape.ContentSaver.Htmd.Whitespace.{is_whitespace}
use kodegen_tools_citescrape.ContentSaver.Htmd.Strip.{trim_start_matches}
use kodegen_tools_citescrape.ContentSaver.Classify.{
  LineType, blank, html_comment, empty_list_markers, paragraph, fence_start, classify,
  needs_blank_before,
}
use kodegen_tools_citescrape.ContentSaver.Normalizer.{
  is_code_fence, append_line, is_section_titled_link,
}

-- The lines put together, after what was written before.
abbrev pub write_all : List ℕ → List (List ℕ) → List ℕ
write_all output [] = output
write_all output (line ∷ rest) = write_all (append_line output line) rest

-- A line outside of a code fence of the given type, after a run of blank lines, and whether the line
-- before it is blank or it is the first; what follows it is told the same.
abbrev pub LineFits : LineType → ℕ → Bool → (Bool → ℕ → Bool → Type 0) → Type 0
LineFits blank run after_blank Rest = (run < 2) × Rest false (run + 1) true
LineFits html_comment run after_blank Rest = ⊥
LineFits empty_list_markers run after_blank Rest = ⊥
LineFits type_ run after_blank Rest =
    ((needs_blank_before type_ && not after_blank) ≡ false) × Rest (is_code_fence type_) 0 false

-- The lines of a normalized text, given whether a code fence is open: outside of code fences at most
-- two blank lines in a row, no comment, no list item without text, and a blank line before each
-- heading, code fence and rule.
abbrev pub Spaced : Bool → ℕ → Bool → List (List ℕ) → Type 0
Spaced in_fence run after_blank [] = Unit {0}
Spaced true run after_blank (line ∷ rest) =
    Spaced (not (fence_start (trim_start_matches is_whitespace line))) run after_blank rest
Spaced false run after_blank (line ∷ rest) =
    LineFits (classify line) run after_blank (λ f r a. Spaced f r a rest)

abbrev pub resets_type : LineType → Bool → Bool
resets_type blank link = false
resets_type html_comment link = false
resets_type empty_list_markers link = false
resets_type paragraph link = not link
resets_type _ link = true

-- Whether the line is sure to be written and not blank, outside of a fence.
abbrev pub resets : List ℕ → Bool
resets line = resets_type (classify line) (is_section_titled_link line)

-- No 255 lines in a row are blank or possibly left out.
abbrev pub RunsFit : ℕ → List (List ℕ) → Type 0
RunsFit k [] = Unit {0}
RunsFit k (line ∷ rest) = (k < 255) × RunsFit (if resets line then 0 else suc k) rest

-- What one line makes of the normalizer.

pub write_all-append :
    (output : List ℕ) (xs ys : List (List ℕ))
    → write_all output (xs ++ ys) ≡ write_all (write_all output xs) ys
write_all-append output [] ys = refl
write_all-append output (x ∷ xs) ys = write_all-append (append_line output x) xs ys
