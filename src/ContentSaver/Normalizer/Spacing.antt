-- ===== src/ContentSaver/Normalizer/Spacing.antt =====
-- The spacing of the lines that the normalizer (html_to_markdown.rs) writes.
use kodegen_tools_citescrape.Base.{
  ℕ, ◌≤◌, ◌≡◌, refl, sym, ap, ◌∙◌, true, false, List, [], ◌∷◌, ◌++◌, All, All-append, arith,
}
use kodegen_tools_citescrape.ContentSaver.Normalizer.{
  MarkdownNormalizer, emit, lines, emit_all, start, normalize,
}
use kodegen_tools_citescrape.ContentSaver.Normalizer.Lines.{NoBreak, lines-NoBreak}
use kodegen_tools_citescrape.ContentSaver.Normalizer.Spaced.{
  write_all, Spaced, RunsFit, write_all-append,
}
use kodegen_tools_citescrape.ContentSaver.Normalizer.Step.{From, Sound}
use kodegen_tools_citescrape.ContentSaver.Normalizer.Emits.{emit-Emits}

emit_all-Spaced :
    (ls : List (List ℕ)) (n : MarkdownNormalizer) (k : ℕ)
    → All NoBreak ls
    → RunsFit k ls
    → n.consecutive_blanks ≤ k
    → Sound n
    → (written : List (List ℕ)) × ((emit_all ls n).output ≡ write_all n.output written)
      × All NoBreak written
      × From n written
unfolding emit_all
emit_all-Spaced [] n k h fit le s = ([], refl, tt, tt)
emit_all-Spaced (line ∷ rest) n k h fit le s =
    let first = emit-Emits line n h.0 (omega (arith, fit.0)) s in
    let (later, same, clean, spaced) =
      emit_all-Spaced rest (emit line n) _ h.1 fit.1 (first.few k le) first.sound in
    (
      first.written ++ later,
      same
          ∙ ap (λ o. write_all o later) first.output
          ∙ sym (write_all-append n.output first.written later),
      All-append NoBreak first.written later first.no_break clean,
      first.spaced later spaced,
    )

-- The normalized text is lines that are put together with line breaks, empty ones at the start left
-- out, and those lines are spaced as they should be: outside of code fences no more than two are
-- blank in a row, none is a comment or a list item without text, and each heading, code fence and
-- rule comes first or after a blank line. The u8 counter must not wrap: the text has no 255 lines in
-- a row that are blank or possibly left out.
pub normalize-Spaced :
    (input : List ℕ)
    → RunsFit 0 (lines input)
    → (written : List (List ℕ)) × (normalize input ≡ write_all [] written)
      × All NoBreak written
      × Spaced false 0 true written
unfolding normalize
normalize-Spaced input fit =
    emit_all-Spaced (lines input) start 0 (lines-NoBreak input) fit (omega arith)
      (record { last = λ p. absurd (omega arith); fenced = λ e. refl })
