-- ===== src/ContentSaver/Normalizer/Tests.antt =====
-- The normalizer (html_to_markdown.rs) on a short text.
use kodegen_tools_citescrape.Base.{
  ℕ, ◌≡◌, ◌<◌, ◌⊎◌, ◌∷◌, ◌++◌, refl, true, false, List, [], All, arith, codes, starts_with,
  ends_with,
}
use kodegen_tools_citescrape.ContentSaver.Htmd.Whitespace.{is_whitespace}
use kodegen_tools_citescrape.ContentSaver.Htmd.Strip.{trim_start_matches, trim_end_matches}
use kodegen_tools_citescrape.ContentSaver.Htmd.ListProcessing.{trim}
use kodegen_tools_citescrape.ContentSaver.Classify.{
  heading, paragraph, is_horizontal_rule, is_ordered_list, markers_loop, is_empty_list_markers,
  classify_rest, classify_trimmed, classify, hash_count, after_hashes,
}
use kodegen_tools_citescrape.ContentSaver.Normalizer.{
  write_line, indent_of, normalize_heading, is_section_titled_link, emit_fenced, emit_blank,
  emit_line, emit_other, emit_as, emit, strip_return, lines_loop, lines, emit_all, normalize,
}
use kodegen_tools_citescrape.ContentSaver.Normalizer.Lines.{NoBreak}
use kodegen_tools_citescrape.ContentSaver.Normalizer.Headings.{hashes}
use kodegen_tools_citescrape.ContentSaver.Normalizer.HeadingText.{White, normalize_heading_lem}
use kodegen_tools_citescrape.ContentSaver.Normalizer.Spaced.{write_all, Spaced, RunsFit}
use kodegen_tools_citescrape.ContentSaver.Normalizer.Spacing.{normalize-Spaced}

abbrev text : List ℕ
text = codes "a\n## B\n\n\n\n\n* *\n```\n\n\n\n```\n1. c"

-- A blank line goes before the heading, two of the four stay after it, and the fence is kept.
normalized : normalize text ≡ codes "a\n\n## B\n\n\n```\n\n\n\n```\n1. c"
unfolding normalize emit_all emit lines lines_loop strip_return classify classify_trimmed
    classify_rest trim trim_start_matches trim_end_matches is_whitespace starts_with ends_with
    is_horizontal_rule is_empty_list_markers markers_loop is_ordered_list emit_as emit_other
    emit_blank emit_line emit_fenced write_line normalize_heading is_section_titled_link
normalized = refl

-- A line with a hash but without the space is a paragraph, and stays.
no_heading : classify (codes "##B") ≡ paragraph
unfolding classify classify_trimmed classify_rest trim trim_start_matches trim_end_matches
    is_whitespace starts_with ends_with is_horizontal_rule is_empty_list_markers markers_loop
    is_ordered_list
no_heading = refl

-- A tab follows the hashes, and the space is put before it.
is_heading_line : classify (codes "  ##\t") ≡ heading
unfolding classify classify_trimmed trim trim_start_matches trim_end_matches is_whitespace
    starts_with
is_heading_line = refl

normalize_heading_lem_example :
    let line = codes "  ##\t" in
    let t = trim_start_matches is_whitespace line in
    (line ≡ indent_of line ++ (hashes t ++ after_hashes t))
    × (0 < hash_count t)
    × ((normalize_heading line ≡ line)
        ⊎ (All White (after_hashes t)
            × (normalize_heading line ≡ indent_of line ++ (hashes t ++ 32 ∷ after_hashes t))))
normalize_heading_lem_example = normalize_heading_lem (codes "  ##\t") is_heading_line

text_fits : RunsFit 0 (lines text)
unfolding lines lines_loop strip_return classify classify_trimmed classify_rest trim
    trim_start_matches trim_end_matches is_whitespace starts_with ends_with is_horizontal_rule
    is_empty_list_markers markers_loop is_ordered_list is_section_titled_link
text_fits = ground arith

normalize-Spaced_example :
    (written : List (List ℕ)) × (normalize text ≡ write_all [] written)
    × All NoBreak written
    × Spaced false 0 true written
normalize-Spaced_example = normalize-Spaced text text_fits
