-- ===== src/ContentSaver/Normalizer.antt =====
-- src/content_saver/markdown_converter/html_to_markdown.rs: the normalizer of Markdown, which reads a
-- text line by line. A text is the list of its code points. The u8 counter wraps, as it does in a
-- release build.
pub mod Lines
pub mod Headings
pub mod HeadingText
pub mod Spaced
pub mod Step
pub mod Emits
pub mod Spacing
mod Tests
use kodegen_tools_citescrape.Base.{
  ℕ, zero, suc, ◌+◌, ◌%◌, ◌^◌, Bool, true, false, not, ◌&&◌, ◌||◌, Option, none, some, List, [],
  ◌∷◌, ◌++◌, codes, length, replicate, starts_with, ends_with, leb, ltb, ◌==◌, if◌then◌else◌,
}
use kodegen_tools_citescrape.ContentSaver.Htmd.Whitespace.{is_whitespace}
use kodegen_tools_citescrape.ContentSaver.Htmd.Markers.{is_ascii_digit}
use kodegen_tools_citescrape.ContentSaver.Htmd.Strip.{trim_start_matches, suffix}
use kodegen_tools_citescrape.ContentSaver.Htmd.ListProcessing.{trim}
use kodegen_tools_citescrape.ContentSaver.Classify.{
  LineType, blank, heading, unordered_list, ordered_list, code_fence, blockquote, table_row,
  horizontal_rule, html_comment, empty_list_markers, paragraph, hash_count, after_hashes,
  empty_or_space, is_heading, is_horizontal_rule, is_ordered_list, is_bullet, is_empty_list_markers,
  fence_start, classify_rest, classify_trimmed, classify, needs_blank_before, is_blank,
  is_paragraph,
}

pub record MarkdownNormalizer : Type 0 where
  pub output : List ℕ
  pub prev_type : LineType
  pub consecutive_blanks : ℕ
  pub in_code_fence : Bool
  pub prev_was_heading : Bool

abbrev pub append_line : List ℕ → List ℕ → List ℕ
append_line output line = if length output == 0 then output ++ line else output ++ 10 ∷ line

unfoldable pub write_line : List ℕ → MarkdownNormalizer → MarkdownNormalizer
write_line line n = record n { output = append_line n.output line }

-- The whitespace before the text.
unfoldable pub indent_of : List ℕ → List ℕ
unfolding is_whitespace
indent_of [] = []
indent_of (c ∷ cs) = if is_whitespace c then c ∷ indent_of cs else []

-- A space goes between the hashes and the rest.
unfoldable pub normalize_heading : List ℕ → List ℕ
unfolding trim_start_matches is_whitespace indent_of
normalize_heading line =
    let trimmed = trim_start_matches is_whitespace line in
    let rest = after_hashes trimmed in
    if empty_or_space rest
    then line
    else indent_of line ++ replicate (hash_count trimmed) 35 ++ 32 ∷ rest

-- The text after the first double quote.
after_quote : List ℕ → Option (List ℕ)
after_quote [] = none
after_quote (c ∷ cs) = let later = after_quote cs in if c == 34 then some cs else later

link_end : Option (List ℕ) → Bool
unfolding starts_with ends_with
link_end none = false
link_end (some rest) = starts_with rest (codes "](#") && ends_with rest (codes ")")

unfoldable pub is_section_titled_link : List ℕ → Bool
unfolding trim starts_with after_quote link_end
is_section_titled_link line =
    let title = codes "[Section titled \"" in
    starts_with (trim line) title && link_end (after_quote (suffix (length title) (trim line)))

-- The line in a code fence.
unfoldable pub emit_fenced : List ℕ → MarkdownNormalizer → MarkdownNormalizer
unfolding trim_start_matches is_whitespace starts_with write_line
emit_fenced line n =
    let closes = fence_start (trim_start_matches is_whitespace line) in
    write_line line (if closes then record n { in_code_fence = false } else n)

unfoldable pub emit_blank : List ℕ → MarkdownNormalizer → MarkdownNormalizer
unfolding write_line
emit_blank line n =
    let blanks = (n.consecutive_blanks + 1) % 2 ^ 8 in
    let counted = record n { consecutive_blanks = blanks } in
    record (if leb blanks 2 then write_line line counted else counted) { prev_type = blank }

abbrev pub is_code_fence : LineType → Bool
is_code_fence code_fence = true
is_code_fence _ = false

abbrev pub is_heading_type : LineType → Bool
is_heading_type heading = true
is_heading_type _ = false

-- The line of the given type, outside of a fence and not blank.
unfoldable pub emit_line : LineType → List ℕ → MarkdownNormalizer → MarkdownNormalizer
unfolding write_line normalize_heading
emit_line line_type line n =
    let spaced =
      if needs_blank_before line_type && not (is_blank n.prev_type) then write_line [] n else n in
    let text = if is_heading_type line_type then normalize_heading line else line in
    record (write_line text spaced) {
      prev_was_heading = is_heading_type line_type;
      consecutive_blanks = 0;
      prev_type = line_type;
    }

unfoldable pub emit_other : LineType → List ℕ → MarkdownNormalizer → MarkdownNormalizer
unfolding is_section_titled_link emit_line
emit_other line_type line n =
    if n.prev_was_heading
      && is_blank n.prev_type
      && is_paragraph line_type
      && is_section_titled_link line
    then record n { prev_was_heading = false }
    else emit_line line_type line n

unfoldable pub emit_as : LineType → List ℕ → MarkdownNormalizer → MarkdownNormalizer
unfolding emit_blank emit_other
emit_as html_comment line n = n
emit_as empty_list_markers line n = n
emit_as blank line n = emit_blank line n
emit_as line_type line n = emit_other line_type line n

unfoldable pub emit : List ℕ → MarkdownNormalizer → MarkdownNormalizer
unfolding emit_fenced classify emit_as
emit line n =
    let line_type = classify line in
    if n.in_code_fence
    then emit_fenced line n
    else emit_as line_type line
        (record n { in_code_fence = if is_code_fence line_type then true else n.in_code_fence })

-- `str::lines`: the text left and the line so far.
unfoldable pub strip_return : List ℕ → List ℕ
strip_return [] = []
strip_return (c ∷ []) = if c == 13 then [] else c ∷ []
strip_return (c ∷ d ∷ cs) = c ∷ strip_return (d ∷ cs)

unfoldable pub lines_loop : List ℕ → List ℕ → List (List ℕ)
unfolding strip_return
lines_loop [] current = if length current == 0 then [] else current ∷ []
lines_loop (c ∷ cs) current =
    let ended = lines_loop cs [] in
    let longer = lines_loop cs (current ++ c ∷ []) in
    if c == 10 then strip_return current ∷ ended else longer

unfoldable pub lines : List ℕ → List (List ℕ)
unfolding lines_loop
lines text = lines_loop text []

unfoldable pub emit_all : List (List ℕ) → MarkdownNormalizer → MarkdownNormalizer
unfolding emit
emit_all [] n = n
emit_all (line ∷ rest) n = emit_all rest (emit line n)

abbrev pub start : MarkdownNormalizer
start = record {
  output = [];
  prev_type = blank;
  consecutive_blanks = 0;
  in_code_fence = false;
  prev_was_heading = false;
}

unfoldable pub normalize : List ℕ → List ℕ
unfolding emit_all lines
normalize input = (emit_all (lines input) start).output
