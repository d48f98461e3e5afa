-- ===== src/ContentSaver/Htmd/MarkdownEscape.antt =====
-- src/content_saver/markdown_converter/htmd/dom_walker.rs: the escapes that keep text from being
-- read as Markdown. A text is the list of its code points; the bytes that the source looks at are
-- of ASCII characters, and the slice from the last copied index is the list of the characters since.
pub mod Escaped
pub mod RoundTrip
pub mod Fence
use kodegen_tools_citescrape.Base.{
  ℕ, ◌+◌, Bool, true, false, not, ◌&&◌, ◌||◌, Option, none, some, List, [], ◌∷◌, ◌++◌, codes,
  starts_with, contains, leb, ◌==◌, if◌then◌else◌,
}
use kodegen_tools_citescrape.ContentSaver.Htmd.Whitespace.{Cow, borrowed, owned, text_of}
use kodegen_tools_citescrape.ContentSaver.Htmd.Markers.{
  is_markdown_atx_heading, index_of_markdown_ordered_item_dot, is_ascii_digit,
}
use kodegen_tools_citescrape.ContentSaver.Htmd.Strip.{prefix, suffix}
use kodegen_tools_citescrape.ContentSaver.Htmd.HtmlEscape.{escape_html}

-- `BODY_ESCAPE_LUT`, and the match of the loop: backslash, star, underscore, backtick, brackets.
abbrev pub body_escape : ℕ → Bool
body_escape c = (c == 92) || (c == 42) || (c == 95) || (c == 96) || (c == 91) || (c == 93)

-- `LINE_START_LUT`: `=`, `~`, `>`, `-`, `+`, `#` and the digits.
abbrev pub line_start : ℕ → Bool
line_start c =
    (c == 61) || (c == 126) || (c == 62) || (c == 45) || (c == 43) || (c == 35) || is_ascii_digit c

abbrev pub any_body : List ℕ → Bool
any_body [] = false
any_body (c ∷ cs) = body_escape c || any_body cs

abbrev pub allocated : Option (List ℕ) → List ℕ
allocated none = []
allocated (some r) = r

-- The loop and what finalises the text: the characters left, the result, those since the last copy.
unfoldable pub body_loop : List ℕ → List ℕ → Option (List ℕ) → List ℕ → List ℕ
body_loop text [] none segment = text
body_loop text [] (some r) segment = r ++ segment
body_loop text (ch ∷ cs) result segment =
    let escaped = body_loop text cs (some (allocated result ++ segment ++ 92 ∷ ch ∷ [])) [] in
    let plain = body_loop text cs result (segment ++ ch ∷ []) in
    if body_escape ch then escaped else plain

-- Whether the second character is a space.
abbrev pub second_is_space : List ℕ → Bool
second_is_space (c ∷ d ∷ cs) = d == 32
second_is_space _ = false

-- `replace_range` of the dot by an escaped dot.
unfoldable pub escape_dot : Option ℕ → List ℕ → List ℕ
escape_dot none escaped = escaped
escape_dot (some dot_idx) escaped = prefix dot_idx escaped ++ 92 ∷ 46 ∷ suffix (dot_idx + 1) escaped

unfoldable pub handle_line_start_escaping : List ℕ → ℕ → List ℕ
handle_line_start_escaping escaped first =
    if (first == 61) || (first == 126) || (first == 62)
    then 92 ∷ escaped
    else if (first == 45) || (first == 43)
    then (if second_is_space escaped then 92 ∷ escaped else escaped)
    else if first == 35
    then (if is_markdown_atx_heading escaped then 92 ∷ escaped else escaped)
    else if is_ascii_digit first
    then escape_dot (index_of_markdown_ordered_item_dot escaped) escaped
    else escaped

unfoldable pub escape_if_needed : List ℕ → Cow
escape_if_needed [] = borrowed []
escape_if_needed (first ∷ cs) =
    if not (any_body (first ∷ cs)) && not (line_start first)
    then escape_html (first ∷ cs)
    else escape_html
        (handle_line_start_escaping (body_loop (first ∷ cs) (first ∷ cs) none []) first)

-- A backtick or a tilde.
abbrev pub is_fence : ℕ → Bool
is_fence c = (c == 96) || (c == 126)

-- The loop over the characters, with `at_line_start`.
unfoldable pub fence_loop : List ℕ → Bool → List ℕ
fence_loop [] at_line_start = []
fence_loop (c ∷ cs) at_line_start =
    let rest = fence_loop cs (c == 10) in
    if at_line_start && is_fence c then 92 ∷ c ∷ rest else c ∷ rest

-- `text.contains` of a line break and the character.
abbrev pub after_break : ℕ → List ℕ → Bool
after_break fence [] = false
after_break fence (c ∷ []) = false
after_break fence (c ∷ d ∷ cs) = ((c == 10) && (d == fence)) || after_break fence (d ∷ cs)

unfoldable pub needs_escape : List ℕ → Bool
needs_escape [] = false
needs_escape (c ∷ cs) = is_fence c || after_break 96 (c ∷ cs) || after_break 126 (c ∷ cs)

unfoldable pub escape_pre_text_if_needed : List ℕ → Cow
unfolding needs_escape fence_loop
escape_pre_text_if_needed text =
    if needs_escape text then owned (fence_loop text true) else borrowed text
