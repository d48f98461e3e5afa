-- ===== src/ContentSaver/Htmd/HtmlEscape.antt =====
-- src/content_saver/markdown_converter/htmd/html_escape.rs: the backslashes that keep text from
-- being read as HTML. A text is the list of its code points; the slice from the last copied index
-- is the list of the characters read since then.
pub mod Inert
use kodegen_tools_citescrape.Base.{
  ℕ, Bool, true, false, not, ◌&&◌, ◌||◌, List, [], ◌∷◌, ◌++◌, codes, starts_with, leb, ◌==◌,
  if◌then◌else◌,
}
use kodegen_tools_citescrape.ContentSaver.Htmd.Whitespace.{Cow, borrowed, owned}

abbrev pub is_ascii_alphabetic : ℕ → Bool
is_ascii_alphabetic c = (leb 65 c && leb c 90) || (leb 97 c && leb c 122)

abbrev pub starts_alphabetic : List ℕ → Bool
starts_alphabetic [] = false
starts_alphabetic (c ∷ cs) = is_ascii_alphabetic c

abbrev pub cdata : List ℕ
cdata = codes "[CDATA["

abbrev pub escaped_cdata : List ℕ
escaped_cdata = codes "\\[CDATA\\["

-- The match on the character after `<`, where the rest of the text follows.
unfoldable pub after_open : ℕ → List ℕ → Bool
after_open next rest =
    if next == 33
    then not (starts_with rest cdata || starts_with rest escaped_cdata)
    else if next == 63
    then true
    else if next == 47
    then starts_alphabetic rest
    else is_ascii_alphabetic next

unfoldable pub should_escape_html_like_sequence : List ℕ → Bool
should_escape_html_like_sequence [] = false
should_escape_html_like_sequence (c ∷ []) = false
should_escape_html_like_sequence (c ∷ next ∷ rest) = if c == 60 then after_open next rest else false

-- `src.contains('<')`.
abbrev pub has_open : List ℕ → Bool
has_open [] = false
has_open (c ∷ cs) = (c == 60) || has_open cs

-- The loop over the whole text, and what follows it: the text left, `escaped`, the characters from
-- the last copied index, `modified`.
unfoldable pub escape_loop : List ℕ → List ℕ → List ℕ → List ℕ → Bool → Cow
escape_loop text [] escaped segment modified =
    if not modified then borrowed text else owned (escaped ++ segment)
escape_loop text (ch ∷ src) escaped segment modified =
    let skip = escape_loop text src escaped (segment ++ ch ∷ []) modified in
    let escape = escape_loop text src (escaped ++ segment ++ 92 ∷ 60 ∷ []) [] true in
    if not (ch == 60)
    then skip
    else if should_escape_html_like_sequence (ch ∷ src)
    then escape
    else skip

unfoldable pub escape_html : List ℕ → Cow
escape_html text = if not (has_open text) then borrowed text else escape_loop text text [] [] false
