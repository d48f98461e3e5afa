-- ===== src/ContentSaver/Htmd/Markers.antt =====
-- src/content_saver/markdown_converter/htmd/text_util.rs: the tests that tell whether a text would
-- be read as a Markdown heading or as an item of an ordered list. A text is the list of its code
-- points, and an index counts its bytes.
pub mod Shape
use kodegen_tools_citescrape.Base.{
  ℕ, ◌+◌, Bool, true, false, ◌&&◌, Option, none, some, List, [], ◌∷◌, leb, ltb, ◌==◌, if◌then◌else◌,
}

-- The loop of `is_markdown_atx_heading`, with `is_prev_ch_hash`.
unfoldable pub heading_loop : List ℕ → Bool → Bool
heading_loop [] is_prev_ch_hash = false
heading_loop (ch ∷ text) is_prev_ch_hash =
    let rest = heading_loop text true in
    if ch == 35 then rest else if ch == 32 then is_prev_ch_hash else false

unfoldable pub is_markdown_atx_heading : List ℕ → Bool
is_markdown_atx_heading text = heading_loop text false

-- The bytes of a character in UTF-8.
abbrev pub len_utf8 : ℕ → ℕ
len_utf8 c = if ltb c 128 then 1 else if ltb c 2048 then 2 else if ltb c 65536 then 3 else 4

abbrev pub is_ascii_digit : ℕ → Bool
is_ascii_digit c = leb 48 c && leb c 57

-- The loop of `index_of_markdown_ordered_item_dot`: the text left, the byte index of its first
-- character, and the loop's variables.
unfoldable pub dot_loop : List ℕ → ℕ → Bool → Bool → ℕ → Option ℕ
dot_loop [] byte_index is_prev_ch_numeric is_prev_ch_dot dot_byte_index = none
dot_loop (ch ∷ text) byte_index is_prev_ch_numeric is_prev_ch_dot dot_byte_index =
    let next = byte_index + len_utf8 ch in
    let digit = dot_loop text next true is_prev_ch_dot dot_byte_index in
    let dot = dot_loop text next is_prev_ch_numeric true byte_index in
    if is_ascii_digit ch
    then (if is_prev_ch_dot then none else digit)
    else if ch == 46
    then (if is_prev_ch_numeric then dot else none)
    else if ch == 32
    then (if is_prev_ch_dot then some dot_byte_index else none)
    else none

unfoldable pub index_of_markdown_ordered_item_dot : List ℕ → Option ℕ
index_of_markdown_ordered_item_dot text = dot_loop text 0 false false 0
