-- ===== src/ContentSaver/Htmd/DomTests.antt =====
-- The escapes, the walk and the tables of the converter (dom_walker.rs, table.rs) on concrete texts.
use kodegen_tools_citescrape.Base.{
  Bool, Option, ℕ, ◌≡◌, ◌↔◌, refl, some, [], ◌∷◌, List, true, false, codes, All,
}
use kodegen_tools_citescrape.ContentSaver.Htmd.Whitespace.{borrowed, text_of}
use kodegen_tools_citescrape.ContentSaver.Htmd.Markers.{
  index_of_markdown_ordered_item_dot, dot_loop,
}
use kodegen_tools_citescrape.ContentSaver.Htmd.HtmlEscape.{escape_html, escape_loop}
use kodegen_tools_citescrape.ContentSaver.Htmd.Strip.{trim_end_matches}
use kodegen_tools_citescrape.ContentSaver.Htmd.MarkdownEscape.{
  body_loop, escape_dot, handle_line_start_escaping, escape_if_needed, escape_pre_text_if_needed,
}
use kodegen_tools_citescrape.ContentSaver.Htmd.MarkdownEscape.Escaped.{unescape}
use kodegen_tools_citescrape.ContentSaver.Htmd.MarkdownEscape.RoundTrip.{unescape-escape_if_needed}
use kodegen_tools_citescrape.ContentSaver.Htmd.MarkdownEscape.Fence.{
  NoFence, escape_pre_text-NoFence,
}
use kodegen_tools_citescrape.ContentSaver.Htmd.DomWalker.{
  Node, text_node, element, Nodes, no_nodes, more, pure, HandlerResult, is_block_element,
  trim_buffer_end_spaces, normalize_content_for_buffer, drain_newlines,
}
use kodegen_tools_citescrape.ContentSaver.Htmd.DomWalker.Similar.{
  combine_similar_children, combine_loop,
}
use kodegen_tools_citescrape.ContentSaver.Htmd.DomWalker.Combine.{
  texts_in, NoneLeft, combine_similar_children_lem,
}
use kodegen_tools_citescrape.ContentSaver.Htmd.DomWalker.Walk.{
  push_handled, walk_node, walk_loop, walk_children,
}
use kodegen_tools_citescrape.ContentSaver.Htmd.DomWalker.Keeps.{Keeps, walk_children-Keeps}
use kodegen_tools_citescrape.ContentSaver.Htmd.Table.{
  Row, format_row_padded, format_separator_padded, compute_column_widths,
}
use kodegen_tools_citescrape.ContentSaver.Htmd.Table.Aligned.{IsLine, table_aligned}

item : text_of (escape_if_needed (codes "1. a*b")) ≡ codes "1\\. a\\*b"
unfolding escape_if_needed body_loop handle_line_start_escaping escape_dot escape_html escape_loop
    index_of_markdown_ordered_item_dot dot_loop
item = refl

unescape-escape_if_needed_example :
    unescape (text_of (escape_if_needed (codes "1. a*b"))) ≡ codes "1. a*b"
unescape-escape_if_needed_example = unescape-escape_if_needed (codes "1. a*b")

abbrev fence : List ℕ
fence = codes "```x"

escape_pre_text-NoFence_example :
    NoFence true (text_of (escape_pre_text_if_needed fence))
    × ((escape_pre_text_if_needed fence ≡ borrowed fence) ↔ NoFence true fence)
escape_pre_text-NoFence_example = escape_pre_text-NoFence fence

-- One line break of two stays after a buffer that ends with one.
one_break : normalize_content_for_buffer (codes "a\n") (codes "\n\nb") false ≡ codes "\nb"
unfolding normalize_content_for_buffer
one_break = refl

-- `<i>a</i><em>b</em>`
abbrev emphases : Nodes
emphases =
    more (element "i" [] (more (text_node (codes "a")) no_nodes))
      (more (element "em" [] (more (text_node (codes "b")) no_nodes)) no_nodes)

combine_similar_children_lem_example :
    (texts_in (combine_similar_children emphases) ≡ texts_in emphases)
    × NoneLeft (combine_similar_children emphases)
combine_similar_children_lem_example = combine_similar_children_lem emphases

abbrev names : Row
names = codes "k" ∷ codes "a|b" ∷ []

abbrev cells : List Row
cells = (codes "long" ∷ []) ∷ (codes "x\ny" ∷ codes "z" ∷ codes "no column" ∷ []) ∷ []

table_aligned_example :
    let widths = compute_column_widths names cells 2 in
    All (λ row. IsLine 2 widths (format_row_padded row 2 widths)) (names ∷ cells)
    × IsLine 2 widths (format_separator_padded 2 widths)
table_aligned_example = table_aligned names cells 2

-- Each element gives a paragraph.
abbrev paragraph : Node → Bool → Option HandlerResult
paragraph n is_pre = some (record { content = codes "\nx\n"; markdown_translated = true })

abbrev one_paragraph : Nodes
one_paragraph = more (element "p" [] no_nodes) no_nodes

-- The space before the paragraph is gone.
walked :
    (walk_children paragraph pure (some "div") one_paragraph (codes "a ") true false).0
    ≡ codes "a\nx\n"
unfolding walk_children walk_loop walk_node push_handled combine_similar_children combine_loop
    trim_buffer_end_spaces is_block_element normalize_content_for_buffer drain_newlines
    trim_end_matches
walked = refl

walk_children-Keeps_example :
    Keeps
      (trim_buffer_end_spaces (codes "a "))
      (walk_children paragraph pure (some "div") one_paragraph (codes "a ") true false).0
walk_children-Keeps_example =
    walk_children-Keeps paragraph pure (some "div") one_paragraph (codes "a ") true false
