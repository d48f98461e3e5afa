-- ===== src/ContentSaver/Htmd/Tests.antt =====
-- The text functions of the Markdown converter (text_util.rs, html_escape.rs) on concrete texts.
use kodegen_tools_citescrape.Base.{
  none, [], ◌∷◌, String, ℕ, ◌≡◌, refl, true, false, some, List, codes, starts_with, arith,
}
use kodegen_tools_citescrape.ContentSaver.Htmd.Whitespace.{
  borrowed, owned, text_of, is_whitespace, compress_loop, compress_whitespace,
}
use kodegen_tools_citescrape.ContentSaver.Htmd.Markers.{
  heading_loop, is_markdown_atx_heading, dot_loop, index_of_markdown_ordered_item_dot,
}
use kodegen_tools_citescrape.ContentSaver.Htmd.HtmlEscape.{
  after_open, should_escape_html_like_sequence, escape_loop, escape_html,
}
use kodegen_tools_citescrape.ContentSaver.Htmd.HtmlEscape.Inert.{Inert, escape_html-Inert}
use kodegen_tools_citescrape.ContentSaver.Htmd.ListProcessing.{
  Nodes, no_nodes, more, text_node, element, digits_value, parse_digits, parse_usize, start_of,
  is_li_element, process_list,
}
use kodegen_tools_citescrape.ContentSaver.Htmd.ListProcessing.Numbers.{
  Fits, InOrder, process_list-InOrder,
}

abbrev spaced : List ℕ
spaced = codes "a  b\nc"

compressed : compress_whitespace spaced ≡ owned (codes "a b c")
unfolding compress_whitespace compress_loop is_whitespace
compressed = refl

unchanged : compress_whitespace (codes " a b") ≡ borrowed (codes " a b")
unfolding compress_whitespace compress_loop is_whitespace
unchanged = refl

heading : is_markdown_atx_heading (codes "## x") ≡ true
unfolding is_markdown_atx_heading heading_loop
heading = refl

two_dots : index_of_markdown_ordered_item_dot (codes "12.. x") ≡ some 3
unfolding index_of_markdown_ordered_item_dot dot_loop
two_dots = refl

escaped : escape_html (codes "<p>a < b</p>") ≡ owned (codes "\\<p>a < b\\</p>")
unfolding escape_html escape_loop should_escape_html_like_sequence after_open starts_with
escaped = refl

escape_html-Inert_example : Inert false (text_of (escape_html (codes "<p>a</p>")))
escape_html-Inert_example = escape_html-Inert (codes "<p>a</p>")

-- Two items, the second without text but with a nested list.
abbrev list_children : Nodes
list_children = more (element "li" [] (more (text_node (codes "a")) no_nodes)) (
    more
      (element "li" [] (
        more
          (element "ul" []
            (more (element "li" [] (more (text_node (codes "b")) no_nodes)) no_nodes))
          no_nodes))
      (more (element "li" [] (more (text_node (codes "c")) no_nodes)) no_nodes))

abbrev starts_at_5 : List (String × List ℕ)
starts_at_5 = ("start", codes "5") ∷ []

five_fits : Fits true (start_of starts_at_5) list_children
unfolding start_of parse_usize parse_digits digits_value is_li_element
five_fits = omega arith

process_list-InOrder_example :
    InOrder true 0 (start_of starts_at_5) (process_list (λ n. none) starts_at_5 list_children true)
process_list-InOrder_example =
    process_list-InOrder (λ n. none) starts_at_5 list_children true five_fits
