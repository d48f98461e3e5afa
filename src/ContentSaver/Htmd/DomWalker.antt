-- ===== src/ContentSaver/Htmd/DomWalker.antt =====
-- src/content_saver/markdown_converter/htmd/dom_walker.rs: the walk over the children of a node, and
-- the buffer that it writes. A text is the list of its code points. The DOM is that of the crate
-- markup5ever_rcdom, where the names of elements are their local names, and template contents and
-- MathML flags are left out; a document is the list of its children. What the element handlers
-- return for an element is an arbitrary function; they call `walk_children` for what is in it.
pub mod Buffer
pub mod Similar
pub mod Combine
pub mod Walk
pub mod Keeps
use kodegen_tools_citescrape.Base.{
  ℕ, zero, suc, ◌+◌, ◌-◌, String, str_eq, Bool, true, false, not, ◌&&◌, ◌||◌, Option, none, some,
  List, [], ◌∷◌, ◌++◌, codes, has, length, same_text, min, leb, ltb, ◌==◌, if◌then◌else◌,
}
use kodegen_tools_citescrape.ContentSaver.Htmd.Whitespace.{text_of, compress_whitespace}
use kodegen_tools_citescrape.ContentSaver.Htmd.Strip.{trim_start_matches, trim_end_matches, suffix}
use kodegen_tools_citescrape.ContentSaver.Htmd.MarkdownEscape.{
  escape_if_needed, escape_pre_text_if_needed,
}

abbrev pub Attrs : Type 0
Attrs = List (String × List ℕ)

mutual
  pub data Node : Type 0 where
    text_node : List ℕ → Node
    element : String → Attrs → Nodes → Node
    comment : List ℕ → Node
    doctype : Node
    instruction : List ℕ → List ℕ → Node

  pub data Nodes : Type 0 where
    no_nodes : Nodes
    more : Node → Nodes → Nodes

pub data TranslationMode : Type 0 where
  pure faithful : TranslationMode

pub record HandlerResult : Type 0 where
  pub content : List ℕ
  pub markdown_translated : Bool

unfoldable pub is_block_element : String → Bool
is_block_element tag = has tag (
    "address" ∷ "article" ∷ "aside" ∷ "base" ∷ "basefont" ∷ "blockquote" ∷ "body" ∷ "caption"
    ∷ "center" ∷ "col" ∷ "colgroup" ∷ "dd" ∷ "details" ∷ "dialog" ∷ "dir" ∷ "div" ∷ "dl" ∷ "dt"
    ∷ "fieldset" ∷ "figcaption" ∷ "figure" ∷ "footer" ∷ "form" ∷ "frame" ∷ "frameset" ∷ "h1" ∷ "h2"
    ∷ "h3" ∷ "h4" ∷ "h5" ∷ "h6" ∷ "head" ∷ "header" ∷ "hr" ∷ "html" ∷ "iframe" ∷ "legend" ∷ "li"
    ∷ "link" ∷ "main" ∷ "menu" ∷ "menuitem" ∷ "nav" ∷ "noframes" ∷ "ol" ∷ "optgroup" ∷ "option"
    ∷ "p" ∷ "param" ∷ "pre" ∷ "script" ∷ "search" ∷ "section" ∷ "style" ∷ "summary" ∷ "table"
    ∷ "tbody" ∷ "td" ∷ "textarea" ∷ "tfoot" ∷ "th" ∷ "thead" ∷ "title" ∷ "tr" ∷ "track" ∷ "ul" ∷ [])

unfoldable pub trim_buffer_end : List ℕ → List ℕ
unfolding trim_end_matches
trim_buffer_end = trim_end_matches (λ c. (c == 10) || (c == 9) || (c == 32))

unfoldable pub trim_buffer_end_spaces : List ℕ → List ℕ
unfolding trim_end_matches
trim_buffer_end_spaces = trim_end_matches (λ c. c == 32)

-- The line breaks at the start of a text.
abbrev pub leading_newlines : List ℕ → ℕ
leading_newlines [] = 0
leading_newlines (c ∷ cs) = if c == 10 then suc (leading_newlines cs) else 0

-- The line breaks at its end.
abbrev pub trailing_newlines : List ℕ → ℕ
trailing_newlines [] = 0
trailing_newlines (c ∷ cs) =
    let later = trailing_newlines cs in
    if (c == 10) && (later == length cs) then suc later else later

abbrev pub ends_with_space : List ℕ → Bool
ends_with_space [] = false
ends_with_space (c ∷ []) = c == 32
ends_with_space (c ∷ d ∷ cs) = ends_with_space (d ∷ cs)

abbrev pub starts_with_space : List ℕ → Bool
starts_with_space [] = false
starts_with_space (c ∷ cs) = c == 32

-- `content.drain(..to_remove)`, where the newlines are too many.
unfoldable pub drain_newlines : ℕ → ℕ → List ℕ → List ℕ
drain_newlines last_newlines content_newlines content =
    let total_newlines = last_newlines + content_newlines in
    if ltb 2 total_newlines
    then suffix (min (total_newlines - 2) content_newlines) content
    else content

unfoldable pub normalize_content_for_buffer : List ℕ → List ℕ → Bool → List ℕ
unfolding drain_newlines
normalize_content_for_buffer buffer content is_pre =
    let last_newlines = trailing_newlines buffer in
    let content_newlines = leading_newlines content in
    let drained = drain_newlines last_newlines content_newlines content in
    if length buffer == 0
    then content
    else if not is_pre
        && (last_newlines == 0)
        && (content_newlines == 0)
        && ends_with_space buffer
        && starts_with_space drained
    then suffix 1 drained
    else drained
