-- ===== src/ContentSaver/Htmd/DomWalker/Walk.antt =====
-- The walk over the nodes of a document (dom_walker.rs), which writes the buffer.
use kodegen_tools_citescrape.Base.{
  ℕ, String, str_eq, Bool, true, false, not, ◌&&◌, ◌||◌, Option, none, some, List, ◌∷◌, ◌++◌, codes,
  length, ltb, ◌==◌, if◌then◌else◌,
}
use kodegen_tools_citescrape.ContentSaver.Htmd.Whitespace.{text_of, compress_whitespace}
use kodegen_tools_citescrape.ContentSaver.Htmd.Strip.{trim_start_matches}
use kodegen_tools_citescrape.ContentSaver.Htmd.MarkdownEscape.{
  escape_if_needed, escape_pre_text_if_needed,
}
use kodegen_tools_citescrape.ContentSaver.Htmd.DomWalker.{
  Node, text_node, element, comment, doctype, instruction, Nodes, no_nodes, more, TranslationMode,
  pure, faithful, HandlerResult, is_block_element, trim_buffer_end, trim_buffer_end_spaces,
  normalize_content_for_buffer, ends_with_space, starts_with_space,
}
use kodegen_tools_citescrape.ContentSaver.Htmd.DomWalker.Similar.{combine_similar_children}

-- The text branch of `walk_node`.
abbrev pub is_pre_tag : Option String → Bool
is_pre_tag none = false
is_pre_tag (some tag) = str_eq tag "pre"

unfoldable pub walk_text : List ℕ → List ℕ → Option String → Bool → Bool → List ℕ
unfolding trim_start_matches
walk_text contents buffer parent_tag trim_leading_spaces is_pre =
    let escaped = text_of (compress_whitespace (text_of (escape_if_needed contents))) in
    if is_pre
    then buffer
      ++ (if is_pre_tag parent_tag then text_of (escape_pre_text_if_needed contents) else contents)
    else if trim_leading_spaces || (starts_with_space escaped && ends_with_space buffer)
    then buffer ++ trim_start_matches (λ c. c == 32) escaped
    else buffer ++ escaped

-- The element branch: what the handler returned goes into the buffer.
unfoldable pub push_handled : String → List ℕ → Bool → Option HandlerResult → List ℕ × Bool
unfolding normalize_content_for_buffer
push_handled tag buffer is_pre none = (buffer, true)
push_handled tag buffer is_pre (some res) =
    if not (length res.content == 0) || not (str_eq tag "head")
    then (buffer ++ normalize_content_for_buffer buffer res.content is_pre, res.markdown_translated)
    else (buffer, res.markdown_translated)

abbrev pub in_faithful : TranslationMode → List ℕ → List ℕ → List ℕ
in_faithful faithful markup buffer = buffer ++ markup
in_faithful pure markup buffer = buffer

module _ (handle : Node → Bool → Option HandlerResult) (mode : TranslationMode) where
  unfoldable pub walk_node : Node → List ℕ → Option String → Bool → Bool → List ℕ × Bool
  unfolding walk_text push_handled
  walk_node (text_node contents) buffer parent_tag trim_leading_spaces is_pre =
      (walk_text contents buffer parent_tag trim_leading_spaces is_pre, true)
  walk_node (element tag attrs children) buffer parent_tag trim_leading_spaces is_pre =
      push_handled tag buffer is_pre (handle (element tag attrs children) is_pre)
  walk_node (comment contents) buffer parent_tag trim_leading_spaces is_pre =
      (in_faithful mode (codes "<!--" ++ contents ++ codes "-->") buffer, true)
  walk_node doctype buffer parent_tag trim_leading_spaces is_pre = (buffer, true)
  walk_node (instruction target contents) buffer parent_tag trim_leading_spaces is_pre =
      (in_faithful mode (codes "<!--?" ++ target ++ 32 ∷ contents ++ codes "?-->") buffer, true)

  abbrev pub is_block : Node → Bool
  is_block (element tag attrs children) = is_block_element tag
  is_block _ = false

  -- The loop of `walk_children`, with `trim_leading_spaces` and `markdown_translated`.
  unfoldable pub walk_loop : Option String → Bool → Nodes → List ℕ → Bool → Bool → List ℕ × Bool
  unfolding is_block_element trim_buffer_end_spaces walk_node
  walk_loop tag is_pre no_nodes buffer trim translated = (buffer, translated)
  walk_loop tag is_pre (more child nodes) buffer trim translated =
      let before = if is_block child then trim_buffer_end_spaces buffer else buffer in
      let (after, ok) = walk_node child before tag trim is_pre in
      walk_loop tag is_pre nodes after
        (if ltb (length before) (length after) then is_block child else trim) (translated && ok)

  -- `walk_children`, of a node with the tag, whose children are combined first.
  unfoldable pub walk_children : Option String → Nodes → List ℕ → Bool → Bool → List ℕ × Bool
  unfolding walk_loop combine_similar_children
  walk_children tag children buffer is_parent_block_element is_pre =
      walk_loop tag is_pre (combine_similar_children children) buffer
        (not is_pre && is_parent_block_element) true

  -- The document branch of `walk_node`.
  unfoldable pub walk_document : Nodes → List ℕ → List ℕ
  unfolding walk_children trim_buffer_end
  walk_document children buffer = trim_buffer_end (walk_children none children buffer true false).0
