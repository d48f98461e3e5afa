-- ===== src/ContentSaver/Htmd/DomWalker/Similar.antt =====
-- `combine_similar_children` of dom_walker.rs: neighbours that are the same element of one text each.
use kodegen_tools_citescrape.Base.{
  ℕ, String, str_eq, Bool, true, false, not, ◌&&◌, ◌||◌, Option, none, some, List, [], ◌∷◌, ◌++◌,
  same_text, if◌then◌else◌,
}
use kodegen_tools_citescrape.ContentSaver.Htmd.DomWalker.{
  Attrs, Node, text_node, element, Nodes, no_nodes, more, is_block_element,
}

abbrev pub same_attrs : Attrs → Attrs → Bool
same_attrs [] [] = true
same_attrs ((n, v) ∷ rest) ((m, w) ∷ others) = str_eq n m && same_text v w && same_attrs rest others
same_attrs _ _ = false

-- The same element for the combination: `i` is `em`, and `b` is `strong`.
unfoldable pub similar : String → String → Bool
similar name1 name2 =
    not (str_eq name1 "a")
    && (str_eq name1 name2
        || (str_eq name1 "i" && str_eq name2 "em")
        || (str_eq name1 "em" && str_eq name2 "i")
        || (str_eq name1 "b" && str_eq name2 "strong")
        || (str_eq name1 "strong" && str_eq name2 "b"))

-- An element whose children are a single text: its name, its attributes and the text.
abbrev pub only_text : Node → Option (String × Attrs × List ℕ)
only_text (element tag attrs (more (text_node contents) no_nodes)) = some (tag, attrs, contents)
only_text (element tag attrs (more (text_node contents) (more n ns))) = none
only_text (element tag attrs (more _ nodes)) = none
only_text (element tag attrs no_nodes) = none
only_text (text_node contents) = none
only_text _ = none

abbrev pub combine_texts :
    Option (String × Attrs × List ℕ) → Option (String × Attrs × List ℕ) → Option (List ℕ)
combine_texts (some (name1, attrs1, contents1)) (some (name2, attrs2, contents2)) =
    if not (is_block_element name1) && similar name1 name2 && same_attrs attrs1 attrs2
    then some contents2
    else none
combine_texts none _ = none
combine_texts (some _) none = none

-- The text of the second node, where the nodes are combined.
abbrev pub can_combine : Node → Node → Option (List ℕ)
can_combine n1 n2 = combine_texts (only_text n1) (only_text n2)

-- The text is appended to the first child of the node written last.
abbrev pub append_text : Node → List ℕ → Node
append_text (element tag attrs (more (text_node contents) nodes)) text =
    element tag attrs (more (text_node (contents ++ text)) nodes)
append_text node text = node

-- The loop of `combine_similar_children`: the node at `write_idx`, and those to be read.
unfoldable pub combine_loop : Node → Nodes → Nodes
combine_loop node no_nodes = more node no_nodes
combine_loop node (more child nodes) = elim (can_combine node child) [
  | some text ↦ combine_loop (append_text node text) nodes
  | none ↦ more node (combine_loop child nodes)
]

unfoldable pub combine_similar_children : Nodes → Nodes
unfolding combine_loop
combine_similar_children no_nodes = no_nodes
combine_similar_children (more child nodes) = combine_loop child nodes
