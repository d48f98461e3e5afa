-- ===== src/ContentSaver/Htmd/ListProcessing.antt =====
-- src/content_saver/markdown_converter/htmd/element_handler/list_processing.rs: nested HTML lists as Markdown
-- items with a depth and a marker. A text is the list of its code points. The DOM is that of the
-- crate markup5ever_rcdom, its nodes of other kinds without what is in them. The handlers of other
-- elements are an arbitrary function. A nested list is processed where it is met, which gives its
-- items in the same order as processing the nested lists of an item after its content.
pub mod Depths
pub mod Numbers
use kodegen_tools_citescrape.Base.{
  ℕ, zero, suc, ◌+◌, ◌-◌, ◌*◌, ◌/◌, ◌%◌, ◌^◌, String, str_eq, Bool, true, false, ◌&&◌, ◌||◌, Option,
  none, some, List, [], ◌∷◌, ◌++◌, codes, has, length, leb, ltb, ◌==◌, if◌then◌else◌,
}
use kodegen_tools_citescrape.ContentSaver.Htmd.Whitespace.{is_whitespace}
use kodegen_tools_citescrape.ContentSaver.Htmd.Strip.{trim_start_matches, trim_end_matches, join}

mutual
  pub data Node : Type 0 where
    text_node : List ℕ → Node
    element : String → List (String × List ℕ) → Nodes → Node
    other_node : Node

  pub data Nodes : Type 0 where
    no_nodes : Nodes
    more : Node → Nodes → Nodes

pub data ListMarker : Type 0 where
  bullet : ListMarker
  number : ℕ → ListMarker

pub record ListItem : Type 0 where
  pub content : List ℕ
  pub depth : ℕ
  pub marker : ListMarker

-- `str::trim`.
unfoldable pub trim : List ℕ → List ℕ
unfolding trim_end_matches trim_start_matches
trim text = trim_end_matches is_whitespace (trim_start_matches is_whitespace text)

abbrev usize_max : ℕ
usize_max = 2 ^ 64 - 1

-- The value of decimal digits, unless another character or too large a number is met.
unfoldable pub digits_value : List ℕ → ℕ → Option ℕ
digits_value [] value = some value
digits_value (c ∷ cs) value =
    let next = value * 10 + (c - 48) in
    let rest = digits_value cs next in
    if leb 48 c && leb c 57 && leb next usize_max then rest else none

unfoldable pub parse_digits : List ℕ → Option ℕ
unfolding digits_value
parse_digits [] = none
parse_digits (c ∷ cs) = digits_value (c ∷ cs) 0

-- `str::parse::<usize>`.
unfoldable pub parse_usize : List ℕ → Option ℕ
unfolding parse_digits
parse_usize [] = none
parse_usize (c ∷ cs) = if c == 43 then parse_digits cs else parse_digits (c ∷ cs)

abbrev or_one : Option ℕ → ℕ
or_one none = 1
or_one (some n) = n

-- `get_list_start_number`, of the attributes of an element.
unfoldable pub start_of : List (String × List ℕ) → ℕ
unfolding parse_usize
start_of [] = 1
start_of ((name, value) ∷ attrs) =
    let later = start_of attrs in if str_eq name "start" then or_one (parse_usize value) else later

unfoldable pub is_li_element : Node → Bool
is_li_element (element tag attrs children) = str_eq tag "li"
is_li_element _ = false

unfoldable pub is_block_element : String → Bool
is_block_element tag = has tag (
    "p" ∷ "pre" ∷ "div" ∷ "blockquote" ∷ "h1" ∷ "h2" ∷ "h3" ∷ "h4" ∷ "h5" ∷ "h6" ∷ "address"
    ∷ "article" ∷ "aside" ∷ "details" ∷ "dialog" ∷ "fieldset" ∷ "figcaption" ∷ "figure" ∷ "footer"
    ∷ "form" ∷ "header" ∷ "main" ∷ "nav" ∷ "section" ∷ "table" ∷ [])

unfoldable mutual
  pub extract_raw_text_from_node : Node → List ℕ
  extract_raw_text_from_node (text_node contents) = contents
  extract_raw_text_from_node (element tag attrs children) = raw_texts children
  extract_raw_text_from_node other_node = []

  pub raw_texts : Nodes → List ℕ
  raw_texts no_nodes = []
  raw_texts (more n ns) = extract_raw_text_from_node n ++ raw_texts ns

-- The Markdown of an inline element that its handler leaves.
unfoldable pub raw_format : String → List ℕ → List ℕ
raw_format tag trimmed =
    if str_eq tag "strong" || str_eq tag "b"
    then codes "**" ++ trimmed ++ codes "**"
    else if str_eq tag "em" || str_eq tag "i"
    then codes "*" ++ trimmed ++ codes "*"
    else if str_eq tag "code"
    then codes "`" ++ trimmed ++ codes "`"
    else trimmed

-- `inline_parts` and `block_parts`.
abbrev pub Parts : Type 0
Parts = List (List ℕ) × List (List ℕ)

abbrev push_inline : List ℕ → Parts → Parts
push_inline part (inline, block) =
    if length part == 0 then (inline, block) else (inline ++ part ∷ [], block)

abbrev push_block : List ℕ → Parts → Parts
push_block part (inline, block) =
    if length part == 0 then (inline, block) else (inline, block ++ part ∷ [])

handled_block : Option (List ℕ) → Parts → Parts
unfolding trim
handled_block none parts = parts
handled_block (some content) parts = push_block (trim content) parts

handled_inline : String → List ℕ → Option (List ℕ) → Parts → Parts
unfolding trim raw_format
handled_inline tag raw none parts =
    if length (trim raw) == 0 then parts else push_inline (raw_format tag (trim raw)) parts
handled_inline tag raw (some content) parts = push_inline (trim content) parts

-- One child of an `<li>`: a nested list adds to no part.
li_child : (Node → Option (List ℕ)) → Node → Parts → Parts
unfolding handled_block handled_inline is_block_element extract_raw_text_from_node trim
li_child handle (text_node contents) parts = push_inline (trim contents) parts
li_child handle (element tag attrs children) parts =
    if str_eq tag "ul" || str_eq tag "ol"
    then parts
    else if is_block_element tag
    then handled_block (handle (element tag attrs children)) parts
    else handled_inline tag (raw_texts children) (handle (element tag attrs children)) parts
li_child handle other_node parts = parts

li_children : (Node → Option (List ℕ)) → Nodes → Parts → Parts
unfolding li_child
li_children handle no_nodes parts = parts
li_children handle (more n ns) parts = li_children handle ns (li_child handle n parts)

-- `process_li_children`: the text of an `<li>`.
unfoldable pub li_content : (Node → Option (List ℕ)) → Nodes → List ℕ
unfolding li_children join
li_content handle children =
    let (inline_parts, block_parts) = li_children handle children ([], []) in
    let inline_content = join (32 ∷ []) inline_parts in
    join (10 ∷ [])
      (if length inline_content == 0 then block_parts else inline_content ∷ block_parts)

abbrev pub marker_for : Bool → ℕ → ListMarker
marker_for is_ordered counter = if is_ordered then number counter else bullet

-- The item of an `<li>`, if it has content.
unfoldable pub own_item : (Node → Option (List ℕ)) → ℕ → Bool → ℕ → Nodes → List ListItem
unfolding li_content trim
own_item handle depth is_ordered counter children =
    let trimmed_content = trim (li_content handle children) in
    if length trimmed_content == 0
    then []
    else record { content = trimmed_content; depth = depth; marker = marker_for is_ordered counter }
      ∷ []

-- `process_list_recursive`: the children of a list, one `<li>`, and the lists nested in it. The
-- counter is a usize and wraps, as in a release build; a debug build panics there.
unfoldable mutual
  pub list_items : (Node → Option (List ℕ)) → ℕ → Bool → ℕ → Nodes → List ListItem
  list_items handle depth is_ordered counter no_nodes = []
  list_items handle depth is_ordered counter (more child ns) =
      let items = item_of handle depth is_ordered counter child in
      let counted = list_items handle depth is_ordered ((counter + 1) % 2 ^ 64) ns in
      let uncounted = list_items handle depth is_ordered counter ns in
      if is_li_element child
      then items ++ (if is_ordered then counted else uncounted)
      else uncounted

  pub item_of : (Node → Option (List ℕ)) → ℕ → Bool → ℕ → Node → List ListItem
  item_of handle depth is_ordered counter (element tag attrs children) =
      own_item handle depth is_ordered counter children ++ nested_items handle (depth + 1) children
  item_of handle depth is_ordered counter _ = []

  pub nested_items : (Node → Option (List ℕ)) → ℕ → Nodes → List ListItem
  nested_items handle depth no_nodes = []
  nested_items handle depth (more n ns) = nested_of handle depth n ++ nested_items handle depth ns

  pub nested_of : (Node → Option (List ℕ)) → ℕ → Node → List ListItem
  nested_of handle depth (element tag attrs children) =
      let plain = list_items handle depth false 1 children in
      let numbered = list_items handle depth true (start_of attrs) children in
      if str_eq tag "ul" then plain else if str_eq tag "ol" then numbered else []
  nested_of handle depth _ = []

-- `process_list` up to the formatting of the items.
unfoldable pub process_list :
    (Node → Option (List ℕ)) → List (String × List ℕ) → Nodes → Bool → List ListItem
unfolding list_items start_of
process_list handle attrs children is_ordered =
    list_items handle 0 is_ordered (if is_ordered then start_of attrs else 1) children
