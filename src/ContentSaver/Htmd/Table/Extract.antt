-- ===== src/ContentSaver/Htmd/Table/Extract.antt =====
-- The walk over the children of a table, and the handler that writes the table (table.rs), with
-- `get_attr` of element_util.rs.
use kodegen_tools_citescrape.Base.{
  ℕ, String, str_eq, Bool, true, false, not, ◌&&◌, ◌||◌, Option, none, some, List, [], ◌∷◌, ◌++◌,
  length, max, ltb, ◌==◌, if◌then◌else◌,
}
use kodegen_tools_citescrape.ContentSaver.Htmd.Strip.{
  trim_start_matches, trim_end_matches, trim_document_whitespace,
}
use kodegen_tools_citescrape.ContentSaver.Htmd.ListProcessing.{trim}
use kodegen_tools_citescrape.ContentSaver.Htmd.DomWalker.{
  Attrs, Node, element, Nodes, no_nodes, more, HandlerResult, TranslationMode, pure, faithful,
}
use kodegen_tools_citescrape.ContentSaver.Htmd.Table.{
  Row, format_row_padded, format_separator_padded, compute_column_widths,
}

-- `get_attr`: the first attribute of the name, unless its value is blank.
unfoldable pub get_attr : String → Attrs → Option (List ℕ)
unfolding trim
get_attr name [] = none
get_attr name ((n, value) ∷ attrs) =
    let later = get_attr name attrs in
    if str_eq n name then (if length (trim value) == 0 then none else some value) else later

-- The first attribute that labels the header, trimmed, or nothing.
label_or : Option (List ℕ) → List ℕ → List ℕ
unfolding trim
label_or none other = other
label_or (some label) other = if length (trim label) == 0 then other else trim label

unfoldable pub extract_header_text : List ℕ → Attrs → List ℕ
unfolding label_or get_attr trim
extract_header_text cell_content attrs =
    if length (trim cell_content) == 0
    then label_or (get_attr "aria-label" attrs)
        (label_or (get_attr "data-label" attrs) (label_or (get_attr "title" attrs) []))
    else trim cell_content

-- A table as far as it has been read.
pub record Table : Type 0 where
  pub captions : List (List ℕ)
  pub headers : Row
  pub rows : List Row
  pub has_thead : Bool
  pub all_children_translated : Bool

abbrev pub empty_table : Table
empty_table = record {
  captions = [];
  headers = [];
  rows = [];
  has_thead = false;
  all_children_translated = true;
}

-- The children of the first `<tr>`, or else the children themselves.
unfoldable pub first_row : Nodes → Nodes → Nodes
first_row all no_nodes = all
first_row all (more (element tag attrs children) nodes) =
    let later = first_row all nodes in if str_eq tag "tr" then children else later
first_row all (more _ nodes) = first_row all nodes

unfoldable pub push_row : Row × Bool → Table → Table
push_row (cells, translated) t = record t {
  rows = if length cells == 0 then t.rows else t.rows ++ cells ∷ [];
  all_children_translated = t.all_children_translated && translated;
}

-- Cells that become the headers.
unfoldable pub take_headers : Row × Bool → Table → Table
take_headers (cells, translated) t = record t {
  headers = cells;
  all_children_translated = t.all_children_translated && translated;
}

module _ (handle : Node → Option HandlerResult) where
  -- What a cell adds to the row, where its handler gives anything.
  cell_of : String → Attrs → Option HandlerResult → Row × Bool → Row × Bool
  unfolding extract_header_text trim_document_whitespace
  cell_of cell_tag attrs none row = row
  cell_of cell_tag attrs (some res) (cells, translated) =
      let content = trim_document_whitespace res.content in
      (
        (if str_eq cell_tag "th" then extract_header_text content attrs else content) ∷ cells,
        res.markdown_translated && translated,
      )

  -- `extract_row_cells`, of the children of a row.
  unfoldable pub extract_row_cells : String → Nodes → Row × Bool
  unfolding cell_of
  extract_row_cells cell_tag no_nodes = ([], true)
  extract_row_cells cell_tag (more (element tag attrs children) nodes) =
      let rest = extract_row_cells cell_tag nodes in
      if str_eq tag cell_tag
      then cell_of cell_tag attrs (handle (element tag attrs children)) rest
      else rest
  extract_row_cells cell_tag (more _ nodes) = extract_row_cells cell_tag nodes

  -- A row of `<tbody>` or `<tfoot>`.
  unfoldable pub body_row : Nodes → Table → Table
  unfolding take_headers push_row extract_row_cells
  body_row cells t =
      let as_headers = take_headers (extract_row_cells "th" cells) t in
      if not t.has_thead && (length t.headers == 0)
      then (if length as_headers.headers == 0
          then push_row (extract_row_cells "td" cells) as_headers
          else record as_headers { has_thead = true })
      else push_row (extract_row_cells "td" cells) t

  unfoldable pub body_rows : Nodes → Table → Table
  unfolding body_row
  body_rows no_nodes t = t
  body_rows (more (element tag attrs children) nodes) t =
      body_rows nodes (if str_eq tag "tr" then body_row children t else t)
  body_rows (more _ nodes) t = body_rows nodes t

  -- A `<tr>` right in the table.
  unfoldable pub plain_row : Nodes → Table → Table
  unfolding take_headers push_row extract_row_cells
  plain_row cells t =
      let as_headers = take_headers (extract_row_cells "th" cells) t in
      let (data_cells, data_ok) = extract_row_cells "td" cells in
      let either =
        if not (length as_headers.headers == 0)
        then as_headers
        else if length data_cells == 0
        then as_headers
        else take_headers (data_cells, data_ok) as_headers in
      if not t.has_thead && (length t.headers == 0)
      then record either { has_thead = not (length either.headers == 0) }
      else push_row (data_cells, data_ok) t

  unfoldable pub head_row : Nodes → Table → Table
  unfolding first_row take_headers extract_row_cells
  head_row children t =
      let cells = first_row children children in
      let as_headers =
        take_headers (extract_row_cells "th" cells) (record t { has_thead = true }) in
      if length as_headers.headers == 0
      then take_headers (extract_row_cells "td" cells) as_headers
      else as_headers

  unfoldable pub caption : Option HandlerResult → Table → Table
  unfolding trim_document_whitespace
  caption none t = t
  caption (some res) t = record t {
    captions = t.captions ++ trim_document_whitespace res.content ∷ [];
  }

  -- One child of the table.
  unfoldable pub table_child : Node → Table → Table
  unfolding caption head_row body_rows plain_row
  table_child (element tag attrs children) t =
      if str_eq tag "caption"
      then caption (handle (element tag attrs children)) t
      else if str_eq tag "thead"
      then head_row children t
      else if str_eq tag "tbody" || str_eq tag "tfoot"
      then body_rows children t
      else if str_eq tag "tr"
      then plain_row children t
      else t
  table_child _ t = t

  unfoldable pub table_children : Nodes → Table → Table
  unfolding table_child
  table_children no_nodes t = t
  table_children (more child nodes) t = table_children nodes (table_child child t)

abbrev pub max_length : List Row → ℕ
max_length [] = 0
max_length (row ∷ rows) = max (length row) (max_length rows)

abbrev pub num_columns : Table → ℕ
num_columns t = if length t.headers == 0 then max_length t.rows else length t.headers

caption_lines : List (List ℕ) → List ℕ
caption_lines [] = []
caption_lines (c ∷ captions) = c ++ 10 ∷ caption_lines captions

row_lines : List Row → ℕ → List ℕ → List ℕ
unfolding format_row_padded
row_lines [] n widths = []
row_lines (row ∷ rows) n widths = format_row_padded row n widths ++ row_lines rows n widths

-- The Markdown of a table that has columns.
unfoldable pub table_md : Table → List ℕ
unfolding caption_lines row_lines format_row_padded format_separator_padded compute_column_widths
table_md t =
    let n = num_columns t in
    let widths = compute_column_widths t.headers t.rows n in
    10 ∷ 10 ∷ caption_lines t.captions
    ++ (if length t.headers == 0
        then []
        else format_row_padded t.headers n widths ++ format_separator_padded n widths)
    ++ row_lines t.rows n widths
    ++ 10 ∷ []

unfoldable pub fallback : List ℕ → Option (List ℕ)
unfolding trim_start_matches trim_end_matches
fallback children_content =
    let content =
      trim_end_matches (λ c. c == 10) (trim_start_matches (λ c. c == 10) children_content) in
    if length content == 0 then none else some (10 ∷ 10 ∷ content ++ 10 ∷ 10 ∷ [])

abbrev is_faithful : TranslationMode → Bool
is_faithful faithful = true
is_faithful pure = false

abbrev pub translated : Option (List ℕ) → Option HandlerResult
translated none = none
translated (some content) = some (record { content = content; markdown_translated = true })

unfoldable pub table_handler :
    (Node → Option HandlerResult)
    → TranslationMode
    → List ℕ
    → List ℕ
    → Attrs
    → Nodes
    → Option HandlerResult
unfolding table_children table_md fallback
table_handler handle mode serialized children_content attrs children =
    let t = table_children handle children empty_table in
    let as_html = some (record { content = serialized; markdown_translated = false }) in
    if is_faithful mode && ltb 0 (length attrs)
    then as_html
    else if is_faithful mode && not t.all_children_translated
    then as_html
    else if num_columns t == 0
    then translated (fallback children_content)
    else translated (some (table_md t))
