-- ===== src/ContentSaver/Htmd/Table.antt =====
-- src/content_saver/markdown_converter/htmd/element_handler/table.rs: HTML tables as Markdown tables.
-- A text is the list of its code points. What the handlers make of a cell or a caption, what walking
-- the children of the table gives, and the HTML that the table is serialized to, are arbitrary.
pub mod Cells
pub mod Aligned
pub mod Extract
use kodegen_tools_citescrape.Base.{
  ℕ, zero, suc, ◌+◌, ◌-◌, String, str_eq, Bool, true, false, not, ◌&&◌, ◌||◌, Option, none, some,
  List, [], ◌∷◌, ◌++◌, codes, length, replicate, max, leb, ltb, ◌==◌, if◌then◌else◌,
}
use kodegen_tools_citescrape.ContentSaver.Htmd.Strip.{
  is_document_whitespace, trim_start_matches, trim_end_matches, trim_document_whitespace,
}
use kodegen_tools_citescrape.ContentSaver.Htmd.ListProcessing.{trim}
use kodegen_tools_citescrape.ContentSaver.Htmd.DomWalker.{
  Attrs, Node, element, Nodes, no_nodes, more, HandlerResult, TranslationMode, pure, faithful,
}

-- `str::replace` of a character.
unfoldable pub replace : ℕ → List ℕ → List ℕ → List ℕ
replace from to [] = []
replace from to (c ∷ cs) = if c == from then to ++ replace from to cs else c ∷ replace from to cs

unfoldable pub normalize_cell_content : List ℕ → List ℕ
unfolding replace trim_document_whitespace
normalize_cell_content content =
    trim_document_whitespace
      (replace 124 (codes "&#124;") (replace 13 [] (replace 10 (32 ∷ []) content)))

abbrev pub Row : Type 0
Row = List (List ℕ)

abbrev pub padded : List ℕ → ℕ → List ℕ
padded cell col_width = 32 ∷ cell ++ replicate (max col_width 1 - length cell) 32 ++ 32 ∷ 124 ∷ []

-- The loop of `format_row_padded` over the widths, for the columns left; a missing cell is empty.
unfoldable pub row_loop : Row → ℕ → List ℕ → List ℕ
unfolding normalize_cell_content
row_loop row zero widths = 10 ∷ []
row_loop row (suc n) [] = 10 ∷ []
row_loop [] (suc n) (w ∷ widths) = padded [] w ++ row_loop [] n widths
row_loop (cell ∷ row) (suc n) (w ∷ widths) =
    padded (normalize_cell_content cell) w ++ row_loop row n widths

unfoldable pub format_row_padded : Row → ℕ → List ℕ → List ℕ
unfolding row_loop
format_row_padded row num_columns col_widths = 124 ∷ row_loop row num_columns col_widths

unfoldable pub separator_loop : ℕ → List ℕ → List ℕ
separator_loop zero widths = 10 ∷ []
separator_loop (suc n) [] = 10 ∷ []
separator_loop (suc n) (w ∷ widths) =
    32 ∷ replicate (max w 1) 45 ++ 32 ∷ 124 ∷ [] ++ separator_loop n widths

unfoldable pub format_separator_padded : ℕ → List ℕ → List ℕ
unfolding separator_loop
format_separator_padded num_columns col_widths = 124 ∷ separator_loop num_columns col_widths

-- The widths of the headers are set, those of the cells raise them; a cell without a column is left.
unfoldable pub set_widths : Row → List ℕ → List ℕ
unfolding normalize_cell_content
set_widths [] widths = widths
set_widths (cell ∷ row) [] = []
set_widths (cell ∷ row) (w ∷ widths) = length (normalize_cell_content cell) ∷ set_widths row widths

unfoldable pub raise_widths : Row → List ℕ → List ℕ
unfolding normalize_cell_content
raise_widths [] widths = widths
raise_widths (cell ∷ row) [] = []
raise_widths (cell ∷ row) (w ∷ widths) =
    let len = length (normalize_cell_content cell) in
    (if ltb w len then len else w) ∷ raise_widths row widths

unfoldable pub rows_loop : List Row → List ℕ → List ℕ
unfolding raise_widths
rows_loop [] widths = widths
rows_loop (row ∷ rows) widths = rows_loop rows (raise_widths row widths)

unfoldable pub compute_column_widths : Row → List Row → ℕ → List ℕ
unfolding set_widths rows_loop
compute_column_widths headers rows num_columns =
    rows_loop rows (set_widths headers (replicate num_columns 0))
