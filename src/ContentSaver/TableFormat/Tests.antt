-- ===== src/ContentSaver/TableFormat/Tests.antt =====
-- The formatting of tables (html_to_markdown.rs) on a small table.
use mathlib.Core.List.{map}
use kodegen_tools_citescrape.Base.{◌≡◌, refl, none, codes, starts_with, ends_with, contains}
use kodegen_tools_citescrape.ContentSaver.Htmd.Whitespace.{is_whitespace}
use kodegen_tools_citescrape.ContentSaver.Htmd.Strip.{trim_start_matches, trim_end_matches}
use kodegen_tools_citescrape.ContentSaver.Htmd.ListProcessing.{trim}
use kodegen_tools_citescrape.ContentSaver.Normalizer.{lines, lines_loop, strip_return}
use kodegen_tools_citescrape.ContentSaver.TableFormat.{
  split, split_loop, filled, cells, count_table_columns, join, row_of, clean_table_row, inside,
  separator_cells, is_separator_row, take, data_row, data_rows, data_counts, correct_col_count,
  format_markdown_table_into, is_table_row, tables_loop, drop_break, format_tables_static,
}
use kodegen_tools_citescrape.ContentSaver.TableFormat.Rows.{data_row_lem}

-- The second cell of the last row is empty, and the third takes its place.
formatted :
    format_tables_static (λ counts. none) (codes "x\n|a|b|c|\n|-|-|-|\n|1||3|\ny")
    ≡ codes "x\n| a | b | c |\n|---|---|---|\n| 1 | 3 |\ny"
unfolding format_tables_static tables_loop is_table_row format_markdown_table_into correct_col_count
    data_counts data_row data_rows is_separator_row separator_cells inside filled split split_loop
    cells count_table_columns join row_of clean_table_row drop_break lines lines_loop strip_return
    trim trim_start_matches trim_end_matches is_whitespace starts_with ends_with contains
formatted = refl

data_row_lem_example :
    data_row 3 (codes "|1||3|") ≡ row_of (map trim (take 3 (cells (codes "|1||3|"))))
data_row_lem_example = data_row_lem 3 (codes "|1||3|")
