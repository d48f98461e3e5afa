-- ===== src/ContentSaver/TableFormat.antt =====
-- src/content_saver/markdown_converter/html_to_markdown.rs: the formatting of the tables in a Markdown
-- text. A text is the list of its code points. Which of the most frequent column counts the HashMap
-- of the source gives first is an arbitrary function. The columns of a table are those of its first
-- row unless that has none, so the branches for a header with too many columns are never taken.
pub mod Rows
mod Tests
use mathlib.Core.List.{map}
use kodegen_tools_citescrape.Base.{
  ℕ, zero, suc, ◌+◌, Bool, true, false, not, ◌&&◌, ◌||◌, Option, none, some, List, [], ◌∷◌, ◌++◌,
  codes, filter, length, replicate, starts_with, ends_with, contains, leb, ltb, ◌==◌, if◌then◌else◌,
}
use kodegen_tools_citescrape.ContentSaver.Htmd.ListProcessing.{trim}
use kodegen_tools_citescrape.ContentSaver.Normalizer.{lines}

-- `split('|')`: the text left and the piece so far.
unfoldable pub split_loop : List ℕ → List ℕ → List (List ℕ)
split_loop [] piece = piece ∷ []
split_loop (c ∷ cs) piece =
    let apart = piece ∷ split_loop cs [] in
    let longer = split_loop cs (piece ++ c ∷ []) in if c == 124 then apart else longer

unfoldable pub split : List ℕ → List (List ℕ)
unfolding split_loop
split row = split_loop row []

-- `!s.trim().is_empty()`.
unfoldable pub filled : List ℕ → Bool
unfolding trim
filled s = not (length (trim s) == 0)

unfoldable pub cells : List ℕ → List (List ℕ)
unfolding filled split
cells row = filter filled (split row)

unfoldable pub count_table_columns : List ℕ → ℕ
unfolding cells
count_table_columns row = length (cells row)

unfoldable pub join : List (List ℕ) → List ℕ
join [] = []
join (c ∷ []) = c
join (c ∷ d ∷ cs) = c ++ codes " | " ++ join (d ∷ cs)

unfoldable pub row_of : List (List ℕ) → List ℕ
unfolding join
row_of cs = codes "| " ++ join cs ++ codes " |"

abbrev pub non_empty : List ℕ → Bool
non_empty s = not (length s == 0)

unfoldable pub clean_table_row : List ℕ → List ℕ
unfolding row_of split trim
clean_table_row row = row_of (filter non_empty (map trim (split row)))

abbrev separator_char : ℕ → Bool
separator_char c = (c == 45) || (c == 58) || (c == 32) || (c == 9)

abbrev all_chars : (ℕ → Bool) → List ℕ → Bool
all_chars p [] = true
all_chars p (c ∷ cs) = p c && all_chars p cs

unfoldable pub separator_cells : List (List ℕ) → Bool
unfolding filled trim contains
separator_cells [] = true
separator_cells (s ∷ pieces) =
    (not (filled s) || (contains (trim s) (codes "-") && all_chars separator_char (trim s)))
    && separator_cells pieces

-- The text without its first and its last character.
unfoldable pub inside : List ℕ → List ℕ
inside [] = []
inside (c ∷ cs) = without_last cs
  where
    without_last : List ℕ → List ℕ
    without_last [] = []
    without_last (d ∷ []) = []
    without_last (d ∷ e ∷ ds) = d ∷ without_last (e ∷ ds)

unfoldable pub is_separator_row : List ℕ → Bool
unfolding trim starts_with ends_with inside split separator_cells
is_separator_row row =
    let trimmed = trim row in
    starts_with trimmed (codes "|")
    && ends_with trimmed (codes "|")
    && leb 2 (length trimmed)
    && separator_cells (split (inside trimmed))

abbrev pub take : ℕ → List (List ℕ) → List (List ℕ)
take zero cs = []
take (suc n) [] = []
take (suc n) (c ∷ cs) = c ∷ take n cs

-- The cells, cut off or padded with empty ones.
abbrev pub fit : ℕ → List (List ℕ) → List (List ℕ)
fit zero cs = []
fit (suc n) [] = [] ∷ fit n []
fit (suc n) (c ∷ cs) = c ∷ fit n cs

-- A row of the data, which is not a separator, as it is written.
unfoldable pub data_row : ℕ → List ℕ → List ℕ
unfolding count_table_columns clean_table_row row_of cells
data_row correct_col_count row =
    if count_table_columns row == correct_col_count
    then clean_table_row row
    else clean_table_row (row_of (fit correct_col_count (cells row)))

unfoldable pub data_rows : ℕ → List (List ℕ) → List ℕ
unfolding is_separator_row data_row filled
data_rows n [] = []
data_rows n (row ∷ rows) =
    let rest = data_rows n rows in
    let line = data_row n row in
    if is_separator_row row
    then rest
    else if (count_table_columns row == n) && not (filled line)
    then rest
    else line ++ 10 ∷ rest

abbrev separator_line : ℕ → List ℕ
separator_line zero = []
separator_line (suc zero) = codes "---"
separator_line (suc (suc n)) = codes "---|" ++ separator_line (suc n)

-- The column counts of the rows after the first that are no separators.
unfoldable pub data_counts : List (List ℕ) → List ℕ
unfolding is_separator_row count_table_columns
data_counts [] = []
data_counts (row ∷ rows) =
    let rest = data_counts rows in
    if is_separator_row row then rest else count_table_columns row ∷ rest

abbrev or_one : Option ℕ → ℕ
or_one none = 1
or_one (some n) = n

abbrev tail_after : Bool → List (List ℕ) → List (List ℕ)
tail_after true (row ∷ rows) = rows
tail_after _ rows = rows

abbrev first_is : (List ℕ → Bool) → List (List ℕ) → Bool
first_is p [] = false
first_is p (row ∷ rows) = p row

module _ (mode : List ℕ → Option ℕ) where
  unfoldable pub correct_col_count : List ℕ → List (List ℕ) → ℕ
  unfolding count_table_columns data_counts
  correct_col_count header rows =
      let header_col_count = count_table_columns header in
      if ltb 0 header_col_count then header_col_count else or_one (mode (data_counts rows))

  unfoldable pub format_markdown_table_into : List ℕ → List (List ℕ) → List ℕ
  unfolding correct_col_count data_row data_rows is_separator_row
  format_markdown_table_into output [] = output
  format_markdown_table_into output (header ∷ rows) =
      let n = correct_col_count header rows in
      output
      ++ data_row n header
      ++ 10 ∷ 124 ∷ separator_line n
      ++ codes "|\n"
      ++ data_rows n (tail_after (first_is is_separator_row rows) rows)

  abbrev pipes : List ℕ → ℕ
  pipes [] = 0
  pipes (c ∷ cs) = if c == 124 then suc (pipes cs) else pipes cs

  unfoldable pub is_table_row : List ℕ → Bool
  unfolding trim starts_with ends_with
  is_table_row line =
      let trimmed = trim line in
      ends_with trimmed (codes "|") && (starts_with trimmed (codes "|") || leb 2 (pipes trimmed))

  -- The lines left, the rows of the table that is being collected, and the result.
  unfoldable pub tables_loop : List (List ℕ) → List (List ℕ) → List ℕ → List ℕ
  unfolding is_table_row format_markdown_table_into
  tables_loop [] table_rows result = format_markdown_table_into result table_rows
  tables_loop (line ∷ ls) table_rows result =
      let collected = tables_loop ls (table_rows ++ line ∷ []) result in
      let passed =
        tables_loop ls [] (format_markdown_table_into result table_rows ++ line ++ 10 ∷ []) in
      if is_table_row line then collected else passed

  unfoldable pub drop_break : List ℕ → List ℕ
  drop_break [] = []
  drop_break (c ∷ []) = if c == 10 then [] else c ∷ []
  drop_break (c ∷ d ∷ cs) = c ∷ drop_break (d ∷ cs)

  unfoldable pub format_tables_static : List ℕ → List ℕ
  unfolding contains lines tables_loop drop_break
  format_tables_static markdown =
      if not (contains markdown (codes "|"))
      then markdown
      else drop_break (tables_loop (lines markdown) [] [])
