-- ===== src/ContentSaver/Htmd/Table/Aligned.antt =====
-- The lines of a Markdown table (table.rs) in the widths of its columns.
use kodegen_tools_citescrape.Base.{
  ℕ, zero, suc, ◌+◌, ◌-◌, ◌≤◌, ◌≡◌, refl, ◌∙◌, false, List, [], ◌∷◌, ◌++◌, All, arith, length,
  length-append, replicate, max, ◌==◌, if◌then◌else◌,
}
use kodegen_tools_citescrape.ContentSaver.Htmd.Table.{
  normalize_cell_content, Row, padded, row_loop, format_row_padded, separator_loop,
  format_separator_padded, set_widths, raise_widths, rows_loop, compute_column_widths,
}
use kodegen_tools_citescrape.ContentSaver.Htmd.Table.Cells.{Free, normalize_cell_content-Free}

-- How often the character occurs.
abbrev pub count : ℕ → List ℕ → ℕ
count k [] = 0
count k (c ∷ cs) = if c == k then suc (count k cs) else count k cs

count-append : (k : ℕ) (s t : List ℕ) → count k (s ++ t) ≡ count k s + count k t
count-append k [] t = omega arith
count-append k (c ∷ cs) t = ground (arith, count-append k cs t)

count-Free : (k : ℕ) (text : List ℕ) → Free k text → count k text ≡ 0
count-Free k [] f = refl
count-Free k (c ∷ cs) f = ground (arith, count-Free k cs)

count-replicate : (k n c : ℕ) → (c == k) ≡ false → count k (replicate n c) ≡ 0
count-replicate k zero c e = refl
count-replicate k (suc n) c e = ground (arith, count-replicate k n c)

length-replicate : (n c : ℕ) → length (replicate n c) ≡ n
length-replicate zero c = refl
length-replicate (suc n) c = omega (arith, length-replicate n c)

-- Each cell that has a column fits in it.
abbrev pub Fits : Row → List ℕ → Type 0
Fits [] widths = Unit {0}
Fits (cell ∷ row) [] = Unit
Fits (cell ∷ row) (w ∷ widths) = (length (normalize_cell_content cell) ≤ w) × Fits row widths

-- What holds of each line: as long as the separator, one pipe more than columns, one line break.
abbrev pub IsLine : ℕ → List ℕ → List ℕ → Type 0
IsLine n widths line =
    (length line ≡ length (format_separator_padded n widths))
    × (count 124 line ≡ n + 1)
    × (count 10 line ≡ 1)

padded_lem :
    (cell : List ℕ) (w : ℕ) (rest : List ℕ)
    → Free 124 cell
    → Free 10 cell
    → length cell ≤ w
    → (length (padded cell w ++ rest) ≡ max w 1 + 3 + length rest)
      × (count 124 (padded cell w ++ rest) ≡ 1 + count 124 rest)
      × (count 10 (padded cell w ++ rest) ≡ count 10 rest)
padded_lem cell w rest f g h =
    let fill : List ℕ = replicate (max w 1 - length cell) 32 in
    (
      omega (
        arith,
        length-append cell fill,
        length-append (cell ++ fill) (32 ∷ 124 ∷ []),
        length-append (cell ++ fill ++ 32 ∷ 124 ∷ []) rest,
        length-replicate (max w 1 - length cell) 32,
      ),
      omega (
        arith,
        count-append 124,
        count-replicate 124 (max w 1 - length cell) 32 refl,
        count-Free 124 cell f,
      ),
      omega (
        arith,
        count-append 10,
        count-replicate 10 (max w 1 - length cell) 32 refl,
        count-Free 10 cell g,
      ),
    )

separator_lem :
    (n : ℕ) (widths : List ℕ)
    → length widths ≡ n
    → (count 124 (separator_loop n widths) ≡ n) × (count 10 (separator_loop n widths) ≡ 1)
unfolding separator_loop
separator_lem zero widths e = (refl, refl)
separator_lem (suc n) [] e = absurd (omega arith)
separator_lem (suc n) (w ∷ widths) e =
    let (pipes, breaks) = separator_lem n widths (omega arith) in
    (
      omega (arith, count-append 124, count-replicate 124 (max w 1) 45 refl, pipes),
      omega (arith, count-append 10, count-replicate 10 (max w 1) 45 refl, breaks),
    )

length-separator :
    (n w : ℕ) (widths : List ℕ)
    → length (separator_loop (suc n) (w ∷ widths)) ≡ max w 1 + 3 + length (separator_loop n widths)
unfolding separator_loop
length-separator n w widths = omega (
  arith,
  length-append {A = ℕ} (replicate (max w 1) 45) (32 ∷ 124 ∷ []),
  length-append {A = ℕ} (replicate (max w 1) 45 ++ 32 ∷ 124 ∷ []) (separator_loop n widths),
  length-replicate (max w 1) 45,
)

-- The lines of the table, without their first pipe.
row_loop_lem :
    (row : Row) (n : ℕ) (widths : List ℕ)
    → length widths ≡ n
    → Fits row widths
    → (length (row_loop row n widths) ≡ length (separator_loop n widths))
      × (count 124 (row_loop row n widths) ≡ n)
      × (count 10 (row_loop row n widths) ≡ 1)
unfolding row_loop separator_loop
row_loop_lem row zero widths e f = (refl, refl, refl)
row_loop_lem row (suc n) [] e f = absurd (omega arith)
row_loop_lem [] (suc n) (w ∷ widths) e f =
    let (len, pipes, breaks) = row_loop_lem [] n widths (omega arith) tt in
    let (len', pipes', breaks') = padded_lem [] w (row_loop [] n widths) tt tt (omega arith) in
    (
      omega (arith, len, len', length-separator n w widths),
      omega (arith, pipes, pipes'),
      omega (arith, breaks, breaks'),
    )
row_loop_lem (cell ∷ row) (suc n) (w ∷ widths) e f =
    let (len, pipes, breaks) = row_loop_lem row n widths (omega arith) f.1 in
    let (no_pipe, no_break, _) = normalize_cell_content-Free cell in
    let (len', pipes', breaks') =
      padded_lem (normalize_cell_content cell) w (row_loop row n widths) no_pipe no_break f.0 in
    (
      omega (arith, len, len', length-separator n w widths),
      omega (arith, pipes, pipes'),
      omega (arith, breaks, breaks'),
    )

format_row-IsLine :
    (row : Row) (n : ℕ) (widths : List ℕ)
    → length widths ≡ n
    → Fits row widths
    → IsLine n widths (format_row_padded row n widths)
unfolding format_row_padded format_separator_padded
format_row-IsLine row n widths e f =
    let (len, pipes, breaks) = row_loop_lem row n widths e f in
    (omega (arith, len), omega (arith, pipes), breaks)

set_widths_lem :
    (row : Row) (widths : List ℕ)
    → (length (set_widths row widths) ≡ length widths) × Fits row (set_widths row widths)
unfolding set_widths
set_widths_lem [] widths = (refl, tt)
set_widths_lem (cell ∷ row) [] = (refl, tt)
set_widths_lem (cell ∷ row) (w ∷ widths) =
    let (len, fits) = set_widths_lem row widths in (omega (arith, len), (omega arith, fits))

raise_widths_lem :
    (row : Row) (widths : List ℕ)
    → (length (raise_widths row widths) ≡ length widths) × Fits row (raise_widths row widths)
unfolding raise_widths
raise_widths_lem [] widths = (refl, tt)
raise_widths_lem (cell ∷ row) [] = (refl, tt)
raise_widths_lem (cell ∷ row) (w ∷ widths) =
    let (len, fits) = raise_widths_lem row widths in (omega (arith, len), (ground arith, fits))

raise_widths-Fits :
    (row other : Row) (widths : List ℕ) → Fits other widths → Fits other (raise_widths row widths)
unfolding raise_widths
raise_widths-Fits [] other widths f = f
raise_widths-Fits (cell ∷ row) [] widths f = tt
raise_widths-Fits (cell ∷ row) (o ∷ other) [] f = tt
raise_widths-Fits (cell ∷ row) (o ∷ other) (w ∷ widths) f =
    (ground (arith, f.0), raise_widths-Fits row other widths f.1)

rows_loop_lem :
    (rows : List Row) (other : Row) (widths : List ℕ)
    → Fits other widths
    → (length (rows_loop rows widths) ≡ length widths)
      × Fits other (rows_loop rows widths)
      × All (λ row. Fits row (rows_loop rows widths)) rows
unfolding rows_loop
rows_loop_lem [] other widths f = (refl, f, tt)
rows_loop_lem (row ∷ rows) other widths f =
    let (len, fits) = raise_widths_lem row widths in
    let kept = raise_widths-Fits row other widths f in
    let (len', kept', rest) = rows_loop_lem rows other (raise_widths row widths) kept in
    let (_, fits', _) = rows_loop_lem rows row (raise_widths row widths) fits in
    (len' ∙ len, kept', (fits', rest))

map_lines :
    (rows : List Row) (n : ℕ) (widths : List ℕ)
    → length widths ≡ n
    → All (λ row. Fits row widths) rows
    → All (λ row. IsLine n widths (format_row_padded row n widths)) rows
map_lines [] n widths e f = tt
map_lines (row ∷ rows) n widths e f =
    (format_row-IsLine row n widths e f.0, map_lines rows n widths e f.1)

-- In the widths that are computed for a table, whatever is in its cells, the line of the headers and
-- that of every row are as long as the separator line, and each, the separator included, has one
-- pipe more than there are columns and a single line break. So no cell breaks the table.
pub table_aligned :
    (headers : Row) (rows : List Row) (n : ℕ)
    → let widths = compute_column_widths headers rows n in
      All (λ row. IsLine n widths (format_row_padded row n widths)) (headers ∷ rows)
      × IsLine n widths (format_separator_padded n widths)
unfolding compute_column_widths
table_aligned headers rows n =
    let (len, fits) = set_widths_lem headers (replicate n 0) in
    let (len', kept, rest) = rows_loop_lem rows headers (set_widths headers (replicate n 0)) fits in
    let widths = rows_loop rows (set_widths headers (replicate n 0)) in
    let same : length widths ≡ n = len' ∙ len ∙ length-replicate n 0 in
    let (pipes, breaks) = separator_lem n widths same in
    (
      (format_row-IsLine headers n widths same kept, map_lines rows n widths same rest),
      (
        refl,
        unfold format_separator_padded in omega (arith, pipes),
        unfold format_separator_padded in breaks,
      ),
    )
