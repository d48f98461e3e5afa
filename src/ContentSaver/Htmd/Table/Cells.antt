-- ===== src/ContentSaver/Htmd/Table/Cells.antt =====
-- What `normalize_cell_content` (table.rs) leaves of a cell.
use kodegen_tools_citescrape.Base.{
  ℕ, ◌≡◌, refl, inl, inr, Bool, false, List, [], ◌∷◌, ◌++◌, codes, arith, ◌==◌, Bool-cases,
}
use kodegen_tools_citescrape.ContentSaver.Htmd.Strip.{
  is_document_whitespace, trim_start_matches, trim_end_matches, trim_document_whitespace,
}
use kodegen_tools_citescrape.ContentSaver.Htmd.Table.{replace, normalize_cell_content}

-- The character does not occur.
abbrev pub Free : ℕ → List ℕ → Type 0
Free k [] = Unit {0}
Free k (c ∷ cs) = ((c == k) ≡ false) × Free k cs

Free-append : (k : ℕ) (s t : List ℕ) → Free k s → Free k t → Free k (s ++ t)
Free-append k [] t f g = g
Free-append k (c ∷ cs) t f g = (f.0, Free-append k cs t f.1 g)

replace_gone : (k : ℕ) (to text : List ℕ) → Free k to → Free k (replace k to text)
unfolding replace
replace_gone k to [] f = tt
replace_gone k to (c ∷ cs) f = elim (Bool-cases (c == k)) [
  | inl hit ↦ rw hit (Free-append k to (replace k to cs) f (replace_gone k to cs f))
  | inr other ↦ rw other (other, replace_gone k to cs f)
]

replace_keeps : (j k : ℕ) (to text : List ℕ) → Free j to → Free j text → Free j (replace k to text)
unfolding replace
replace_keeps j k to [] f g = tt
replace_keeps j k to (c ∷ cs) f g = elim (Bool-cases (c == k)) [
  | inl hit ↦ rw hit (Free-append j to (replace k to cs) f (replace_keeps j k to cs f g.1))
  | inr other ↦ rw other (g.0, replace_keeps j k to cs f g.1)
]

trim_start-Free :
    (k : ℕ) (p : ℕ → Bool) (text : List ℕ) → Free k text → Free k (trim_start_matches p text)
unfolding trim_start_matches
trim_start-Free k p [] f = tt
trim_start-Free k p (c ∷ cs) f = ground (arith, trim_start-Free k p cs f.1)

trim_end-Free :
    (k : ℕ) (p : ℕ → Bool) (text : List ℕ) → Free k text → Free k (trim_end_matches p text)
unfolding trim_end_matches
trim_end-Free k p [] f = tt
trim_end-Free k p (c ∷ cs) f = ground (arith, trim_end-Free k p cs f.1)

trim-Free : (k : ℕ) (text : List ℕ) → Free k text → Free k (trim_document_whitespace text)
unfolding trim_document_whitespace
trim-Free k text f =
    trim_end-Free k is_document_whitespace (trim_start_matches is_document_whitespace text)
      (trim_start-Free k is_document_whitespace text f)

-- The content of a cell has neither a pipe nor a line break.
pub normalize_cell_content-Free :
    (content : List ℕ)
    → Free 124 (normalize_cell_content content)
      × Free 10 (normalize_cell_content content)
      × Free 13 (normalize_cell_content content)
unfolding normalize_cell_content
normalize_cell_content-Free content =
    let no_break = replace_gone 10 (32 ∷ []) content (refl, tt) in
    let one_line = replace 10 (32 ∷ []) content in
    let no_return = replace_gone 13 [] one_line tt in
    let still = replace_keeps 10 13 [] one_line tt no_break in
    let bare = replace 13 [] one_line in
    let entity = codes "&#124;" in
    let no_pipe : Free 124 (replace 124 entity bare) =
      replace_gone 124 entity bare (ground arith) in
    let no_break' : Free 10 (replace 124 entity bare) =
      replace_keeps 10 124 entity bare (ground arith) still in
    let no_return' : Free 13 (replace 124 entity bare) =
      replace_keeps 13 124 entity bare (ground arith) no_return in
    (trim-Free 124 _ no_pipe, trim-Free 10 _ no_break', trim-Free 13 _ no_return')
