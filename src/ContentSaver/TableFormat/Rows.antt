-- ===== src/ContentSaver/TableFormat/Rows.antt =====
-- The rows that the formatting of tables (html_to_markdown.rs) writes.
use mathlib.Core.List.{map, append_assoc, append-nil}
use kodegen_tools_citescrape.Base.{
  ℕ, zero, suc, ◌≡◌, refl, sym, ap, ◌∙◌, inl, inr, true, false, List, [], ◌∷◌, ◌++◌, All,
  All-append, arith, codes, filter, length, ◌==◌, if◌then◌else◌, Bool-cases,
}
use kodegen_tools_citescrape.ContentSaver.Htmd.Whitespace.{is_whitespace}
use kodegen_tools_citescrape.ContentSaver.Htmd.Strip.{trim_start_matches, trim_end_matches}
use kodegen_tools_citescrape.ContentSaver.Htmd.Strip.TrimEnd.{trim_end-append_all}
use kodegen_tools_citescrape.ContentSaver.Htmd.ListProcessing.{trim}
use kodegen_tools_citescrape.ContentSaver.TableFormat.{
  split_loop, split, filled, cells, count_table_columns, join, row_of, non_empty, clean_table_row,
  take, fit, data_row,
}

abbrev NoPipe : List ℕ → Type 0
NoPipe = All (λ c. (c == 124) ≡ false)

split_loop-NoPipe : (row piece : List ℕ) → NoPipe piece → All NoPipe (split_loop row piece)
unfolding split_loop
split_loop-NoPipe [] piece h = (h, tt)
split_loop-NoPipe (c ∷ cs) piece h = elim (Bool-cases (c == 124)) [
  | inl pipe ↦ rw pipe (h, split_loop-NoPipe cs [] tt)
  | inr other ↦ rw other (
      split_loop-NoPipe cs (piece ++ c ∷ [])
        (All-append (λ d. (d == 124) ≡ false) piece (c ∷ []) h (other, tt)))
]

-- A piece ends at the next pipe, or at the end.
split_loop-piece :
    (s rest piece : List ℕ)
    → NoPipe s
    → split_loop (s ++ 124 ∷ rest) piece ≡ (piece ++ s) ∷ split_loop rest []
unfolding split_loop
split_loop-piece [] rest piece h = rw append-nil refl
split_loop-piece (c ∷ cs) rest piece h = rw h.0 (
    split_loop-piece cs rest (piece ++ c ∷ []) h.1
    ∙ ap (λ l. l ∷ split_loop rest []) (append_assoc piece (c ∷ []) cs))

white : is_whitespace 32 ≡ true
unfolding is_whitespace
white = refl

trim_start-append_all :
    (s : List ℕ)
    → trim_start_matches is_whitespace s ≡ []
    → trim_start_matches is_whitespace (s ++ 32 ∷ []) ≡ []
unfolding trim_start_matches
trim_start-append_all [] e = rw white refl
trim_start-append_all (c ∷ cs) e = elim (Bool-cases (is_whitespace c)) [
  | inl w ↦ rw w (trim_start-append_all cs (rw w at e))
  | inr b ↦ absurd (cc (rw b at e))
]

trim_start-append :
    (s : List ℕ) (d : ℕ) (ds t : List ℕ)
    → trim_start_matches is_whitespace s ≡ d ∷ ds
    → trim_start_matches is_whitespace (s ++ t) ≡ d ∷ ds ++ t
unfolding trim_start_matches
trim_start-append [] d ds t e = cc
trim_start-append (c ∷ cs) d ds t e = elim (Bool-cases (is_whitespace c)) [
  | inl w ↦ rw w (trim_start-append cs d ds t (rw w at e))
  | inr b ↦ rw b (ap (λ l. l ++ t) (rw b at e))
]

white_end : trim_end_matches is_whitespace (32 ∷ []) ≡ []
unfolding trim_end_matches is_whitespace
white_end = refl

trim-padded : (s : List ℕ) → trim (32 ∷ s ++ 32 ∷ []) ≡ trim s
unfolding trim
trim-padded s = go (trim_start_matches is_whitespace s) refl
  where
    go :
        (t : List ℕ)
        → trim_start_matches is_whitespace s ≡ t
        → trim_end_matches is_whitespace (trim_start_matches is_whitespace (32 ∷ s ++ 32 ∷ []))
          ≡ trim_end_matches is_whitespace (trim_start_matches is_whitespace s)
    go [] e = rw (white, trim_start-append_all s e, e) refl
    go (d ∷ ds) e =
        rw (white, trim_start-append s d ds (32 ∷ []) e, e)
          (trim_end-append_all is_whitespace (d ∷ ds) (32 ∷ []) white_end)

trim_nothing : non_empty (trim []) ≡ false
unfolding trim trim_start_matches trim_end_matches
trim_nothing = refl

abbrev kept : List (List ℕ) → List (List ℕ)
kept pieces = filter non_empty (map trim pieces)

-- A cell between spaces, up to its pipe.
cell_kept :
    (c rest : List ℕ)
    → NoPipe c
    → kept (split_loop (32 ∷ c ++ 32 ∷ [] ++ 124 ∷ rest) []) ≡ (
        if non_empty (trim c)
        then trim c ∷ kept (split_loop rest [])
        else kept (split_loop rest []))
cell_kept c rest h =
    let padded : NoPipe (32 ∷ c ++ 32 ∷ []) =
      (refl, All-append (λ d. (d == 124) ≡ false) c (32 ∷ []) h (refl, tt)) in
    rw (split_loop-piece (32 ∷ c ++ 32 ∷ []) rest [] padded, trim-padded c) refl

blank_kept : kept (split_loop (32 ∷ 32 ∷ 124 ∷ []) []) ≡ []
unfolding split_loop trim trim_start_matches trim_end_matches is_whitespace
blank_kept = refl

end_kept : kept (split_loop [] []) ≡ []
unfolding split_loop trim trim_start_matches trim_end_matches
end_kept = refl

inner_kept :
    (cs : List (List ℕ))
    → All NoPipe cs
    → kept (split_loop (32 ∷ join cs ++ codes " |") []) ≡ kept cs
unfolding join
inner_kept [] h = blank_kept
inner_kept (c ∷ []) h =
    ap (λ l. kept (split_loop (32 ∷ l) [])) (sym (append_assoc c (32 ∷ []) (124 ∷ [])))
    ∙ cell_kept c [] h.0
    ∙ ap (λ l. if non_empty (trim c) then trim c ∷ l else l) end_kept
inner_kept (c ∷ d ∷ cs) h =
    let last = codes " |" in
    let between = codes " | " in
    let others = join (d ∷ cs) in
    let regroup =
      append_assoc (c ++ between) others last
      ∙ append_assoc c between (others ++ last)
      ∙ sym (append_assoc c (32 ∷ []) (124 ∷ 32 ∷ others ++ last)) in
    ap (λ l. kept (split_loop (32 ∷ l) [])) regroup
    ∙ cell_kept c (32 ∷ others ++ last) h.0
    ∙ ap (λ l. if non_empty (trim c) then trim c ∷ l else l) (inner_kept (d ∷ cs) h.1)

row_of-kept : (cs : List (List ℕ)) → All NoPipe cs → kept (split (row_of cs)) ≡ kept cs
unfolding split split_loop row_of
row_of-kept cs h = rw trim_nothing (inner_kept cs h)

kept-filled : (cs : List (List ℕ)) → kept cs ≡ map trim (filter filled cs)
unfolding filled
kept-filled [] = refl
kept-filled (c ∷ cs) = elim (Bool-cases (length (trim c) == 0)) [
  | inl empty ↦ rw empty (kept-filled cs)
  | inr full ↦ rw full (ap (trim c ∷◌) (kept-filled cs))
]

-- The pieces that are filled, and have no pipe.
abbrev Cell : List ℕ → Type 0
Cell s = (filled s ≡ true) × NoPipe s

filter-Cell : (pieces : List (List ℕ)) → All NoPipe pieces → All Cell (filter filled pieces)
filter-Cell [] h = tt
filter-Cell (s ∷ pieces) h = elim (Bool-cases (filled s)) [
  | inl full ↦ rw full ((full, h.0), filter-Cell pieces h.1)
  | inr empty ↦ rw empty (filter-Cell pieces h.1)
]

cells-Cell : (row : List ℕ) → All Cell (cells row)
unfolding cells split
cells-Cell row = filter-Cell (split_loop row []) (split_loop-NoPipe row [] tt)

not_filled : filled [] ≡ false
unfolding filled trim trim_start_matches trim_end_matches
not_filled = refl

take_nothing : (n : ℕ) → take n [] ≡ []
take_nothing zero = refl
take_nothing (suc n) = refl

fit-take :
    (n : ℕ) (cs : List (List ℕ))
    → All Cell cs
    → (filter filled (fit n cs) ≡ take n cs) × All NoPipe (fit n cs)
fit-take zero cs h = (refl, tt)
fit-take (suc n) [] h =
    let (same, clean) = fit-take n [] tt in (rw not_filled (same ∙ take_nothing n), (tt, clean))
fit-take (suc n) (c ∷ cs) h =
    let (same, clean) = fit-take n cs h.1 in (rw h.0.0 (ap (c ∷◌) same), (h.0.1, clean))

take_all : (n : ℕ) (cs : List (List ℕ)) → length cs ≡ n → take n cs ≡ cs
take_all zero [] e = refl
take_all zero (c ∷ cs) e = absurd (omega arith)
take_all (suc n) [] e = refl
take_all (suc n) (c ∷ cs) e = ap (c ∷◌) (take_all n cs (omega arith))

split-cells : (row : List ℕ) → kept (split row) ≡ map trim (cells row)
unfolding cells
split-cells row = kept-filled (split row)

-- Whatever number of columns a table has, of a row of it just the first cells that are not empty are
-- written, trimmed, and at most that many: the cells that are meant to fill up a short row are lost,
-- and an empty cell shifts those after it.
pub data_row_lem : (n : ℕ) (row : List ℕ) → data_row n row ≡ row_of (map trim (take n (cells row)))
unfolding data_row clean_table_row count_table_columns
data_row_lem n row = elim (Bool-cases (length (cells row) == n)) [
  | inl same ↦
      let all : take n (cells row) ≡ cells row = take_all n (cells row) (ground arith) in
      rw (same, all) (ap row_of (split-cells row))
  | inr other ↦
      let (fits, clean) = fit-take n (cells row) (cells-Cell row) in
      rw other (
        ap row_of (
          row_of-kept (fit n (cells row)) clean
          ∙ kept-filled (fit n (cells row))
          ∙ ap (map trim) fits))
]
