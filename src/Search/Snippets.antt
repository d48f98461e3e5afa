-- ===== src/Search/Snippets.antt =====
-- src/search/query/snippets.rs: the marks around the query's words in a snippet. A text is the list
-- of its bytes, and a range counts them. `encode_text` of the crate html_escape is a parameter.
pub mod Merge
pub mod Marks
pub mod Highlight
mod Tests
use kodegen_tools_citescrape.Base.{
  ℕ, ◌+◌, ◌-◌, min, max, Bool, true, false, ◌&&◌, ◌||◌, List, [], ◌∷◌, ◌++◌, reverse, length, leb,
  ltb, ◌==◌, if◌then◌else◌, codes, zero, suc,
}

-- `Range<usize>`.
pub record Range : Type 0 where
  pub start : ℕ
  pub stop : ℕ

-- `highlighted_ranges`, of the ranges of the positions and the fragment's start.
unfoldable pub highlighted_ranges : ℕ → List Range → List Range
highlighted_ranges start_offset [] = []
highlighted_ranges start_offset (range ∷ ranges) =
    record { start = range.start - start_offset; stop = range.stop - start_offset }
    ∷ highlighted_ranges start_offset ranges

-- The order of the keys (start, end).
abbrev pub key_le : Range → Range → Bool
key_le a b = ltb a.start b.start || ((a.start == b.start) && leb a.stop b.stop)

unfoldable pub insert_sorted : Range → List Range → List Range
insert_sorted r [] = r ∷ []
insert_sorted r (s ∷ rs) = if key_le r s then r ∷ s ∷ rs else s ∷ insert_sorted r rs

-- `sort_by_key` by start and end.
unfoldable pub sort_by_key : List Range → List Range
unfolding insert_sorted
sort_by_key [] = []
sort_by_key (r ∷ rs) = insert_sorted r (sort_by_key rs)

-- One round of `merge_ranges`: the result is kept with its last range first.
unfoldable pub merge_one : Range → List Range → List Range
merge_one range [] = range ∷ []
merge_one range (last ∷ result) =
    if leb range.start last.stop
    then record last { stop = max last.stop range.stop } ∷ result
    else range ∷ last ∷ result

unfoldable pub merge_loop : List Range → List Range → List Range
unfolding merge_one
merge_loop [] result = result
merge_loop (range ∷ ranges) result = merge_loop ranges (merge_one range result)

unfoldable pub merge_ranges : List Range → List Range
unfolding merge_loop
merge_ranges ranges = reverse (merge_loop ranges [])

abbrev pub take : ℕ → List ℕ → List ℕ
take zero bs = []
take (suc n) [] = []
take (suc n) (b ∷ bs) = b ∷ take n bs

abbrev pub drop : ℕ → List ℕ → List ℕ
drop zero bs = bs
drop (suc n) [] = []
drop (suc n) (b ∷ bs) = drop n bs

-- `&text[from..to]`.
abbrev pub slice : ℕ → ℕ → List ℕ → List ℕ
slice from to text = take (to - from) (drop from text)

abbrev pub open_mark : List ℕ
open_mark = codes "<b>"

abbrev pub close_mark : List ℕ
close_mark = codes "</b>"

-- The loop over the merged ranges, and what follows it: `pos` and `html`.
unfoldable pub highlight_loop : (List ℕ → List ℕ) → List ℕ → List Range → ℕ → List ℕ → List ℕ
highlight_loop encode_text text [] pos html =
    if ltb pos (length text) then html ++ encode_text (drop pos text) else html
highlight_loop encode_text text (range ∷ ranges) pos html =
    let start = min range.start (length text) in
    let end_ = min range.stop (length text) in
    let html = if ltb pos start then html ++ encode_text (slice pos start text) else html in
    let html =
      if ltb start end_
      then html ++ open_mark ++ encode_text (slice start end_ text) ++ close_mark
      else html in
    highlight_loop encode_text text ranges end_ html

unfoldable pub highlight_fragment : (List ℕ → List ℕ) → List ℕ → List Range → List ℕ
unfolding sort_by_key merge_ranges highlight_loop
highlight_fragment encode_text text ranges =
    highlight_loop encode_text text (merge_ranges (sort_by_key ranges)) 0 []
