-- ===== src/Search/Snippets/Tests.antt =====
-- The marks in a snippet (snippets.rs) on a concrete text.
use kodegen_tools_citescrape.Base.{◌≡◌, refl, arith, List, [], ◌∷◌, codes}
use kodegen_tools_citescrape.Search.Snippets.{
  Range, insert_sorted, sort_by_key, merge_one, merge_loop, merge_ranges, highlight_loop,
  highlight_fragment,
}
use kodegen_tools_citescrape.Search.Snippets.Highlight.{Marked, highlight_fragment-Marked}

abbrev ranges : List Range
ranges =
    record { start = 4; stop = 6 }
    ∷ record { start = 0; stop = 2 }
    ∷ record { start = 1; stop = 3 }
    ∷ []

marked_text : highlight_fragment (λ bs. bs) (codes "abc def") ranges ≡ codes "<b>abc</b> <b>de</b>f"
unfolding highlight_fragment highlight_loop merge_ranges merge_loop merge_one sort_by_key
    insert_sorted
marked_text = refl

highlight_fragment-Marked_example :
    Marked
      (λ bs. bs)
      (codes "abc def")
      ranges
      (highlight_fragment (λ bs. bs) (codes "abc def") ranges)
highlight_fragment-Marked_example =
    highlight_fragment-Marked (λ bs. bs) (codes "abc def") ranges
      (omega arith, (omega arith, (omega arith, tt)))
