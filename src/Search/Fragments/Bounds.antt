-- ===== src/Search/Fragments/Bounds.antt =====
-- The extent of the fragments of a text, and of the marks in them (snippets.rs).
use kodegen_tools_citescrape.Base.{
  ℕ, ◌-◌, ◌≤◌, max, String, ◌≡◌, refl, inl, inr, not, Option, none, some, List, [], ◌∷◌, ◌++◌,
  arith, All, length, ltb, ◌==◌, Bool-cases,
}
use kodegen_tools_citescrape.Search.Snippets.{Range, highlighted_ranges}
use kodegen_tools_citescrape.Search.Fragments.{
  Scores, Token, FragmentCandidate, new_fragment, add_term, matched, keep, search_loop,
  search_fragments,
}

-- The tokens stand one behind the other from a position on, up to the end of the text, and none
-- is longer than a bound.
abbrev pub Tokens : ℕ → ℕ → ℕ → List Token → Type 0
Tokens len longest p [] = p ≤ len
Tokens len longest p (t ∷ ts) =
    (p ≤ t.offset_from)
    × (t.offset_from ≤ t.offset_to)
    × (t.offset_to - t.offset_from ≤ longest)
    × Tokens len longest t.offset_to ts

abbrev pub PositionIn : ℕ → ℕ → String × Range → Type 0
PositionIn start stop q = (start ≤ q.1.start) × (q.1.start ≤ q.1.stop) × (q.1.stop ≤ stop)

-- A fragment lies in the text, its terms' positions lie in it, and its length is bounded.
pub record Fits {S : Scores} (len bound : ℕ) (f : FragmentCandidate S) : Type 0 where
  pub in_order : f.start_offset ≤ f.stop_offset
  pub in_text : f.stop_offset ≤ len
  pub bounded : f.stop_offset - f.start_offset ≤ bound
  pub positions : All (PositionIn f.start_offset f.stop_offset) f.term_positions

module _ (S : Scores) (to_lowercase : String → String) (terms : String → Option S.Score) where
  longer :
      (a b c : ℕ) (ps : List (String × Range))
      → b ≤ c
      → All (PositionIn a b) ps
      → All (PositionIn a c) ps
  longer a b c [] h ps = tt
  longer a b c (q ∷ qs) h ps = ((ps.0.0, ps.0.1, omega (arith, ps.0.2, h)), longer a b c qs h ps.1)

  extend :
      (a b : ℕ) (ps : List (String × Range)) (q : String × Range)
      → All (PositionIn a b) ps
      → PositionIn a b q
      → All (PositionIn a b) (ps ++ q ∷ [])
  extend a b [] q h k = (k, tt)
  extend a b (p ∷ ps) q h k = (h.0, extend a b ps q h.1 k)

  matched-Fits :
      (len bound : ℕ) (lower : String) (t : Token) (f : FragmentCandidate S) (o : Option S.Score)
      → f.stop_offset ≡ t.offset_to
      → f.start_offset ≤ t.offset_from
      → t.offset_from ≤ t.offset_to
      → Fits len bound f
      → Fits len bound (matched S to_lowercase lower t f o)
        × ((matched S to_lowercase lower t f o).stop_offset ≡ t.offset_to)
  unfolding matched add_term
  matched-Fits len bound lower t f none stop from order v = (v, stop)
  matched-Fits len bound lower t f (some score) stop from order v = (
    record {
      in_order = omega (arith, v.in_order, stop);
      in_text = omega (arith, v.in_text, stop);
      bounded = omega (arith, v.bounded, stop);
      positions =
          extend f.start_offset t.offset_to f.term_positions _
            (longer f.start_offset f.stop_offset t.offset_to f.term_positions (omega (arith, stop))
              v.positions)
            (from, order, omega arith);
    },
    refl,
  )

  keep-Fits :
      (len bound : ℕ) (f : FragmentCandidate S) (fs : List (FragmentCandidate S))
      → Fits len bound f
      → All (Fits len bound) fs
      → All (Fits len bound) (keep S f fs)
  unfolding keep
  keep-Fits len bound f fs v vs = elim (Bool-cases (not (length f.unique_terms == 0))) [
    | inl found ↦ rw found (append fs vs)
    | inr nothing ↦ rw nothing vs
  ]
    where
      append :
          (gs : List (FragmentCandidate S))
          → All (Fits len bound) gs
          → All (Fits len bound) (gs ++ f ∷ [])
      append [] h = (v, tt)
      append (g ∷ gs) h = (h.0, append gs h.1)

  Tokens-end : (len longest p : ℕ) (ts : List Token) → Tokens len longest p ts → p ≤ len
  Tokens-end len longest p [] h = h
  Tokens-end len longest p (t ∷ ts) h =
      omega (arith, h.0, h.1, Tokens-end len longest t.offset_to ts h.3)

  search_loop-Fits :
      (len longest max_chars p : ℕ) (ts : List Token) (f : FragmentCandidate S)
      (fs : List (FragmentCandidate S))
      → Tokens len longest p ts
      → f.stop_offset ≤ p
      → Fits len (max max_chars longest) f
      → All (Fits len (max max_chars longest)) fs
      → All (Fits len (max max_chars longest)) (search_loop S to_lowercase terms max_chars ts f fs)
  unfolding search_loop new_fragment
  search_loop-Fits len longest max_chars p [] f fs h stop v vs =
      keep-Fits len (max max_chars longest) f fs v vs
  search_loop-Fits len longest max_chars p (t ∷ ts) f fs h stop v vs =
      let bound = max max_chars longest in
      let lower = to_lowercase t.text in
      let inside = Tokens-end len longest t.offset_to ts h.3 in
      elim (Bool-cases (ltb max_chars (t.offset_to - f.start_offset))) [
        | inl full ↦
            let g = record (new_fragment S t.offset_from) { stop_offset = t.offset_to } in
            let gv : Fits len bound g = record {
              in_order = h.1;
              in_text = inside;
              bounded = omega (arith, h.2);
              positions = tt;
            } in
            let (mv, end_) =
              matched-Fits len bound lower t g (terms lower) refl (omega arith) h.1 gv in
            rw full (
              search_loop-Fits len longest max_chars t.offset_to ts _ _ h.3 (omega (arith, end_)) mv
                (keep-Fits len bound f fs v vs))
        | inr room ↦
            let g = record f { stop_offset = t.offset_to } in
            let near : t.offset_to - f.start_offset ≤ max_chars = ground arith in
            let later : f.stop_offset ≤ t.offset_to = omega (arith, stop, h.0, h.1) in
            let from : f.start_offset ≤ t.offset_from = omega (arith, v.in_order, stop, h.0) in
            let gv : Fits len bound g = record {
              in_order = omega (arith, v.in_order, later);
              in_text = inside;
              bounded = omega (arith, near);
              positions =
                  longer f.start_offset f.stop_offset t.offset_to f.term_positions later
                    v.positions;
            } in
            let (mv, end_) = matched-Fits len bound lower t g (terms lower) refl from h.1 gv in
            rw room (
              search_loop-Fits len longest max_chars t.offset_to ts _ fs h.3 (omega (arith, end_))
                mv vs)
      ]

-- Every fragment found lies in the text, is no longer than the limit or the longest token, and has
-- the positions of its terms in it, where the tokens stand one behind the other in the text.
pub search_fragments-Fits :
    (S : Scores) (to_lowercase : String → String) (terms : String → Option S.Score)
    (len longest max_chars : ℕ) (tokens : List Token)
    → Tokens len longest 0 tokens
    → All
        (Fits len (max max_chars longest))
        (search_fragments S to_lowercase terms max_chars tokens)
unfolding search_fragments new_fragment
search_fragments-Fits S to_lowercase terms len longest max_chars tokens h =
    search_loop-Fits S to_lowercase terms len longest max_chars 0 tokens (new_fragment S 0) [] h
      (omega arith)
      (record {
        in_order = omega arith;
        in_text = omega arith;
        bounded = omega arith;
        positions = tt;
      })
      tt

-- The ranges of a fragment that fits: the positions of its terms, counted from its start.
abbrev pub ranges_of : List (String × Range) → List Range
ranges_of [] = []
ranges_of (q ∷ qs) = q.1 ∷ ranges_of qs

abbrev pub InFragment : ℕ → Range → Type 0
InFragment size r = (r.start ≤ r.stop) × (r.stop ≤ size)

-- The ranges to mark in a fragment that fits do not end before they start and lie in its text.
pub highlighted_ranges-InFragment :
    (S : Scores) (len bound : ℕ) (f : FragmentCandidate S)
    → Fits len bound f
    → All
        (InFragment (f.stop_offset - f.start_offset))
        (highlighted_ranges f.start_offset (ranges_of f.term_positions))
unfolding highlighted_ranges
highlighted_ranges-InFragment S len bound f v =
    each f.start_offset f.stop_offset f.term_positions v.positions
  where
    each :
        (a b : ℕ) (ps : List (String × Range))
        → All (PositionIn a b) ps
        → All (InFragment (b - a)) (highlighted_ranges a (ranges_of ps))
    each a b [] h = tt
    each a b (p ∷ ps) h = ((omega (arith, h.0.0, h.0.1), omega (arith, h.0.2)), each a b ps h.1)
