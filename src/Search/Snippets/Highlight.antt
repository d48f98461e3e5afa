-- ===== src/Search/Snippets/Highlight.antt =====
-- What `highlight_fragment` (snippets.rs) returns: the whole text, with marks where a range covers it.
use mathlib.Core.List.{append_assoc, append-nil}
use kodegen_tools_citescrape.Base.{
  ℕ, zero, suc, ◌+◌, ◌-◌, ◌≤◌, min, ◌≡◌, refl, sym, ap, ◌∙◌, inl, inr, Bool, true, false, List, [],
  ◌∷◌, ◌++◌, replicate, length, arith, All, leb, ltb, if◌then◌else◌, Bool-cases,
}
use kodegen_tools_citescrape.Search.Snippets.{
  Range, drop, slice, open_mark, close_mark, sort_by_key, merge_ranges, highlight_loop,
  highlight_fragment,
}
use kodegen_tools_citescrape.Search.Snippets.Merge.{
  covers, Separated, Proper, merge_sorted_ranges, merge_sorted-Proper,
}
use kodegen_tools_citescrape.Search.Snippets.Marks.{
  Piece, plain, bold, render, joined, marks, cover_marks, From, From-le, cover_marks-split,
  cover_marks-before, cover_marks-within, cover_marks-after, length-drop, length-slice, slice-drop,
}

abbrev put : Bool → Piece → List Piece → List Piece
put b p ps = if b then p ∷ ps else ps

-- The pieces from a position on.
pieces : List ℕ → List Range → ℕ → List Piece
pieces text [] pos = put (ltb pos (length text)) (plain (drop pos text)) []
pieces text (r ∷ rs) pos =
    let start = min r.start (length text) in
    let end_ = min r.stop (length text) in
    put (ltb pos start) (plain (slice pos start text))
      (put (ltb start end_) (bold (slice start end_ text)) (pieces text rs end_))

put_plain :
    (enc : List ℕ → List ℕ) (b : Bool) (html bs : List ℕ) (ps : List Piece)
    → (if b then html ++ enc bs else html) ++ render enc ps
      ≡ html ++ render enc (put b (plain bs) ps)
put_plain enc true html bs ps = append_assoc html (enc bs) (render enc ps)
put_plain enc false html bs ps = refl

put_bold :
    (enc : List ℕ → List ℕ) (b : Bool) (html bs : List ℕ) (ps : List Piece)
    → (if b then html ++ open_mark ++ enc bs ++ close_mark else html) ++ render enc ps
      ≡ html ++ render enc (put b (bold bs) ps)
put_bold enc true html bs ps = ground (
  arith,
  append_assoc html open_mark (enc bs),
  append_assoc html (open_mark ++ enc bs) close_mark,
  append_assoc html (open_mark ++ enc bs ++ close_mark) (render enc ps),
)
put_bold enc false html bs ps = refl

loop-render :
    (encode_text : List ℕ → List ℕ) (text : List ℕ) (rs : List Range) (pos : ℕ) (html : List ℕ)
    → highlight_loop encode_text text rs pos html ≡ html ++ render encode_text (pieces text rs pos)
unfolding highlight_loop pieces
loop-render enc text [] pos html = elim (Bool-cases (ltb pos (length text))) [
  | inl more ↦ rw more (ap (λ x. html ++ x) (sym (append-nil (enc (drop pos text)))))
  | inr done ↦ rw done (sym (append-nil html))
]
loop-render enc text (r ∷ rs) pos html =
    let start = min r.start (length text) in
    let end_ = min r.stop (length text) in
    let html1 = if ltb pos start then html ++ enc (slice pos start text) else html in
    loop-render enc text rs end_ _
    ∙ put_bold enc (ltb start end_) html1 (slice start end_ text) (pieces text rs end_)
    ∙ put_plain enc (ltb pos start) html (slice pos start text) _

joined-put_plain :
    (p q : ℕ) (text : List ℕ) (ps : List Piece)
    → p ≤ q
    → joined ps ≡ drop q text
    → joined (put (ltb p q) (plain (slice p q text)) ps) ≡ drop p text
joined-put_plain p q text ps h e = elim (Bool-cases (ltb p q)) [
  | inl more ↦ rw (more, e) (slice-drop p q text h)
  | inr none ↦ let same : p ≡ q = ground arith in rw (none, same) e
]

joined-put_bold :
    (p q : ℕ) (text : List ℕ) (ps : List Piece)
    → p ≤ q
    → joined ps ≡ drop q text
    → joined (put (ltb p q) (bold (slice p q text)) ps) ≡ drop p text
joined-put_bold p q text ps h e = elim (Bool-cases (ltb p q)) [
  | inl more ↦ rw (more, e) (slice-drop p q text h)
  | inr none ↦ let same : p ≡ q = ground arith in rw (none, same) e
]

marks-put_plain :
    (p q : ℕ) (text : List ℕ) (ps : List Piece)
    → p ≤ q
    → q ≤ length text
    → marks (put (ltb p q) (plain (slice p q text)) ps) ≡ replicate (q - p) false ++ marks ps
marks-put_plain p q text ps h k = elim (Bool-cases (ltb p q)) [
  | inl more ↦ rw (more, length-slice p q text h k) refl
  | inr none ↦ let same : q - p ≡ 0 = ground arith in rw (none, same) refl
]

marks-put_bold :
    (p q : ℕ) (text : List ℕ) (ps : List Piece)
    → p ≤ q
    → q ≤ length text
    → marks (put (ltb p q) (bold (slice p q text)) ps) ≡ replicate (q - p) true ++ marks ps
marks-put_bold p q text ps h k = elim (Bool-cases (ltb p q)) [
  | inl more ↦ rw (more, length-slice p q text h k) refl
  | inr none ↦ let same : q - p ≡ 0 = ground arith in rw (none, same) refl
]

drop_all : (bs : List ℕ) → drop (length bs) bs ≡ []
drop_all [] = refl
drop_all (b ∷ bs) = drop_all bs

pieces-joined :
    (text : List ℕ) (rs : List Range) (pos : ℕ)
    → pos ≤ length text
    → From pos rs
    → joined (pieces text rs pos) ≡ drop pos text
unfolding pieces
pieces-joined text [] pos h f = elim (Bool-cases (ltb pos (length text))) [
  | inl more ↦ rw more (append-nil (drop pos text))
  | inr done ↦ let same : pos ≡ length text = ground arith in rw (done, same) (sym (drop_all text))
]
pieces-joined text (r ∷ rs) pos h f =
    let start = min r.start (length text) in
    let end_ = min r.stop (length text) in
    joined-put_plain pos start text _ (omega (arith, h, f.0)) (
      joined-put_bold start end_ text _ (omega (arith, f.1))
        (pieces-joined text rs end_ (omega arith) (From-le end_ r.stop rs (omega arith) f.2)))

-- The marks of one range and of those that follow, where it is cut at the end of the text.
module _ (n pos : ℕ) (r : Range) (rs : List Range) (h : pos ≤ n) (f : From pos (r ∷ rs)) where
  abbrev s : ℕ
  s = min r.start n

  abbrev e : ℕ
  e = min r.stop n

  marks_before : cover_marks (r ∷ rs) pos (s - pos) ≡ replicate (s - pos) false
  marks_before =
      let reach : pos + (s - pos) ≤ r.start = omega (arith, h, f.0) in
      cover_marks-before (r ∷ rs) pos r.start (s - pos) (omega arith, f.1, f.2) reach

  marks_within : cover_marks (r ∷ rs) s (e - s) ≡ replicate (e - s) true
  marks_within = elim (Bool-cases (ltb s e)) [
    | inl some_room ↦
        let from_start : r.start ≤ s = ground arith in
        let to_stop : s + (e - s) ≤ r.stop = ground arith in
        cover_marks-within r rs s (e - s) from_start to_stop
    | inr none ↦ let empty : e - s ≡ 0 = ground arith in rw empty refl
  ]

  marks_after : cover_marks (r ∷ rs) e (n - e) ≡ cover_marks rs e (n - e)
  marks_after = elim (Bool-cases (leb r.stop n)) [
    | inl inside ↦ let stops : r.stop ≤ e = ground arith in cover_marks-after r rs e (n - e) stops
    | inr cut ↦ let empty : n - e ≡ 0 = ground arith in rw empty refl
  ]

  range_marks :
      replicate (s - pos) false ++ (replicate (e - s) true ++ cover_marks rs e (n - e))
      ≡ cover_marks (r ∷ rs) pos (n - pos)
  range_marks =
      let rest : n - pos ≡ (s - pos) + ((e - s) + (n - e)) = omega (arith, h, f.0, f.1) in
      let at_s : pos + (s - pos) ≡ s = omega (arith, h, f.0) in
      let at_e : s + (e - s) ≡ e = omega (arith, f.1) in
      let first = cover_marks-split (r ∷ rs) pos (s - pos) ((e - s) + (n - e)) in
      let second = cover_marks-split (r ∷ rs) s (e - s) (n - e) in
      sym (
        ap (cover_marks (r ∷ rs) pos) rest
        ∙ first
        ∙ ap (λ q. cover_marks (r ∷ rs) pos (s - pos) ++ cover_marks (r ∷ rs) q ((e - s) + (n - e)))
            at_s
        ∙ ap (λ x. x ++ cover_marks (r ∷ rs) s ((e - s) + (n - e))) marks_before
        ∙ ap (λ x. replicate (s - pos) false ++ x)
            (second
              ∙ ap (λ q. cover_marks (r ∷ rs) s (e - s) ++ cover_marks (r ∷ rs) q (n - e)) at_e
              ∙ ap (λ x. x ++ cover_marks (r ∷ rs) e (n - e)) marks_within
              ∙ ap (λ x. replicate (e - s) true ++ x) marks_after))

pieces-marks :
    (text : List ℕ) (rs : List Range) (pos : ℕ)
    → pos ≤ length text
    → From pos rs
    → marks (pieces text rs pos) ≡ cover_marks rs pos (length text - pos)
unfolding pieces
pieces-marks text [] pos h f = elim (Bool-cases (ltb pos (length text))) [
  | inl more ↦
      rw (more, length-drop pos text)
        (append-nil (replicate (length text - pos) false) ∙ sym (no_ranges pos (length text - pos)))
  | inr done ↦ let same : length text - pos ≡ 0 = ground arith in rw (done, same) refl
]
  where
    no_ranges : (p a : ℕ) → cover_marks [] p a ≡ replicate a false
    no_ranges p zero = refl
    no_ranges p (suc a) = ap (λ ms. false ∷ ms) (no_ranges (p + 1) a)
pieces-marks text (r ∷ rs) pos h f =
    let n = length text in
    let start = min r.start n in
    let end_ = min r.stop n in
    let rest = pieces-marks text rs end_ (omega arith) (From-le end_ r.stop rs (omega arith) f.2) in
    marks-put_plain pos start text _ (omega (arith, h, f.0)) (omega arith)
    ∙ ap (λ x. replicate (start - pos) false ++ x)
        (marks-put_bold start end_ text _ (omega (arith, f.1)) (omega arith)
          ∙ ap (λ x. replicate (end_ - start) true ++ x) rest)
    ∙ range_marks n pos r rs h f

From-stop : (r : Range) (rs : List Range) → Separated (r ∷ rs) → All Proper rs → From r.stop rs
From-stop r [] s a = tt
From-stop r (x ∷ rs) s a = (omega (arith, s.0), a.0, From-stop x rs s.1 a.1)

From-zero : (rs : List Range) → Separated rs → All Proper rs → From 0 rs
From-zero [] s a = tt
From-zero (r ∷ rs) s a = (omega arith, a.0, From-stop r rs s a.1)

cover_marks-same :
    (xs ys : List Range) (p n : ℕ)
    → ((q : ℕ) → covers q xs ≡ covers q ys)
    → cover_marks xs p n ≡ cover_marks ys p n
cover_marks-same xs ys p zero h = refl
cover_marks-same xs ys p (suc n) h = rw (h p, cover_marks-same xs ys (p + 1) n h) refl

-- A text divided into pieces, of which those marked are the positions that the ranges cover.
pub record Marked (encode_text : List ℕ → List ℕ) (text : List ℕ) (ranges : List Range)
    (html : List ℕ) : Type 0 where
  pub parts : List Piece
  pub rendered : html ≡ render encode_text parts
  pub whole : joined parts ≡ text
  pub marked : marks parts ≡ cover_marks ranges 0 (length text)

-- For ranges that do not end before they start, the snippet is the whole text in pieces, each
-- encoded, and between `<b>` and `</b>` where a range covers it: a byte of the text is marked
-- exactly if one of the ranges covers its position.
pub highlight_fragment-Marked :
    (encode_text : List ℕ → List ℕ) (text : List ℕ) (ranges : List Range)
    → All Proper ranges
    → Marked encode_text text ranges (highlight_fragment encode_text text ranges)
unfolding highlight_fragment
highlight_fragment-Marked enc text ranges a =
    let ms = merge_ranges (sort_by_key ranges) in
    let order = From-zero ms (merge_sorted_ranges ranges 0).0 (merge_sorted-Proper ranges a) in
    let no_less : length text - 0 ≡ length text = omega arith in
    record {
      parts = pieces text ms 0;
      rendered = loop-render enc text ms 0 [];
      whole = pieces-joined text ms 0 (omega arith) order;
      marked =
          pieces-marks text ms 0 (omega arith) order
          ∙ ap (cover_marks ms 0) no_less
          ∙ cover_marks-same ms ranges 0 (length text) (λ q. (merge_sorted_ranges ranges q).1);
    }
