-- ===== src/Search/Snippets/Merge.antt =====
-- The merged ranges of snippets.rs: disjoint, in order, and of the same extent.
use mathlib.Core.List.{append_assoc, reverse-cons}
use kodegen_tools_citescrape.Base.{
  ℕ, ◌≤◌, ◌<◌, max, ◌≡◌, refl, sym, ap, subst, ◌∙◌, inl, inr, Bool, false, ◌&&◌, ◌||◌, List, [],
  ◌∷◌, ◌++◌, reverse, arith, All, leb, ltb, if◌then◌else◌, Bool-cases,
}
use kodegen_tools_citescrape.Search.Snippets.{
  Range, key_le, insert_sorted, sort_by_key, merge_one, merge_loop, merge_ranges,
}

-- The position lies in one of the ranges.
abbrev pub covers : ℕ → List Range → Bool
covers p [] = false
covers p (r ∷ rs) = (leb r.start p && ltb p r.stop) || covers p rs

abbrev pub StartsFrom : ℕ → Range → Type 0
StartsFrom p r = p ≤ r.start

-- No range starts before one that stands before it.
abbrev pub Sorted : List Range → Type 0
Sorted [] = Unit
Sorted (r ∷ rs) = All (StartsFrom r.start) rs × Sorted rs

-- From a position on, in order, each behind a gap.
abbrev pub Separated : List Range → Type 0
Separated [] = Unit
Separated (r ∷ []) = Unit
Separated (r ∷ s ∷ rs) = (r.stop < s.start) × Separated (s ∷ rs)

covers-insert_sorted :
    (p : ℕ) (r : Range) (rs : List Range) → covers p (insert_sorted r rs) ≡ covers p (r ∷ rs)
unfolding insert_sorted
covers-insert_sorted p r [] = refl
covers-insert_sorted p r (s ∷ rs) = ground (arith, covers-insert_sorted p r rs)

pub covers-sort_by_key : (p : ℕ) (rs : List Range) → covers p (sort_by_key rs) ≡ covers p rs
unfolding sort_by_key
covers-sort_by_key p [] = refl
covers-sort_by_key p (r ∷ rs) =
    ground (arith, covers-insert_sorted p r (sort_by_key rs), covers-sort_by_key p rs)

All-weaken : (a b : ℕ) (rs : List Range) → a ≤ b → All (StartsFrom b) rs → All (StartsFrom a) rs
All-weaken a b [] h s = tt
All-weaken a b (r ∷ rs) h s = (omega (arith, h, s.0), All-weaken a b rs h s.1)

All-insert_sorted :
    (a : ℕ) (r : Range) (rs : List Range)
    → a ≤ r.start
    → All (StartsFrom a) rs
    → All (StartsFrom a) (insert_sorted r rs)
unfolding insert_sorted
All-insert_sorted a r [] h s = (h, tt)
All-insert_sorted a r (x ∷ rs) h s = ground (arith, All-insert_sorted a r rs h s.1)

insert_sorted-Sorted : (r : Range) (rs : List Range) → Sorted rs → Sorted (insert_sorted r rs)
unfolding insert_sorted
insert_sorted-Sorted r [] s = (tt, tt)
insert_sorted-Sorted r (x ∷ rs) s = elim (Bool-cases (key_le r x)) [
  | inl before ↦
      let le : r.start ≤ x.start = ground arith in
      rw before ((le, All-weaken r.start x.start rs le s.0), s)
  | inr after ↦
      let le : x.start ≤ r.start = ground arith in
      rw after (All-insert_sorted x.start r rs le s.0, insert_sorted-Sorted r rs s.1)
]

pub sort_by_key-Sorted : (rs : List Range) → Sorted (sort_by_key rs)
unfolding sort_by_key
sort_by_key-Sorted [] = tt
sort_by_key-Sorted (r ∷ rs) = insert_sorted-Sorted r (sort_by_key rs) (sort_by_key-Sorted rs)

-- The merge from the front: the last range, which may still grow, and those to come.
grow : Range → List Range → List Range
grow last [] = last ∷ []
grow last (r ∷ rs) =
    let merged = grow (record last { stop = max last.stop r.stop }) rs in
    let apart = last ∷ grow r rs in if leb r.start last.stop then merged else apart

merge_loop-grow :
    (rs : List Range) (last : Range) (result : List Range)
    → reverse (merge_loop rs (last ∷ result)) ≡ reverse result ++ grow last rs
unfolding merge_loop grow
merge_loop-grow [] last result = reverse-cons last result
merge_loop-grow (r ∷ rs) last result = elim (Bool-cases (leb r.start last.stop)) [
  | inl near ↦ rw near (merge_loop-grow rs (record last { stop = max last.stop r.stop }) result)
  | inr far ↦ rw far (
      merge_loop-grow rs r (last ∷ result)
      ∙ ap (λ x. x ++ grow r rs) (reverse-cons last result)
      ∙ append_assoc (reverse result) (last ∷ []) (grow r rs))
]

-- In order, of the same extent, and behind gaps.
record Merged (last : Range) (rs : List Range) : Type 0 where
  same : (p : ℕ) → covers p (grow last rs) ≡ covers p (last ∷ rs)
  gaps : Separated (grow last rs)
  first : (q : Range) → q.stop < last.start → Separated (q ∷ grow last rs)

grow_lem :
    (last : Range) (rs : List Range) → All (StartsFrom last.start) rs → Sorted rs → Merged last rs
unfolding grow
grow_lem last [] a s = record { same = λ p. refl; gaps = tt; first = λ q h. (h, tt) }
grow_lem last (r ∷ rs) a s = elim (Bool-cases (leb r.start last.stop)) [
  | inl near ↦
      let wide = record last { stop = max last.stop r.stop } in
      let m = grow_lem wide rs a.1 s.1 in
      record {
        same = λ p. rw near (m.same p ∙ ground arith);
        gaps = rw near m.gaps;
        first = λ q h. rw near (m.first q h);
      }
  | inr far ↦
      let m = grow_lem r rs s.0 s.1 in
      let gap : last.stop < r.start = ground arith in
      record {
        same = λ p. rw far (ground (arith, m.same p));
        gaps = rw far (m.first last gap);
        first = λ q h. rw far (h, m.first last gap);
      }
]

merged :
    (rs : List Range)
    → Sorted rs
    → ((p : ℕ) → covers p (merge_ranges rs) ≡ covers p rs) × Separated (merge_ranges rs)
unfolding merge_ranges merge_loop merge_one
merged [] s = (λ p. refl, tt)
merged (r ∷ rs) s =
    let m = grow_lem r rs s.0 s.1 in
    let e = merge_loop-grow rs r [] in
    (λ p. ap (covers p) e ∙ m.same p, subst Separated (sym e) m.gaps)

-- The ranges that a snippet's marks follow are in order, each behind a gap, and they cover the
-- positions that the given ranges cover.
pub merge_sorted_ranges :
    (ranges : List Range) (p : ℕ)
    → Separated (merge_ranges (sort_by_key ranges))
      × (covers p (merge_ranges (sort_by_key ranges)) ≡ covers p ranges)
merge_sorted_ranges ranges p =
    let (same, gaps) = merged (sort_by_key ranges) (sort_by_key-Sorted ranges) in
    (gaps, same p ∙ covers-sort_by_key p ranges)

-- A range that does not end before it starts.
abbrev pub Proper : Range → Type 0
Proper r = r.start ≤ r.stop

insert_sorted-Proper :
    (r : Range) (rs : List Range) → Proper r → All Proper rs → All Proper (insert_sorted r rs)
unfolding insert_sorted
insert_sorted-Proper r [] h a = (h, tt)
insert_sorted-Proper r (x ∷ rs) h a = ground (arith, insert_sorted-Proper r rs h a.1)

sort_by_key-Proper : (rs : List Range) → All Proper rs → All Proper (sort_by_key rs)
unfolding sort_by_key
sort_by_key-Proper [] a = tt
sort_by_key-Proper (r ∷ rs) a =
    insert_sorted-Proper r (sort_by_key rs) a.0 (sort_by_key-Proper rs a.1)

grow-Proper :
    (last : Range) (rs : List Range) → Proper last → All Proper rs → All Proper (grow last rs)
unfolding grow
grow-Proper last [] h a = (h, tt)
grow-Proper last (r ∷ rs) h a = elim (Bool-cases (leb r.start last.stop)) [
  | inl near ↦
      let wide = record last { stop = max last.stop r.stop } in
      rw near (grow-Proper wide rs (omega (arith, h)) a.1)
  | inr far ↦ rw far (h, grow-Proper r rs a.0 a.1)
]

merge_ranges-Proper : (rs : List Range) → All Proper rs → All Proper (merge_ranges rs)
unfolding merge_ranges merge_loop merge_one
merge_ranges-Proper [] a = tt
merge_ranges-Proper (r ∷ rs) a =
    subst (All Proper) (sym (merge_loop-grow rs r [])) (grow-Proper r rs a.0 a.1)

pub merge_sorted-Proper :
    (rs : List Range) → All Proper rs → All Proper (merge_ranges (sort_by_key rs))
merge_sorted-Proper rs a = merge_ranges-Proper (sort_by_key rs) (sort_by_key-Proper rs a)
