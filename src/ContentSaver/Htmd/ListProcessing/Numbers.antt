-- ===== src/ContentSaver/Htmd/ListProcessing/Numbers.antt =====
-- The markers of the items of nested lists (list_processing.rs), and their depths.
use mathlib.Core.List.{append_assoc}
use kodegen_tools_citescrape.Base.{
  ℕ, suc, ◌+◌, ◌%◌, ◌^◌, ◌≤◌, ◌<◌, ◌≡◌, refl, inl, inr, Bool, true, false, String, Option, List, [],
  ◌∷◌, ◌++◌, arith, All, length, ◌==◌, if◌then◌else◌, Bool-cases,
}
use kodegen_tools_citescrape.ContentSaver.Htmd.ListProcessing.{
  Node, text_node, element, other_node, Nodes, no_nodes, more, ListMarker, bullet, number, ListItem,
  trim, start_of, is_li_element, li_content, marker_for, own_item, list_items, item_of,
  nested_items, process_list,
}
use kodegen_tools_citescrape.ContentSaver.Htmd.ListProcessing.Depths.{Deep, nested_items-Deep}

-- The marker that an item may have where the last one of its list was below a number.
abbrev Marked : Bool → ℕ → ListMarker → Type 0
Marked true low (number n) = low ≤ n
Marked true low bullet = ⊥
Marked false low (number n) = ⊥
Marked false low bullet = Unit

abbrev after : ℕ → ListMarker → ℕ
after low (number n) = n + 1
after low bullet = low

-- All items lie at a depth or deeper; those at that depth have bullets, or in an ordered list
-- numbers that increase from a first one.
abbrev pub InOrder : Bool → ℕ → ℕ → List ListItem → Type 0
InOrder ordered d low [] = Unit
InOrder ordered d low (i ∷ is) =
    if i.depth == d
    then Marked ordered low i.marker × InOrder ordered d (after low i.marker) is
    else (d < i.depth) × InOrder ordered d low is

skip_deeper :
    (ordered : Bool) (d low : ℕ) (xs ys : List ListItem)
    → All (Deep (d + 1)) xs
    → InOrder ordered d low ys
    → InOrder ordered d low (xs ++ ys)
skip_deeper ordered d low [] ys a o = o
skip_deeper ordered d low (x ∷ xs) ys a o =
    let deeper : (x.depth == d) ≡ false = ground (arith, a.0) in
    rw deeper (omega (arith, a.0), skip_deeper ordered d low xs ys a.1 o)

-- The items of a list, without those of the lists nested in it.
abbrev pub item_count : Nodes → ℕ
item_count no_nodes = 0
item_count (more n ns) = if is_li_element n then suc (item_count ns) else item_count ns

-- The number of an item after the given counter, if any, is a usize.
abbrev pub Fits : Bool → ℕ → Nodes → Type 0
Fits true c ns = c + item_count ns ≤ 2 ^ 64
Fits false c ns = Unit

-- The counter has not passed the numbers given so far.
abbrev Counts : Bool → ℕ → ℕ → Type 0
Counts true low c = low ≤ c
Counts false low c = Unit

abbrev advance : Bool → ℕ → ℕ
advance ordered c = if ordered then c + 1 else c

put_own :
    (handle : Node → Option (List ℕ)) (ordered : Bool) (d low c : ℕ) (ns : Nodes)
    (ys : List ListItem)
    → Counts ordered low c
    → ((k : ℕ) → Counts ordered k (advance ordered c) → InOrder ordered d k ys)
    → InOrder ordered d low (own_item handle d ordered c ns ++ ys)
unfolding own_item
put_own handle ordered d low c ns ys h o =
    elim (Bool-cases (length (trim (li_content handle ns)) == 0)) [
      | inl none ↦ rw none (o low (later ordered h))
      | inr some_text ↦ rw (some_text, same d) (mark ordered h o)
    ]
  where
    same : (n : ℕ) → (n == n) ≡ true
    same n = ground arith

    later : (b : Bool) → Counts b low c → Counts b low (advance b c)
    later true g = omega (arith, g)
    later false g = tt

    mark :
        (b : Bool)
        → Counts b low c
        → ((k : ℕ) → Counts b k (advance b c) → InOrder b d k ys)
        → Marked b low (marker_for b c) × InOrder b d (after low (marker_for b c)) ys
    mark true g p = (g, p (c + 1) (omega arith))
    mark false g p = (tt, p low tt)

put_item :
    (handle : Node → Option (List ℕ)) (ordered : Bool) (d low c : ℕ) (n : Node) (ys : List ListItem)
    → Counts ordered low c
    → is_li_element n ≡ true
    → ((k : ℕ) → Counts ordered k (advance ordered c) → InOrder ordered d k ys)
    → InOrder ordered d low (item_of handle d ordered c n ++ ys)
unfolding list_items is_li_element
put_item handle ordered d low c (text_node t) ys h li o = ground (arith, li)
put_item handle ordered d low c other_node ys h li o = ground (arith, li)
put_item handle ordered d low c (element tag attrs ns) ys h li o =
    let deep = nested_items handle (d + 1) ns in
    rw (append_assoc (own_item handle d ordered c ns) deep ys) (
      put_own handle ordered d low c ns (deep ++ ys) h
        (λ k g. skip_deeper ordered d k deep ys (nested_items-Deep handle (d + 1) ns) (o k g)))

no_items :
    (handle : Node → Option (List ℕ)) (d : ℕ) (ordered : Bool) (c : ℕ) (ns : Nodes)
    → item_count ns ≡ 0
    → list_items handle d ordered c ns ≡ []
unfolding list_items
no_items handle d ordered c no_nodes e = refl
no_items handle d ordered c (more n ns) e = elim (Bool-cases (is_li_element n)) [
  | inl li ↦ absurd (ground (arith, li))
  | inr other ↦ rw other (no_items handle d ordered c ns (rw other at e))
]

-- The items of a list in order, whatever the counter and the numbers before.
abbrev Ordered : (Node → Option (List ℕ)) → ℕ → Nodes → Type 0
Ordered handle d ns =
    (b : Bool) (k c : ℕ) → Counts b k c → Fits b c ns → InOrder b d k (list_items handle d b c ns)

next_items :
    (handle : Node → Option (List ℕ)) (d c : ℕ) (ns : Nodes) (ordered : Bool)
    → Ordered handle d ns
    → Fits ordered (advance ordered c) ns
    → (k : ℕ) → Counts ordered k (advance ordered c)
    → InOrder ordered d k (
        if ordered
        then list_items handle d ordered ((c + 1) % 2 ^ 64) ns
        else list_items handle d ordered c ns)
next_items handle d c ns true ih f k g =
    let unwrapped : 0 < item_count ns → (c + 1) % 2 ^ 64 ≡ c + 1 = λ some_item. omega (arith, f) in
    elim (Bool-cases (item_count ns == 0)) [
      | inl none ↦ rw (no_items handle d true ((c + 1) % 2 ^ 64) ns (ground arith)) tt
      | inr some_item ↦ rw (unwrapped (ground arith)) (ih true k (c + 1) g f)
    ]
next_items handle d c ns false ih f k g = ih false k c g tt

fits-next :
    (ordered : Bool) (c : ℕ) (n : Node) (ns : Nodes)
    → is_li_element n ≡ true
    → Fits ordered c (more n ns)
    → Fits ordered (advance ordered c) ns
fits-next true c n ns li f = ground (arith, li)
fits-next false c n ns li f = tt

fits-other :
    (ordered : Bool) (c : ℕ) (n : Node) (ns : Nodes)
    → is_li_element n ≡ false
    → Fits ordered c (more n ns)
    → Fits ordered c ns
fits-other true c n ns other f = ground (arith, other)
fits-other false c n ns other f = tt

list_items-InOrder : (handle : Node → Option (List ℕ)) (d : ℕ) (ns : Nodes) → Ordered handle d ns
unfolding list_items
list_items-InOrder handle d no_nodes ordered low c h f = tt
list_items-InOrder handle d (more n ns) ordered low c h f =
    let ih : Ordered handle d ns = list_items-InOrder handle d ns in
    elim (Bool-cases (is_li_element n)) [
      | inl li ↦ rw li (
          put_item handle ordered d low c n _ h li
            (next_items handle d c ns ordered ih (fits-next ordered c n ns li f)))
      | inr other ↦ rw other (ih ordered low c h (fits-other ordered c n ns other f))
    ]

-- In the items of a list, those of depth 0 have bullets, or in an ordered list numbers that
-- increase from its `start` attribute (from 1 without one); all others lie deeper. For an ordered
-- list the condition is that its last number, counted from the start, is below 2^64.
pub process_list-InOrder :
    (handle : Node → Option (List ℕ)) (attrs : List (String × List ℕ)) (children : Nodes)
    (is_ordered : Bool)
    → Fits is_ordered (start_of attrs) children
    → InOrder is_ordered 0
        (if is_ordered then start_of attrs else 1)
        (process_list handle attrs children is_ordered)
unfolding process_list
process_list-InOrder handle attrs children true f =
    list_items-InOrder handle 0 children true (start_of attrs) (start_of attrs) (omega arith) f
process_list-InOrder handle attrs children false f =
    list_items-InOrder handle 0 children false 1 1 tt tt
