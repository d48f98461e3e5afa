-- ===== src/ContentSaver/Htmd/ListProcessing/Depths.antt =====
-- The depths of the items of nested lists (list_processing.rs).
use kodegen_tools_citescrape.Base.{
  ℕ, ◌+◌, ◌%◌, ◌^◌, ◌≤◌, inl, inr, Bool, true, false, str_eq, Option, List, [], ◌∷◌, ◌++◌, arith,
  All, length, ◌==◌, if◌then◌else◌, Bool-cases,
}
use kodegen_tools_citescrape.ContentSaver.Htmd.ListProcessing.{
  Node, text_node, element, other_node, Nodes, no_nodes, more, ListItem, trim, start_of,
  is_li_element, li_content, own_item, list_items, item_of, nested_items, nested_of,
}

abbrev pub Deep : ℕ → ListItem → Type 0
Deep d i = d ≤ i.depth

append-Deep :
    (d : ℕ) (xs ys : List ListItem) → All (Deep d) xs → All (Deep d) ys → All (Deep d) (xs ++ ys)
append-Deep d [] ys a b = b
append-Deep d (x ∷ xs) ys a b = (a.0, append-Deep d xs ys a.1 b)

shallower : (d : ℕ) (xs : List ListItem) → All (Deep (d + 1)) xs → All (Deep d) xs
shallower d [] a = tt
shallower d (x ∷ xs) a = (omega (arith, a.0), shallower d xs a.1)

own_item-Deep :
    (handle : Node → Option (List ℕ)) (d : ℕ) (ordered : Bool) (c : ℕ) (ns : Nodes)
    → All (Deep d) (own_item handle d ordered c ns)
unfolding own_item
own_item-Deep handle d ordered c ns =
    elim (Bool-cases (length (trim (li_content handle ns)) == 0)) [
      | inl none ↦ rw none tt
      | inr some_text ↦ rw some_text (omega arith, tt)
    ]

either-Deep :
    (d : ℕ) (b : Bool) (xs ys : List ListItem)
    → All (Deep d) xs
    → All (Deep d) ys
    → All (Deep d) (if b then xs else ys)
either-Deep d true xs ys a b = a
either-Deep d false xs ys a b = b

mutual
  unfolding list_items

  list_items-Deep :
      (handle : Node → Option (List ℕ)) (d : ℕ) (ordered : Bool) (c : ℕ) (ns : Nodes)
      → All (Deep d) (list_items handle d ordered c ns)
  list_items-Deep handle d ordered c no_nodes = tt
  list_items-Deep handle d ordered c (more n ns) =
      let counted = list_items-Deep handle d ordered ((c + 1) % 2 ^ 64) ns in
      let uncounted = list_items-Deep handle d ordered c ns in
      either-Deep d (is_li_element n) _ _
        (append-Deep d _ _ (item_of-Deep handle d ordered c n)
          (either-Deep d ordered _ _ counted uncounted))
        uncounted

  item_of-Deep :
      (handle : Node → Option (List ℕ)) (d : ℕ) (ordered : Bool) (c : ℕ) (n : Node)
      → All (Deep d) (item_of handle d ordered c n)
  item_of-Deep handle d ordered c (text_node t) = tt
  item_of-Deep handle d ordered c other_node = tt
  item_of-Deep handle d ordered c (element tag attrs ns) =
      append-Deep d (own_item handle d ordered c ns) (nested_items handle (d + 1) ns)
        (own_item-Deep handle d ordered c ns)
        (shallower d (nested_items handle (d + 1) ns) (nested_items-Deep handle (d + 1) ns))

  pub nested_items-Deep :
      (handle : Node → Option (List ℕ)) (d : ℕ) (ns : Nodes)
      → All (Deep d) (nested_items handle d ns)
  nested_items-Deep handle d no_nodes = tt
  nested_items-Deep handle d (more n ns) =
      append-Deep d _ _ (nested_of-Deep handle d n) (nested_items-Deep handle d ns)

  nested_of-Deep :
      (handle : Node → Option (List ℕ)) (d : ℕ) (n : Node) → All (Deep d) (nested_of handle d n)
  nested_of-Deep handle d (text_node t) = tt
  nested_of-Deep handle d other_node = tt
  nested_of-Deep handle d (element tag attrs ns) =
      either-Deep d (str_eq tag "ul") _ _ (list_items-Deep handle d false 1 ns)
        (either-Deep d (str_eq tag "ol") _ _ (list_items-Deep handle d true (start_of attrs) ns) tt)
