-- ===== src/ContentSaver/Htmd/DomWalker/Combine.antt =====
-- The combination of similar neighbours (dom_walker.rs).
use mathlib.Core.List.{append_assoc, append-nil}
use kodegen_tools_citescrape.Base.{
  ℕ, String, ◌≡◌, refl, sym, ap, subst, ◌∙◌, inl, inr, not, ◌&&◌, Option, none, some, List, [],
  ◌++◌, arith, Bool-cases, Option-cases,
}
use kodegen_tools_citescrape.ContentSaver.Htmd.DomWalker.{
  Attrs, Node, text_node, element, comment, doctype, instruction, Nodes, no_nodes, more,
  is_block_element,
}
use kodegen_tools_citescrape.ContentSaver.Htmd.DomWalker.Similar.{
  similar, same_attrs, only_text, combine_texts, can_combine, append_text, combine_loop,
  combine_similar_children,
}

mutual
  -- The text in a node, in order.
  pub text_in : Node → List ℕ
  text_in (text_node contents) = contents
  text_in (element tag attrs children) = texts_in children
  text_in _ = []

  pub texts_in : Nodes → List ℕ
  texts_in no_nodes = []
  texts_in (more n ns) = text_in n ++ texts_in ns

-- No node can be combined with the next one.
abbrev pub NoneLeft : Nodes → Type 0
NoneLeft no_nodes = Unit {0}
NoneLeft (more n no_nodes) = Unit
NoneLeft (more n (more m ns)) = (can_combine n m ≡ none) × NoneLeft (more m ns)

abbrev single : String → Attrs → List ℕ → Node
single tag attrs contents = element tag attrs (more (text_node contents) no_nodes)

only_text-form :
    (n : Node) (tag : String) (attrs : Attrs) (contents : List ℕ)
    → only_text n ≡ some (tag, attrs, contents)
    → n ≡ single tag attrs contents
only_text-form (element t others (more (text_node c) no_nodes)) tag attrs contents e = cc
only_text-form (element t others (more (text_node c) (more n ns))) tag attrs contents e = cc
only_text-form (element t others (more (element u more_attrs ms) ns)) tag attrs contents e = cc
only_text-form (element t others (more (comment c) ns)) tag attrs contents e = cc
only_text-form (element t others (more doctype ns)) tag attrs contents e = cc
only_text-form (element t others (more (instruction c d) ns)) tag attrs contents e = cc
only_text-form (element t others no_nodes) tag attrs contents e = cc
only_text-form (text_node c) tag attrs contents e = cc
only_text-form (comment c) tag attrs contents e = cc
only_text-form doctype tag attrs contents e = cc
only_text-form (instruction c d) tag attrs contents e = cc

-- What a combination tells of the nodes: both are elements of one text, and whether a node can be
-- combined with the second is not changed by appending to it.
record Joins (n c : Node) (text : List ℕ) : Type 0 where
  words : text_in (append_text n text) ≡ text_in n ++ text_in c
  before : (m : Node) → can_combine m n ≡ none → can_combine m (append_text n text) ≡ none

combine_texts-shape :
    (o p : Option (String × Attrs × List ℕ)) (text : List ℕ)
    → combine_texts o p ≡ some text
    → ((v : String × Attrs × List ℕ) × (o ≡ some v))
      × ((w : String × Attrs × List ℕ) × (p ≡ some w) × (w.2 ≡ text))
combine_texts-shape none p text e = cc
combine_texts-shape (some v) none text e = cc
combine_texts-shape (some v) (some w) text e =
    elim (Bool-cases (not (is_block_element v.0) && similar v.0 w.0 && same_attrs v.1 w.1)) [
      | inl together ↦ ((v, refl), (w, refl, cc (rw together at e)))
      | inr apart ↦ absurd (cc (rw apart at e))
    ]

none_still :
    (o : Option (String × Attrs × List ℕ)) (tag : String) (attrs : Attrs) (c d : List ℕ)
    → combine_texts o (some (tag, attrs, c)) ≡ none
    → combine_texts o (some (tag, attrs, d)) ≡ none
none_still none tag attrs c d e = refl
none_still (some v) tag attrs c d e =
    elim (Bool-cases (not (is_block_element v.0) && similar v.0 tag && same_attrs v.1 attrs)) [
      | inl together ↦ absurd (cc (rw together at e))
      | inr apart ↦ rw apart refl
    ]

single-Joins :
    (tag : String) (attrs : Attrs) (c : List ℕ) (tag' : String) (attrs' : Attrs) (text : List ℕ)
    → Joins (single tag attrs c) (single tag' attrs' text) text
unfolding text_in texts_in
single-Joins tag attrs c tag' attrs' text = record {
  words = simp (append-nil) refl;
  before = λ m h. none_still (only_text m) tag attrs c (c ++ text) h;
}

combines-Joins : (n c : Node) (text : List ℕ) → can_combine n c ≡ some text → Joins n c text
combines-Joins n c text e =
    let ((v, is_v), (w, is_w, same)) = combine_texts-shape (only_text n) (only_text c) text e in
    let first = only_text-form n v.0 v.1 v.2 is_v in
    let second : c ≡ single w.0 w.1 text =
      only_text-form c w.0 w.1 text (is_w ∙ ap (λ t. some (w.0, w.1, t)) same) in
    subst (λ m. Joins m c text) (sym first)
      (subst (λ d. Joins (single v.0 v.1 v.2) d text) (sym second)
        (single-Joins v.0 v.1 v.2 w.0 w.1 text))

loop_apart :
    (n child : Node) (nodes : Nodes)
    → can_combine n child ≡ none
    → combine_loop n (more child nodes) ≡ more n (combine_loop child nodes)
unfolding combine_loop
loop_apart n child nodes e = ground (arith, e)

loop_joined :
    (n child : Node) (nodes : Nodes) (text : List ℕ)
    → can_combine n child ≡ some text
    → combine_loop n (more child nodes) ≡ combine_loop (append_text n text) nodes
unfolding combine_loop
loop_joined n child nodes text e = ground (arith, e)

loop_end : (n : Node) → combine_loop n no_nodes ≡ more n no_nodes
unfolding combine_loop
loop_end n = refl

-- The head of the list that the loop leaves is the node, with texts appended.
heads_none :
    (m n : Node) (nodes : Nodes)
    → can_combine m n ≡ none
    → NoneLeft (combine_loop n nodes)
    → NoneLeft (more m (combine_loop n nodes))
heads_none m n no_nodes h k = rw (loop_end n) (h, tt)
heads_none m n (more child nodes) h k = elim (Option-cases (can_combine n child)) [
  | inl apart ↦ let same = loop_apart n child nodes apart in rw same (h, (rw same at k))
  | inr (text, e) ↦
      let same = loop_joined n child nodes text e in
      rw same (
        heads_none m (append_text n text) nodes ((combines-Joins n child text e).before m h)
          (rw same at k))
]

combine_loop_lem :
    (n : Node) (nodes : Nodes)
    → (texts_in (combine_loop n nodes) ≡ text_in n ++ texts_in nodes)
      × NoneLeft (combine_loop n nodes)
unfolding texts_in
combine_loop_lem n no_nodes = rw (loop_end n) (refl, tt)
combine_loop_lem n (more child nodes) = elim (Option-cases (can_combine n child)) [
  | inl apart ↦
      let (words, left) = combine_loop_lem child nodes in
      rw (loop_apart n child nodes apart)
        (ap (text_in n ++◌) words, heads_none n child nodes apart left)
  | inr (text, e) ↦
      let (words, left) = combine_loop_lem (append_text n text) nodes in
      let joined = (combines-Joins n child text e).words in
      let regroup = append_assoc (text_in n) (text_in child) (texts_in nodes) in
      rw (loop_joined n child nodes text e) (words ∙ (rw joined regroup), left)
]

-- The combination of the children of a node keeps all text, in order, and leaves no two neighbours
-- that could be combined.
pub combine_similar_children_lem :
    (children : Nodes)
    → (texts_in (combine_similar_children children) ≡ texts_in children)
      × NoneLeft (combine_similar_children children)
unfolding combine_similar_children texts_in
combine_similar_children_lem no_nodes = (refl, tt)
combine_similar_children_lem (more child nodes) = combine_loop_lem child nodes
