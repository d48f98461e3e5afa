-- ===== src/ContentSaver/Htmd/DomWalker/Keeps.antt =====
-- The walk (dom_walker.rs) and what the buffer held before it.
use mathlib.Core.List.{append_assoc, append-nil}
use kodegen_tools_citescrape.Base.{
  ℕ, ◌≡◌, refl, sym, ap, ◌∙◌, inl, inr, String, str_eq, Bool, true, false, not, ◌&&◌, ◌||◌, Option,
  none, some, List, [], ◌∷◌, ◌++◌, length, ◌==◌, if◌then◌else◌, Bool-cases,
}
use kodegen_tools_citescrape.ContentSaver.Htmd.Strip.{trim_end_matches}
use kodegen_tools_citescrape.ContentSaver.Htmd.Strip.TrimEnd.{
  trim_end-append_all, trim_end-append, trim_end-again, trim_end-split,
}
use kodegen_tools_citescrape.ContentSaver.Htmd.Whitespace.{text_of, compress_whitespace}
use kodegen_tools_citescrape.ContentSaver.Htmd.MarkdownEscape.{escape_if_needed}
use kodegen_tools_citescrape.ContentSaver.Htmd.DomWalker.{
  Node, text_node, element, comment, doctype, instruction, Nodes, no_nodes, more, TranslationMode,
  pure, faithful, HandlerResult, trim_buffer_end_spaces, starts_with_space, ends_with_space,
}
use kodegen_tools_citescrape.ContentSaver.Htmd.DomWalker.Similar.{combine_similar_children}
use kodegen_tools_citescrape.ContentSaver.Htmd.DomWalker.Walk.{
  walk_text, push_handled, in_faithful, walk_node, is_block, walk_loop, walk_children,
}

-- The text starts with the first one.
abbrev pub Keeps : List ℕ → List ℕ → Type 0
Keeps kept text = (rest : List ℕ) × (text ≡ kept ++ rest)

Keeps-trans : (a b c : List ℕ) → Keeps a b → Keeps b c → Keeps a c
Keeps-trans a b c (r, e) (t, f) = (r ++ t, f ∙ ap (λ l. l ++ t) e ∙ append_assoc a r t)

Keeps-refl : (a : List ℕ) → Keeps a a
Keeps-refl a = ([], sym (append-nil a))

trim-Keeps :
    (kept text : List ℕ)
    → trim_buffer_end_spaces kept ≡ kept
    → Keeps kept text
    → Keeps kept (trim_buffer_end_spaces text)
unfolding trim_buffer_end_spaces
trim-Keeps kept text stable (rest, e) = go (trim_end_matches (λ c. c == 32) rest) refl
  where
    go :
        (t : List ℕ)
        → trim_end_matches (λ c. c == 32) rest ≡ t
        → Keeps kept (trim_end_matches (λ c. c == 32) text)
    go [] gone = (
      [],
      rw e (trim_end-append_all (λ c. c == 32) kept rest gone ∙ stable ∙ sym (append-nil kept)),
    )
    go (d ∷ ds) left = (d ∷ ds, rw e (trim_end-append (λ c. c == 32) kept rest d ds left))

walk_text-Keeps :
    (contents buffer : List ℕ) (tag : Option String) (trim is_pre : Bool)
    → Keeps buffer (walk_text contents buffer tag trim is_pre)
unfolding walk_text
walk_text-Keeps contents buffer tag trim true = (_, refl)
walk_text-Keeps contents buffer tag trim false =
    let escaped = text_of (compress_whitespace (text_of (escape_if_needed contents))) in
    elim (Bool-cases (trim || (starts_with_space escaped && ends_with_space buffer))) [
      | inl trims ↦ rw trims (_, refl)
      | inr whole ↦ rw whole (_, refl)
    ]

push_handled-Keeps :
    (tag : String) (buffer : List ℕ) (is_pre : Bool) (o : Option HandlerResult)
    → Keeps buffer (push_handled tag buffer is_pre o).0
unfolding push_handled
push_handled-Keeps tag buffer is_pre none = Keeps-refl buffer
push_handled-Keeps tag buffer is_pre (some res) =
    elim (Bool-cases (not (length res.content == 0) || not (str_eq tag "head"))) [
      | inl pushed ↦ rw pushed (_, refl)
      | inr skipped ↦ rw skipped (Keeps-refl buffer)
    ]

module _ (handle : Node → Bool → Option HandlerResult) (mode : TranslationMode) where
  in_faithful-Keeps :
      (m : TranslationMode) (markup buffer : List ℕ) → Keeps buffer (in_faithful m markup buffer)
  in_faithful-Keeps faithful markup buffer = (markup, refl)
  in_faithful-Keeps pure markup buffer = Keeps-refl buffer

  walk_node-Keeps :
      (n : Node) (buffer : List ℕ) (tag : Option String) (trim is_pre : Bool)
      → Keeps buffer (walk_node handle mode n buffer tag trim is_pre).0
  unfolding walk_node
  walk_node-Keeps (text_node contents) buffer tag trim is_pre =
      walk_text-Keeps contents buffer tag trim is_pre
  walk_node-Keeps (element name attrs children) buffer tag trim is_pre =
      push_handled-Keeps name buffer is_pre (handle (element name attrs children) is_pre)
  walk_node-Keeps (comment contents) buffer tag trim is_pre = in_faithful-Keeps mode _ buffer
  walk_node-Keeps doctype buffer tag trim is_pre = Keeps-refl buffer
  walk_node-Keeps (instruction target contents) buffer tag trim is_pre =
      in_faithful-Keeps mode _ buffer

  walk_loop-Keeps :
      (kept : List ℕ) (tag : Option String) (is_pre : Bool) (nodes : Nodes) (buffer : List ℕ)
      (trim translated : Bool)
      → trim_buffer_end_spaces kept ≡ kept
      → Keeps kept buffer
      → Keeps kept (walk_loop handle mode tag is_pre nodes buffer trim translated).0
  unfolding walk_loop
  walk_loop-Keeps kept tag is_pre no_nodes buffer trim translated stable k = k
  walk_loop-Keeps kept tag is_pre (more child nodes) buffer trim translated stable k =
      let before : List ℕ =
        if is_block handle mode child then trim_buffer_end_spaces buffer else buffer in
      let kept_before : Keeps kept before = elim (Bool-cases (is_block handle mode child)) [
        | inl block ↦ rw block (trim-Keeps kept buffer stable k)
        | inr inline ↦ rw inline k
      ] in
      walk_loop-Keeps kept tag is_pre nodes _ _ _ stable
        (Keeps-trans kept before _ kept_before (walk_node-Keeps child before tag trim is_pre))

-- Walking the children of a node only appends to the buffer, whatever the handlers return, but for
-- spaces at the end of what it held before: those a block element may take away.
pub walk_children-Keeps :
    (handle : Node → Bool → Option HandlerResult) (mode : TranslationMode) (tag : Option String)
    (children : Nodes) (buffer : List ℕ) (is_parent_block_element is_pre : Bool)
    → Keeps
        (trim_buffer_end_spaces buffer)
        (walk_children handle mode tag children buffer is_parent_block_element is_pre).0
unfolding walk_children trim_buffer_end_spaces
walk_children-Keeps handle mode tag children buffer is_parent_block_element is_pre =
    walk_loop-Keeps handle mode (trim_buffer_end_spaces buffer) tag is_pre
      (combine_similar_children children) buffer (not is_pre && is_parent_block_element) true
      (trim_end-again (λ c. c == 32) buffer) (trim_end-split (λ c. c == 32) buffer)
