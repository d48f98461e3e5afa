-- ===== src/ContentSaver/Htmd/MarkdownEscape/Fence.antt =====
-- The escape of preformatted text (dom_walker.rs).
use kodegen_tools_citescrape.Base.{
  ℕ, ◌≡◌, ◌↔◌, refl, inl, inr, Bool, true, false, ◌&&◌, List, [], ◌∷◌, arith, ◌==◌, Bool-cases,
}
use kodegen_tools_citescrape.ContentSaver.Htmd.Whitespace.{borrowed, owned, text_of}
use kodegen_tools_citescrape.ContentSaver.Htmd.MarkdownEscape.{
  is_fence, fence_loop, after_break, needs_escape, escape_pre_text_if_needed,
}

-- No line starts with a backtick or a tilde, given whether the text stands at the start of a line.
abbrev pub NoFence : Bool → List ℕ → Type 0
NoFence at_line_start [] = Unit {0}
NoFence at_line_start (c ∷ cs) = ((at_line_start && is_fence c) ≡ false) × NoFence (c == 10) cs

fence_loop-NoFence : (text : List ℕ) (b : Bool) → NoFence b (fence_loop text b)
unfolding fence_loop
fence_loop-NoFence [] b = tt
fence_loop-NoFence (c ∷ cs) b = elim (Bool-cases (b && is_fence c)) [
  | inl fence ↦ rw fence (ground arith, (ground arith, fence_loop-NoFence cs (c == 10)))
  | inr plain ↦ rw plain (plain, fence_loop-NoFence cs (c == 10))
]

breaks_free :
    (c : ℕ) (cs : List ℕ)
    → after_break 96 (c ∷ cs) ≡ false
    → after_break 126 (c ∷ cs) ≡ false
    → NoFence (c == 10) cs
breaks_free c [] e f = tt
breaks_free c (d ∷ ds) e f = (ground arith, breaks_free d ds (ground arith) (ground arith))

free_breaks :
    (c : ℕ) (cs : List ℕ)
    → NoFence (c == 10) cs
    → (after_break 96 (c ∷ cs) ≡ false) × (after_break 126 (c ∷ cs) ≡ false)
free_breaks c [] n = (refl, refl)
free_breaks c (d ∷ ds) n = ground (arith, free_breaks d ds n.1)

needs_escape-false : (text : List ℕ) → needs_escape text ≡ false → NoFence true text
unfolding needs_escape
needs_escape-false [] e = tt
needs_escape-false (c ∷ cs) e = (ground arith, breaks_free c cs (ground arith) (ground arith))

NoFence-needs : (text : List ℕ) → NoFence true text → needs_escape text ≡ false
unfolding needs_escape
NoFence-needs [] n = refl
NoFence-needs (c ∷ cs) n = ground (arith, free_breaks c cs n.1)

-- No line of the escaped text starts with a backtick or a tilde, and the text is passed on as it is
-- exactly where it has no such line.
pub escape_pre_text-NoFence :
    (text : List ℕ)
    → NoFence true (text_of (escape_pre_text_if_needed text))
      × ((escape_pre_text_if_needed text ≡ borrowed text) ↔ NoFence true text)
unfolding escape_pre_text_if_needed
escape_pre_text-NoFence text = elim (Bool-cases (needs_escape text)) [
  | inl needed ↦ rw needed (
    fence_loop-NoFence text true,
    (
      λ (e : owned (fence_loop text true) ≡ borrowed text). cc,
      λ (n : NoFence true text). cc (NoFence-needs text n),
    ),
  )
  | inr free ↦
      let n = needs_escape-false text free in
      rw free (n, (λ (e : borrowed text ≡ borrowed text). n, λ (m : NoFence true text). refl))
]
