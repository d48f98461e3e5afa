-- ===== src/ContentSaver/Htmd/HtmlEscape/Inert.antt =====
-- The text that `escape_html` (html_escape.rs) returns, at the places that its own test picks.
use mathlib.Core.List.{append-nil, append_assoc}
use kodegen_tools_citescrape.Base.{
  ℕ, ◌≡◌, refl, sym, ap, ◌∙◌, inl, inr, Bool, true, false, not, ◌&&◌, List, [], ◌∷◌, ◌++◌, arith,
  starts_with, ◌==◌, if◌then◌else◌, Bool-cases,
}
use kodegen_tools_citescrape.ContentSaver.Htmd.Whitespace.{owned, text_of}
use kodegen_tools_citescrape.ContentSaver.Htmd.HtmlEscape.{
  starts_alphabetic, cdata, escaped_cdata, after_open, should_escape_html_like_sequence, has_open,
  escape_loop, escape_html,
}

-- A backslash before each character that opens what looks like HTML.
abbrev pub escape : List ℕ → List ℕ
escape [] = []
escape (c ∷ cs) =
    if should_escape_html_like_sequence (c ∷ cs) then 92 ∷ c ∷ escape cs else c ∷ escape cs

pub only_open : (c : ℕ) (cs : List ℕ) → should_escape_html_like_sequence (c ∷ cs) ≡ true → c ≡ 60
unfolding should_escape_html_like_sequence
only_open c [] e = ground arith
only_open c (n ∷ ns) e = ground arith

loop_modified :
    (text src escaped segment : List ℕ)
    → escape_loop text src escaped segment true ≡ owned (escaped ++ segment ++ escape src)
unfolding escape_loop
loop_modified text [] escaped segment = ap owned (sym (append-nil (escaped ++ segment)))
loop_modified text (c ∷ cs) escaped segment = ground (
  arith,
  only_open c cs,
  loop_modified text cs (escaped ++ segment ++ 92 ∷ 60 ∷ []) [],
  loop_modified text cs escaped (segment ++ c ∷ []),
  append-nil (escaped ++ segment ++ 92 ∷ 60 ∷ []),
  append_assoc (escaped ++ segment) (92 ∷ 60 ∷ []) (escape cs),
  append_assoc escaped segment (c ∷ []),
  append_assoc (escaped ++ segment) (c ∷ []) (escape cs),
)

loop_unmodified :
    (text src segment : List ℕ)
    → text ≡ segment ++ src
    → text_of (escape_loop text src [] segment false) ≡ segment ++ escape src
unfolding escape_loop
loop_unmodified text [] segment e = e
loop_unmodified text (c ∷ cs) segment e =
    let moved = append_assoc segment (c ∷ []) cs in
    let skipped = loop_unmodified text cs (segment ++ c ∷ []) (e ∙ sym moved) in
    ground (
      arith,
      only_open c cs,
      loop_modified text cs (segment ++ 92 ∷ 60 ∷ []) [],
      skipped,
      append-nil (segment ++ 92 ∷ 60 ∷ []),
      append_assoc segment (92 ∷ 60 ∷ []) (escape cs),
      append_assoc segment (c ∷ []) (escape cs),
    )

no_open : (text : List ℕ) → has_open text ≡ false → escape text ≡ text
no_open [] e = refl
no_open (c ∷ cs) e = ground (arith, only_open c cs, no_open cs)

-- The result is the text with a backslash before each `<` that the test of what follows picks.
pub escape_html_lem : (text : List ℕ) → text_of (escape_html text) ≡ escape text
unfolding escape_html
escape_html_lem text = elim (Bool-cases (has_open text)) [
  | inl opens ↦ rw opens (loop_unmodified text text [] refl)
  | inr none ↦ rw none (sym (no_open text none))
]

-- No `<` in the pattern, and after each backslash of it another character.
steady : List ℕ → Bool
steady [] = true
steady (p ∷ []) = not (p == 60) && not (p == 92)
steady (p ∷ q ∷ ps) = not (p == 60) && steady (q ∷ ps)

starts_with-escape :
    (ps cs : List ℕ) → steady ps ≡ true → starts_with (escape cs) ps ≡ starts_with cs ps
unfolding starts_with steady
starts_with-escape [] cs e = refl
starts_with-escape (p ∷ ps) [] e = refl
starts_with-escape (p ∷ []) (c ∷ cs) e = ground (arith, only_open c cs)
starts_with-escape (p ∷ q ∷ ps) (c ∷ cs) e =
    ground (arith, only_open c cs, starts_with-escape (q ∷ ps) cs, steady_head q ps)
  where
    steady_head : (q : ℕ) (ps : List ℕ) → steady (q ∷ ps) ≡ true → (q == 60) ≡ false
    steady_head q [] h = ground arith
    steady_head q (r ∷ rs) h = ground arith

starts_alphabetic-escape : (cs : List ℕ) → starts_alphabetic (escape cs) ≡ starts_alphabetic cs
starts_alphabetic-escape [] = refl
starts_alphabetic-escape (c ∷ cs) = ground (arith, only_open c cs)

after_open-escape : (n : ℕ) (cs : List ℕ) → after_open n (escape cs) ≡ after_open n cs
unfolding after_open steady
after_open-escape n cs =
    rw
      (
        starts_with-escape cdata cs refl,
        starts_with-escape escaped_cdata cs refl,
        starts_alphabetic-escape cs,
      )
      refl

-- What the test finds after a `<` is the same in the escaped text.
same_test :
    (c : ℕ) (cs : List ℕ)
    → should_escape_html_like_sequence (c ∷ escape cs) ≡ should_escape_html_like_sequence (c ∷ cs)
unfolding should_escape_html_like_sequence after_open
same_test c [] = refl
same_test c (n ∷ ns) = ground (arith, only_open n ns, after_open-escape n ns)

-- Each place where the test finds HTML has a backslash before it; the flag is of the character
-- before the text.
abbrev pub Inert : Bool → List ℕ → Type 0
Inert backslash [] = Unit
Inert backslash (c ∷ cs) =
    ((should_escape_html_like_sequence (c ∷ cs) && not backslash) ≡ false) × Inert (c == 92) cs

escape-Inert : (b : Bool) (text : List ℕ) → Inert b (escape text)
escape-Inert b [] = tt
escape-Inert b (c ∷ cs) = elim (Bool-cases (should_escape_html_like_sequence (c ∷ cs))) [
  | inl html ↦
      let rest = escape-Inert (c == 92) cs in
      let slash = only_open 92 (c ∷ escape cs) in
      rw html (ground (arith, slash), (ground arith, rest))
  | inr plain ↦
      let rest = escape-Inert (c == 92) cs in rw plain (ground (arith, same_test c cs, plain), rest)
]

-- In the result, each `<` that the test takes for the start of HTML has a backslash before it.
pub escape_html-Inert : (text : List ℕ) → Inert false (text_of (escape_html text))
escape_html-Inert text = rw (escape_html_lem text) (escape-Inert false text)
