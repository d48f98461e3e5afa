-- ===== src/ContentSaver/Htmd/MarkdownEscape/Escaped.antt =====
-- How Markdown reads escaped text, and what the loop of dom_walker.rs over a text writes.
use mathlib.Core.List.{append-nil, append_assoc}
use kodegen_tools_citescrape.Base.{
  ℕ, ◌≡◌, refl, sym, ap, ◌∙◌, inl, inr, Bool, true, false, not, ◌&&◌, ◌||◌, none, some, List, [],
  ◌∷◌, ◌++◌, arith, leb, ◌==◌, if◌then◌else◌, Bool-cases,
}
use kodegen_tools_citescrape.ContentSaver.Htmd.HtmlEscape.{should_escape_html_like_sequence}
use kodegen_tools_citescrape.ContentSaver.Htmd.HtmlEscape.Inert.{escape, only_open}
use kodegen_tools_citescrape.ContentSaver.Htmd.MarkdownEscape.{body_escape, any_body, body_loop}

abbrev pub is_ascii_punctuation : ℕ → Bool
is_ascii_punctuation c =
    (leb 33 c && leb c 47)
    || (leb 58 c && leb c 64)
    || (leb 91 c && leb c 96)
    || (leb 123 c && leb c 126)

-- How Markdown reads a text: a backslash before ASCII punctuation is dropped.
unfoldable pub unescape : List ℕ → List ℕ
unescape [] = []
unescape (c ∷ []) = c ∷ []
unescape (c ∷ d ∷ cs) =
    let escaped = unescape cs in
    let plain = unescape (d ∷ cs) in
    if (c == 92) && is_ascii_punctuation d then d ∷ escaped else c ∷ plain

-- The second text is the first with backslashes before some punctuation, all backslashes included,
-- and before `<` only where that is allowed.
pub data Escaped (html : Bool) : List ℕ → List ℕ → Type 0 where
  done : Escaped html [] []
  plain :
      (c : ℕ) {s o : List ℕ} → (c == 92) ≡ false → Escaped html s o → Escaped html (c ∷ s) (c ∷ o)
  slashed :
      (c : ℕ) {s o : List ℕ}
      → is_ascii_punctuation c ≡ true
      → ((c == 60) && not html) ≡ false
      → Escaped html s o
      → Escaped html (c ∷ s) (92 ∷ c ∷ o)

pub unescape-Escaped : (html : Bool) {s o : List ℕ} → Escaped html s o → unescape o ≡ s
unfolding unescape
unescape-Escaped html done = refl
unescape-Escaped html (plain c {o = []} e r) = ap (c ∷◌) (unescape-Escaped html r)
unescape-Escaped html (plain c {o = d ∷ o} e r) = ground (arith, unescape-Escaped html r)
unescape-Escaped html (slashed c p e r) = ground (arith, unescape-Escaped html r)

not_open :
    (c : ℕ) (o : List ℕ) → (c == 60) ≡ false → should_escape_html_like_sequence (c ∷ o) ≡ false
not_open c o e = elim (Bool-cases (should_escape_html_like_sequence (c ∷ o))) [
  | inl tag ↦ absurd (ground (arith, only_open c o tag))
  | inr text ↦ text
]

-- `escape_html` adds only backslashes before `<`.
pub escape-Escaped : {s o : List ℕ} → Escaped false s o → Escaped true s (escape o)
escape-Escaped done = done
escape-Escaped (plain c {o = o} e r) =
    elim (Bool-cases (should_escape_html_like_sequence (c ∷ o))) [
      | inl tag ↦
          let opens = only_open c o tag in
          rw tag (slashed c (rw opens refl) (rw opens refl) (escape-Escaped r))
      | inr text ↦ rw text (plain c e (escape-Escaped r))
    ]
escape-Escaped (slashed c {o = o} p e r) =
    rw (not_open 92 (c ∷ o) refl, not_open c o (ground arith))
      (slashed c p (ground arith) (escape-Escaped r))

-- The text with a backslash before each character that the body escapes.
abbrev pub body : List ℕ → List ℕ
body [] = []
body (c ∷ cs) = if body_escape c then 92 ∷ c ∷ body cs else c ∷ body cs

pub body-Escaped : (text : List ℕ) → Escaped false text (body text)
body-Escaped [] = done
body-Escaped (c ∷ cs) = elim (Bool-cases (body_escape c)) [
  | inl special ↦ rw special (slashed c (ground arith) (ground arith) (body-Escaped cs))
  | inr other ↦ rw other (plain c (ground arith) (body-Escaped cs))
]

loop_some :
    (text src r segment : List ℕ) → body_loop text src (some r) segment ≡ r ++ segment ++ body src
unfolding body_loop
loop_some text [] r segment = sym (append-nil (r ++ segment))
loop_some text (c ∷ cs) r segment = ground (
  arith,
  loop_some text cs (r ++ segment ++ 92 ∷ c ∷ []) [],
  loop_some text cs r (segment ++ c ∷ []),
  append-nil (r ++ segment ++ 92 ∷ c ∷ []),
  append_assoc (r ++ segment) (92 ∷ c ∷ []) (body cs),
  append_assoc r segment (c ∷ []),
  append_assoc (r ++ segment) (c ∷ []) (body cs),
)

pub loop_none :
    (text src segment : List ℕ)
    → text ≡ segment ++ src
    → body_loop text src none segment ≡ segment ++ body src
unfolding body_loop
loop_none text [] segment e = e ∙ refl
loop_none text (c ∷ cs) segment e =
    let moved = append_assoc segment (c ∷ []) cs in
    let rest = loop_none text cs (segment ++ c ∷ []) (e ∙ sym moved) in
    ground (
      arith,
      loop_some text cs (segment ++ 92 ∷ c ∷ []) [],
      rest,
      append-nil (segment ++ 92 ∷ c ∷ []),
      append_assoc segment (92 ∷ c ∷ []) (body cs),
      append_assoc segment (c ∷ []) (body cs),
    )

pub no_body : (text : List ℕ) → any_body text ≡ false → body text ≡ text
no_body [] e = refl
no_body (c ∷ cs) e = ground (arith, no_body cs)
