-- ===== src/ContentSaver/Htmd/MarkdownEscape/RoundTrip.antt =====
-- The escapes of dom_walker.rs and the rule of Markdown for backslashes.
use kodegen_tools_citescrape.Base.{
  ℕ, zero, suc, ◌+◌, ◌≡◌, refl, subst, ◌⊎◌, inl, inr, Bool, true, false, ◌||◌, Option, none, some,
  List, [], ◌∷◌, ◌++◌, arith, ◌==◌, Bool-cases,
}
use kodegen_tools_citescrape.ContentSaver.Htmd.Whitespace.{text_of}
use kodegen_tools_citescrape.ContentSaver.Htmd.Markers.{
  is_markdown_atx_heading, index_of_markdown_ordered_item_dot, is_ascii_digit, dot_loop,
}
use kodegen_tools_citescrape.ContentSaver.Htmd.Strip.{prefix, suffix}
use kodegen_tools_citescrape.ContentSaver.Htmd.HtmlEscape.{escape_html}
use kodegen_tools_citescrape.ContentSaver.Htmd.HtmlEscape.Inert.{escape_html_lem}
use kodegen_tools_citescrape.ContentSaver.Htmd.MarkdownEscape.{
  any_body, body_loop, line_start, second_is_space, escape_dot, handle_line_start_escaping,
  escape_if_needed,
}
use kodegen_tools_citescrape.ContentSaver.Htmd.MarkdownEscape.Escaped.{
  plain, slashed, Escaped, unescape-Escaped, escape-Escaped, body-Escaped, loop_none, no_body,
  is_ascii_punctuation, unescape, body,
}

-- A dot at an index before which there is no backslash.
data DotAt : ℕ → List ℕ → Type 0 where
  first_dot : (c : ℕ) (o : List ℕ) → c ≡ 46 → DotAt zero (c ∷ o)
  later_dot : (c : ℕ) {i : ℕ} {o : List ℕ} → (c == 92) ≡ false → DotAt i o → DotAt (suc i) (c ∷ o)

dot-Escaped :
    {s o : List ℕ} {i : ℕ}
    → DotAt i o
    → Escaped false s o
    → Escaped false s (prefix i o ++ 92 ∷ 46 ∷ suffix (suc i) o)
dot-Escaped (first_dot c o e) (plain _ n r) = rw e (slashed 46 refl refl r)
dot-Escaped (first_dot c o e) (slashed d p q r) = absurd (omega (arith, e))
dot-Escaped (later_dot c e d) (plain _ n r) = plain c n (dot-Escaped d r)
dot-Escaped (later_dot c e d) (slashed f p q r) = absurd (ground arith)

-- Where `dot_loop` finds an item, its dot stands at the index, unless it was read before.
dot_loop-DotAt :
    (o : List ℕ) (from i dot : ℕ) (numeric is_dot : Bool)
    → dot_loop o from numeric is_dot dot ≡ some i
    → ((k : ℕ) × (i ≡ from + k) × DotAt k o) ⊎ ((is_dot ≡ true) × (i ≡ dot))
unfolding dot_loop
dot_loop-DotAt [] from i dot numeric is_dot e = absurd (ground arith)
dot_loop-DotAt (c ∷ o) from i dot numeric true e = elim (Bool-cases (c == 46)) [
  | inl at_dot ↦
      let next : dot_loop o (from + 1) numeric true from ≡ some i = ground arith in
      elim (dot_loop-DotAt o (from + 1) i from numeric true next) [
        | inl (k, place, later) ↦
            inl (suc k, omega (arith, place), later_dot c (ground arith) later)
        | inr (_, place) ↦ inl (0, omega (arith, place), first_dot c o (ground arith))
      ]
  | inr no_dot ↦ inr (refl, ground arith)
]
dot_loop-DotAt (c ∷ o) from i dot numeric false e = elim (Bool-cases (c == 46)) [
  | inl at_dot ↦
      let next : dot_loop o (from + 1) numeric true from ≡ some i = ground arith in
      elim (dot_loop-DotAt o (from + 1) i from numeric true next) [
        | inl (k, place, later) ↦
            inl (suc k, omega (arith, place), later_dot c (ground arith) later)
        | inr (_, place) ↦ inl (0, omega (arith, place), first_dot c o (ground arith))
      ]
  | inr no_dot ↦
      let next : dot_loop o (from + 1) true false dot ≡ some i = ground arith in
      elim (dot_loop-DotAt o (from + 1) i dot true false next) [
        | inl (k, place, later) ↦
            inl (suc k, omega (arith, place), later_dot c (ground arith) later)
        | inr (never, _) ↦ absurd (ground arith)
      ]
]

-- A dot that makes the text an ordered item.
item-Escaped :
    (s o : List ℕ) (found : Option ℕ)
    → index_of_markdown_ordered_item_dot o ≡ found
    → Escaped false s o
    → Escaped false s (escape_dot found o)
unfolding escape_dot index_of_markdown_ordered_item_dot
item-Escaped s o none e r = r
item-Escaped s o (some i) e r = elim (dot_loop-DotAt o 0 i 0 false false e) [
  | inl (k, place, found) ↦
      let here : i ≡ k = omega (arith, place) in
      let next : i + 1 ≡ suc k = omega (arith, place) in rw (next, here) (dot-Escaped found r)
  | inr (never, _) ↦ absurd (ground arith)
]

marked :
    (first : ℕ) (cs : List ℕ)
    → is_ascii_punctuation first ≡ true
    → (first == 60) ≡ false
    → Escaped false (first ∷ cs) (92 ∷ first ∷ body cs)
marked first cs p q = slashed first p (ground arith) (body-Escaped cs)

-- The line start, after the body.
start-Escaped :
    (first : ℕ) (cs : List ℕ)
    → line_start first ≡ true
    → Escaped false (first ∷ cs) (handle_line_start_escaping (first ∷ body cs) first)
unfolding handle_line_start_escaping
start-Escaped first cs e =
    let kept : Escaped false (first ∷ cs) (first ∷ body cs) =
      plain first (ground arith) (body-Escaped cs) in
    elim (Bool-cases ((first == 61) || (first == 126) || (first == 62))) [
      | inl always ↦ rw always (marked first cs (ground arith) (ground arith))
      | inr not_always ↦ elim (Bool-cases ((first == 45) || (first == 43))) [
        | inl bullet ↦ elim (Bool-cases (second_is_space (first ∷ body cs))) [
          | inl space ↦
              rw (not_always, bullet, space) (marked first cs (ground arith) (ground arith))
          | inr no_space ↦ rw (not_always, bullet, no_space) kept
        ]
        | inr no_bullet ↦ elim (Bool-cases (first == 35)) [
          | inl hash ↦ elim (Bool-cases (is_markdown_atx_heading (first ∷ body cs))) [
            | inl heading ↦
                rw (not_always, no_bullet, hash, heading)
                  (marked first cs (ground arith) (ground arith))
            | inr no_heading ↦ rw (not_always, no_bullet, hash, no_heading) kept
          ]
          | inr no_hash ↦
              let digit : is_ascii_digit first ≡ true = ground arith in
              rw (not_always, no_bullet, no_hash, digit)
                (item-Escaped (first ∷ cs) (first ∷ body cs) _ refl kept)
        ]
      ]
    ]

finish : (s o : List ℕ) → Escaped false s o → unescape (text_of (escape_html o)) ≡ s
finish s o r = rw (escape_html_lem o) (unescape-Escaped true (escape-Escaped r))

middle_start :
    (escaped : List ℕ) (first : ℕ)
    → line_start first ≡ false
    → handle_line_start_escaping escaped first ≡ escaped
unfolding handle_line_start_escaping
middle_start escaped first e = ground arith

slow-Escaped :
    (first : ℕ) (cs : List ℕ)
    → Escaped false
        (first ∷ cs)
        (handle_line_start_escaping (body_loop (first ∷ cs) (first ∷ cs) none []) first)
slow-Escaped first cs = elim (Bool-cases (line_start first)) [
  | inl starts ↦
      let same : body (first ∷ cs) ≡ first ∷ body cs = ground arith in
      rw (loop_none (first ∷ cs) (first ∷ cs) [] refl, same) (start-Escaped first cs starts)
  | inr continues ↦
      rw
        (
          loop_none (first ∷ cs) (first ∷ cs) [] refl,
          middle_start (body (first ∷ cs)) first continues,
        )
        (body-Escaped (first ∷ cs))
]

-- The escaped text is read back: dropping the backslashes that Markdown drops from the text that
-- `escape_if_needed` returns gives the text that it was given, whatever that is.
pub unescape-escape_if_needed : (text : List ℕ) → unescape (text_of (escape_if_needed text)) ≡ text
unfolding escape_if_needed
unescape-escape_if_needed [] = unfold unescape in refl
unescape-escape_if_needed (first ∷ cs) = elim (Bool-cases (any_body (first ∷ cs))) [
  | inl special ↦ rw special (finish (first ∷ cs) _ (slow-Escaped first cs))
  | inr none_special ↦ elim (Bool-cases (line_start first)) [
    | inl starts ↦ rw (none_special, starts) (finish (first ∷ cs) _ (slow-Escaped first cs))
    | inr continues ↦
        rw (none_special, continues)
          (finish (first ∷ cs) (first ∷ cs) (
            subst (Escaped false (first ∷ cs)) (no_body (first ∷ cs) none_special)
              (body-Escaped (first ∷ cs))))
  ]
]
