-- ===== src/ContentSaver/Htmd/DomWalker/Buffer.antt =====
-- What `normalize_content_for_buffer` (dom_walker.rs) takes from the content of an element.
use kodegen_tools_citescrape.Base.{
  ℕ, zero, suc, ◌+◌, ◌-◌, ◌≤◌, ◌<◌, ◌≡◌, refl, sym, subst, ◌⊎◌, inl, inr, Bool, true, false, not,
  ◌&&◌, List, [], ◌∷◌, ◌++◌, arith, length, replicate, min, max, ltb, ◌==◌, Bool-cases,
}
use kodegen_tools_citescrape.ContentSaver.Htmd.Strip.{suffix}
use kodegen_tools_citescrape.ContentSaver.Htmd.DomWalker.{
  leading_newlines, trailing_newlines, ends_with_space, starts_with_space, drain_newlines,
  normalize_content_for_buffer,
}

-- Taking line breaks from the start of a text, where there are as many.
suffix_newlines :
    (k : ℕ) (content : List ℕ)
    → k ≤ leading_newlines content
    → (content ≡ replicate k 10 ++ suffix k content)
      × (leading_newlines (suffix k content) + k ≡ leading_newlines content)
suffix_newlines zero content h = (refl, omega arith)
suffix_newlines (suc k) [] h = absurd (omega arith)
suffix_newlines (suc k) (c ∷ cs) h = ground (arith, suffix_newlines k cs)

drain_lem :
    (last : ℕ) (content : List ℕ)
    → let r = drain_newlines last (leading_newlines content) content in
      (k : ℕ) × (content ≡ replicate k 10 ++ r)
      × (last + leading_newlines r ≡ max last (min (last + leading_newlines content) 2))
unfolding drain_newlines
drain_lem last content =
    let n = leading_newlines content in
    elim (Bool-cases (ltb 2 (last + n))) [
      | inl many ↦
          let k = min (last + n - 2) n in
          let (split, left) = suffix_newlines k content (omega arith) in
          rw many (k, split, ground (arith, left))
      | inr few ↦ rw few (0, refl, ground arith)
    ]

drain_none :
    (last n : ℕ) (content : List ℕ) → last + n ≤ 2 → drain_newlines last n content ≡ content
unfolding drain_newlines
drain_none last n content h = ground arith

space_form : (text : List ℕ) → starts_with_space text ≡ true → text ≡ 32 ∷ suffix 1 text
space_form [] e = cc
space_form (c ∷ cs) e = ground arith

-- What a non-empty buffer and content make of the content: either line breaks are taken from its
-- start, so that those of the buffer and those left are at most two where the buffer has no more;
-- or, outside preformatted text, the space that it starts with, where the buffer ends with one.
pub normalize_content_lem :
    (buffer content : List ℕ) (is_pre : Bool)
    → 0 < length buffer
    → let r = normalize_content_for_buffer buffer content is_pre in
      let last = trailing_newlines buffer in
      ((k : ℕ) × (content ≡ replicate k 10 ++ r)
        × (last + leading_newlines r ≡ max last (min (last + leading_newlines content) 2)))
      ⊎ ((content ≡ 32 ∷ r) × (ends_with_space buffer ≡ true) × (is_pre ≡ false))
unfolding normalize_content_for_buffer
normalize_content_lem buffer content is_pre h =
    let last = trailing_newlines buffer in
    let n = leading_newlines content in
    let drained = drain_newlines last n content in
    let filled : (length buffer == 0) ≡ false = ground arith in
    elim (Bool-cases (
      not is_pre
      && (last == 0)
      && (n == 0)
      && ends_with_space buffer
      && starts_with_space drained)) [
        | inl space ↦
            let whole : drained ≡ content = drain_none last n content (ground arith) in
            rw (filled, space)
              (inr (
                subst (λ d. content ≡ 32 ∷ suffix 1 d) (sym whole)
                    (space_form content
                      (subst (λ d. starts_with_space d ≡ true) whole (ground arith))),
                ground arith,
                ground arith,
              ))
        | inr keeps ↦ rw (filled, keeps) (inl (drain_lem last content))
      ]
