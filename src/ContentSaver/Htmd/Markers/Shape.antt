-- ===== src/ContentSaver/Htmd/Markers/Shape.antt =====
-- Which texts the tests of text_util.rs take for the start of a heading or of an ordered item.
use kodegen_tools_citescrape.Base.{
  ℕ, zero, suc, ◌+◌, ◌≤◌, ◌≡◌, refl, ap, ◌∙◌, ◌↔◌, Bool, true, false, some, List, [], ◌∷◌, ◌++◌,
  arith, replicate, length, Bool-cases, inl, inr, ◌==◌, if◌then◌else◌,
}
use kodegen_tools_citescrape.ContentSaver.Htmd.Markers.{
  heading_loop, is_markdown_atx_heading, len_utf8, is_ascii_digit, dot_loop,
  index_of_markdown_ordered_item_dot,
}

-- Some number of hashes, then a space.
pub record Heading (least : ℕ) (text : List ℕ) : Type 0 where
  pub hashes : ℕ
  pub rest : List ℕ
  pub enough : least ≤ hashes
  pub shape : text ≡ replicate hashes 35 ++ 32 ∷ rest

heading_yes :
    (n : ℕ) (rest : List ℕ) (b : Bool) → heading_loop (replicate (suc n) 35 ++ 32 ∷ rest) b ≡ true
unfolding heading_loop
heading_yes zero rest b = refl
heading_yes (suc n) rest b = heading_yes n rest true

Heading-shape :
    (text : List ℕ) (b : Bool) → heading_loop text b ≡ true → Heading (if b then 0 else 1) text
unfolding heading_loop
Heading-shape [] b e = ground arith
Heading-shape (ch ∷ text) b e = elim (Bool-cases (ch == 35)) [
  | inl hash ↦
      let is_hash : ch ≡ 35 = ground arith in
      let h = Heading-shape text true (ground arith) in
      record {
        hashes = suc h.hashes;
        rest = h.rest;
        enough = ground arith;
        shape = ground (arith, h.shape);
      }
  | inr no_hash ↦
      let is_space : (ch ≡ 32) × (b ≡ true) = ground arith in
      record { hashes = 0; rest = text; enough = ground arith; shape = ground arith }
]

-- A text is taken for a heading exactly where it starts with one or more hashes and a space.
pub is_markdown_atx_heading_iff :
    (text : List ℕ) → (is_markdown_atx_heading text ≡ true) ↔ Heading 1 text
unfolding is_markdown_atx_heading
is_markdown_atx_heading_iff text = (Heading-shape text false, from)
  where
    yes : (n : ℕ) (rest : List ℕ) → 1 ≤ n → heading_loop (replicate n 35 ++ 32 ∷ rest) false ≡ true
    yes zero rest h = ground arith
    yes (suc n) rest h = heading_yes n rest false

    from : Heading 1 text → heading_loop text false ≡ true
    from h = rw h.shape (yes h.hashes h.rest h.enough)

-- Dots, then a space; the last dot, or the one before, is the last one read.
record Dots (last_dot : ℕ) (text : List ℕ) (index : ℕ) : Type 0 where
  dots : ℕ
  after : List ℕ
  form : text ≡ replicate dots 46 ++ 32 ∷ after
  place : index ≡ last_dot + dots

Dots-shape :
    (text : List ℕ) (d : ℕ) (i : ℕ) → dot_loop text (d + 1) true true d ≡ some i → Dots d text i
unfolding dot_loop
Dots-shape [] d i e = ground arith
Dots-shape (ch ∷ text) d i e = elim (Bool-cases (ch == 46)) [
  | inl dot ↦
      let is_dot : ch ≡ 46 = ground arith in
      let next : dot_loop text (d + 1 + 1) true true (d + 1) ≡ some i = rw is_dot at e in
      let h = Dots-shape text (d + 1) i next in
      record {
        dots = suc h.dots;
        after = h.after;
        form = ground (arith, h.form);
        place = ground (arith, h.place);
      }
  | inr no_dot ↦
      let is_space : (ch ≡ 32) × (d ≡ i) = ground arith in
      record { dots = 0; after = text; form = ground arith; place = ground arith }
]

dots_yes :
    (k d : ℕ) (rest : List ℕ)
    → dot_loop (replicate k 46 ++ 32 ∷ rest) (d + 1) true true d ≡ some (d + k)
unfolding dot_loop
dots_yes zero d rest = ground arith
dots_yes (suc k) d rest = dots_yes k (d + 1) rest ∙ ap some (omega arith)

abbrev pub AllDigits : List ℕ → Type 0
AllDigits [] = Unit
AllDigits (c ∷ cs) = (is_ascii_digit c ≡ true) × AllDigits cs

-- Digits, dots and a space, where the last dot stands at the index.
pub record OrderedItem (least from : ℕ) (text : List ℕ) (index : ℕ) : Type 0 where
  pub digits : List ℕ
  pub more_dots : ℕ
  pub item_text : List ℕ
  pub are_digits : AllDigits digits
  pub enough_digits : least ≤ length digits
  pub item_form : text ≡ digits ++ replicate (suc more_dots) 46 ++ 32 ∷ item_text
  pub at_last_dot : index ≡ from + length digits + more_dots

digits_shape :
    (text : List ℕ) (from d i : ℕ) (b : Bool)
    → dot_loop text from b false d ≡ some i
    → OrderedItem (if b then 0 else 1) from text i
unfolding dot_loop
digits_shape [] from d i b e = ground arith
digits_shape (ch ∷ text) from d i b e = elim (Bool-cases (is_ascii_digit ch)) [
  | inl digit ↦
      let ascii : len_utf8 ch ≡ 1 = ground arith in
      let next : dot_loop text (from + 1) true false d ≡ some i = ground arith in
      let h = digits_shape text (from + 1) d i true next in
      record {
        digits = ch ∷ h.digits;
        more_dots = h.more_dots;
        item_text = h.item_text;
        are_digits = (digit, h.are_digits);
        enough_digits = ground arith;
        item_form = ap (λ t. ch ∷ t) h.item_form;
        at_last_dot = omega (arith, h.at_last_dot);
      }
  | inr other ↦
      let is_dot : (ch ≡ 46) × (b ≡ true) = ground arith in
      let next : dot_loop text (from + 1) true true from ≡ some i = rw (is_dot.0, is_dot.1) at e in
      let h = Dots-shape text from i next in
      record {
        digits = [];
        more_dots = h.dots;
        item_text = h.after;
        are_digits = tt;
        enough_digits = ground arith;
        item_form = ground (arith, h.form);
        at_last_dot = omega (arith, h.place);
      }
]

digits_yes :
    (ds : List ℕ) (k from d : ℕ) (rest : List ℕ)
    → AllDigits ds
    → dot_loop (ds ++ replicate (suc k) 46 ++ 32 ∷ rest) from true false d
      ≡ some (from + length ds + k)
unfolding dot_loop
digits_yes [] k from d rest a = dots_yes k from rest ∙ ap some (omega arith)
digits_yes (c ∷ cs) k from d rest a =
    let ascii : len_utf8 c ≡ 1 = ground arith in
    ground (arith, digits_yes cs k (from + 1) d rest a.1)

-- A text is taken for an ordered item exactly where it starts with one or more ASCII digits, one
-- or more dots and a space, and the index is that of the last of these dots.
pub index_of_markdown_ordered_item_dot_iff :
    (text : List ℕ) (i : ℕ)
    → (index_of_markdown_ordered_item_dot text ≡ some i) ↔ OrderedItem 1 0 text i
unfolding index_of_markdown_ordered_item_dot dot_loop
index_of_markdown_ordered_item_dot_iff text i = (digits_shape text 0 0 i false, back)
  where
    start :
        (ds : List ℕ) (k : ℕ) (rest : List ℕ)
        → AllDigits ds
        → 1 ≤ length ds
        → dot_loop (ds ++ replicate (suc k) 46 ++ 32 ∷ rest) 0 false false 0
          ≡ some (0 + length ds + k)
    start [] k rest a h = ground arith
    start (c ∷ cs) k rest a h =
        let ascii : len_utf8 c ≡ 1 = ground arith in ground (arith, digits_yes cs k 1 0 rest a.1)

    back : OrderedItem 1 0 text i → dot_loop text 0 false false 0 ≡ some i
    back h =
        rw (h.item_form, h.at_last_dot)
          (start h.digits h.more_dots h.item_text h.are_digits h.enough_digits)
