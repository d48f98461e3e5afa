-- ===== src/Search/Snippets/Marks.antt =====
-- A snippet (snippets.rs) as pieces of text with and without a mark, and which positions have one.
use kodegen_tools_citescrape.Base.{
  ℕ, zero, suc, ◌+◌, ◌-◌, ◌≤◌, ◌<◌, ◌≡◌, refl, sym, ap, ◌∙◌, Bool, true, false, List, [], ◌∷◌, ◌++◌,
  replicate, length, arith,
}
use kodegen_tools_citescrape.Search.Snippets.{Range, take, drop, slice, open_mark, close_mark}
use kodegen_tools_citescrape.Search.Snippets.Merge.{covers}

pub data Piece : Type 0 where
  plain bold : List ℕ → Piece

-- The HTML of the pieces.
abbrev pub render : (List ℕ → List ℕ) → List Piece → List ℕ
render encode_text [] = []
render encode_text (plain bs ∷ ps) = encode_text bs ++ render encode_text ps
render encode_text (bold bs ∷ ps) =
    open_mark ++ encode_text bs ++ close_mark ++ render encode_text ps

-- The text of the pieces.
abbrev pub joined : List Piece → List ℕ
joined [] = []
joined (plain bs ∷ ps) = bs ++ joined ps
joined (bold bs ∷ ps) = bs ++ joined ps

-- For each byte of the pieces, whether it is marked.
abbrev pub marks : List Piece → List Bool
marks [] = []
marks (plain bs ∷ ps) = replicate (length bs) false ++ marks ps
marks (bold bs ∷ ps) = replicate (length bs) true ++ marks ps

-- For each of the positions from one on, whether a range covers it.
abbrev pub cover_marks : List Range → ℕ → ℕ → List Bool
cover_marks ranges pos zero = []
cover_marks ranges pos (suc n) = covers pos ranges ∷ cover_marks ranges (pos + 1) n

-- In order, from a position on.
abbrev pub From : ℕ → List Range → Type 0
From pos [] = Unit
From pos (r ∷ rs) = (pos ≤ r.start) × (r.start ≤ r.stop) × From r.stop rs

pub From-le : (p q : ℕ) (rs : List Range) → p ≤ q → From q rs → From p rs
From-le p q [] h f = tt
From-le p q (r ∷ rs) h f = (omega (arith, h, f.0), f.1, f.2)

before_all : (p q : ℕ) (rs : List Range) → From q rs → p < q → covers p rs ≡ false
before_all p q [] f h = refl
before_all p q (r ∷ rs) f h = ground (arith, before_all p r.stop rs f.2, f.0, f.1)

pub cover_marks-split :
    (rs : List Range) (p a b : ℕ)
    → cover_marks rs p (a + b) ≡ cover_marks rs p a ++ cover_marks rs (p + a) b
cover_marks-split rs p zero b =
    let none_before : 0 + b ≡ b = omega arith in
    let no_move : p + 0 ≡ p = omega arith in rw (none_before, no_move) refl
cover_marks-split rs p (suc a) b =
    ap (λ n. cover_marks rs p n) (next a b)
    ∙ ap (λ ms. covers p rs ∷ ms)
        (cover_marks-split rs (p + 1) a b
          ∙ ap (λ q. cover_marks rs (p + 1) a ++ cover_marks rs q b) (omega arith))
  where
    next : (a b : ℕ) → suc a + b ≡ suc (a + b)
    next a b = omega arith

pub cover_marks-before :
    (rs : List Range) (p q a : ℕ) → From q rs → p + a ≤ q → cover_marks rs p a ≡ replicate a false
cover_marks-before rs p q zero f h = refl
cover_marks-before rs p q (suc a) f h =
    rw (before_all p q rs f (omega (arith, h)))
      (ap (λ ms. false ∷ ms) (cover_marks-before rs (p + 1) q a f (omega (arith, h))))

pub cover_marks-within :
    (r : Range) (rs : List Range) (p a : ℕ)
    → r.start ≤ p
    → p + a ≤ r.stop
    → cover_marks (r ∷ rs) p a ≡ replicate a true
cover_marks-within r rs p zero h k = refl
cover_marks-within r rs p (suc a) h k =
    ground (arith, cover_marks-within r rs (p + 1) a (omega (arith, h)) (omega (arith, k)), h, k)

pub cover_marks-after :
    (r : Range) (rs : List Range) (p a : ℕ)
    → r.stop ≤ p
    → cover_marks (r ∷ rs) p a ≡ cover_marks rs p a
cover_marks-after r rs p zero h = refl
cover_marks-after r rs p (suc a) h =
    ground (arith, cover_marks-after r rs (p + 1) a (omega (arith, h)), h)

take-drop : (n : ℕ) (bs : List ℕ) → take n bs ++ drop n bs ≡ bs
take-drop zero bs = refl
take-drop (suc n) [] = refl
take-drop (suc n) (b ∷ bs) = ap (λ x. b ∷ x) (take-drop n bs)

drop-drop : (a b : ℕ) (bs : List ℕ) → drop b (drop a bs) ≡ drop (a + b) bs
drop-drop zero b bs = ap (λ n. drop n bs) (omega arith)
drop-drop (suc a) b [] = ground (arith, drop_nil b, drop_nil (suc a + b))
  where
    drop_nil : (n : ℕ) → drop n [] ≡ []
    drop_nil zero = refl
    drop_nil (suc n) = refl
drop-drop (suc a) b (x ∷ bs) = drop-drop a b bs ∙ ap (λ n. drop n (x ∷ bs)) (next a b)
  where
    next : (a b : ℕ) → suc (a + b) ≡ suc a + b
    next a b = omega arith

pub length-drop : (n : ℕ) (bs : List ℕ) → length (drop n bs) ≡ length bs - n
length-drop zero bs = omega arith
length-drop (suc n) [] = omega arith
length-drop (suc n) (b ∷ bs) = omega (arith, length-drop n bs)

length-take : (n : ℕ) (bs : List ℕ) → n ≤ length bs → length (take n bs) ≡ n
length-take zero bs h = refl
length-take (suc n) [] h = omega (arith, h)
length-take (suc n) (b ∷ bs) h = omega (arith, length-take n bs (omega (arith, h)))

pub length-slice : (p q : ℕ) (bs : List ℕ) → p ≤ q → q ≤ length bs → length (slice p q bs) ≡ q - p
length-slice p q bs h k = length-take (q - p) (drop p bs) (omega (arith, length-drop p bs, h, k))

pub slice-drop : (p q : ℕ) (bs : List ℕ) → p ≤ q → slice p q bs ++ drop q bs ≡ drop p bs
slice-drop p q bs h =
    ap (λ x. slice p q bs ++ x) (ap (λ n. drop n bs) (gap p q h) ∙ sym (drop-drop p (q - p) bs))
    ∙ take-drop (q - p) (drop p bs)
  where
    gap : (p q : ℕ) → p ≤ q → q ≡ p + (q - p)
    gap p q h = omega (arith, h)
