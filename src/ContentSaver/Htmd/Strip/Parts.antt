-- ===== src/ContentSaver/Htmd/Strip/Parts.antt =====
-- The parts into which the functions of text_util.rs strip a text.
use mathlib.Core.List.{append_assoc, append-nil}
use kodegen_tools_citescrape.Base.{
  ℕ, suc, ◌-◌, ◌≤◌, ◌≡◌, refl, sym, ap, subst, ◌∙◌, inl, inr, Bool, true, false, ◌&&◌, Option, none,
  some, List, [], ◌∷◌, ◌++◌, arith, length, length-append, ◌==◌, if◌then◌else◌, Bool-cases,
}
use kodegen_tools_citescrape.ContentSaver.Htmd.Whitespace.{is_whitespace}
use kodegen_tools_citescrape.ContentSaver.Htmd.Strip.{
  is_document_whitespace, trim_start_matches, trim_end_matches, prefix, suffix, strip_leading,
  strip_trailing, strip_leading_whitespace, strip_leading_document_whitespace,
  strip_trailing_whitespace, strip_trailing_document_whitespace, join_rest, join,
}

-- Every character passes the test.
abbrev pub Each : (ℕ → Bool) → List ℕ → Type 0
Each p [] = Unit
Each p (c ∷ cs) = (p c ≡ true) × Each p cs

abbrev pub first_passes : (ℕ → Bool) → List ℕ → Bool
first_passes p [] = false
first_passes p (c ∷ cs) = p c

abbrev pub last_passes : (ℕ → Bool) → List ℕ → Bool
last_passes p [] = false
last_passes p (c ∷ []) = p c
last_passes p (c ∷ d ∷ cs) = last_passes p (d ∷ cs)

-- A text as a first part that passes the test and a rest, or a rest and a last part.
record Leading (p : ℕ → Bool) (text rest : List ℕ) : Type 0 where
  part : List ℕ
  passes : Each p part
  whole : text ≡ part ++ rest
  stops : first_passes p rest ≡ false

record Trailing (p : ℕ → Bool) (text rest : List ℕ) : Type 0 where
  part : List ℕ
  passes : Each p part
  whole : text ≡ rest ++ part
  stops : last_passes p rest ≡ false

trim_start-Leading : (p : ℕ → Bool) (text : List ℕ) → Leading p text (trim_start_matches p text)
unfolding trim_start_matches
trim_start-Leading p [] = record { part = []; passes = tt; whole = refl; stops = refl }
trim_start-Leading p (c ∷ cs) = elim (Bool-cases (p c)) [
  | inl passes ↦
      let l = trim_start-Leading p cs in
      record {
        part = c ∷ l.part;
        passes = (passes, l.passes);
        whole = rw passes (ap (λ x. c ∷ x) l.whole);
        stops = rw passes l.stops;
      }
  | inr stops ↦ record { part = []; passes = tt; whole = rw stops refl; stops = rw stops stops }
]

trim_end-Trailing : (p : ℕ → Bool) (text : List ℕ) → Trailing p text (trim_end_matches p text)
unfolding trim_end_matches
trim_end-Trailing p [] = record { part = []; passes = tt; whole = refl; stops = refl }
trim_end-Trailing p (c ∷ cs) = by (trim_end_matches p cs) (trim_end-Trailing p cs)
  where
    not_empty : (b : Bool) (n : ℕ) → (b && (suc n == 0)) ≡ false
    not_empty b n = ground arith

    by :
        (rest : List ℕ)
        → Trailing p cs rest
        → Trailing p (c ∷ cs) (if p c && (length rest == 0) then [] else c ∷ rest)
    by [] t = elim (Bool-cases (p c)) [
      | inl passes ↦ rw passes (record {
        part = c ∷ t.part;
        passes = (passes, t.passes);
        whole = ap (λ x. c ∷ x) t.whole;
        stops = refl;
      })
      | inr stops ↦ rw stops (record {
        part = t.part;
        passes = t.passes;
        whole = ap (λ x. c ∷ x) t.whole;
        stops = stops;
      })
    ]
    by (d ∷ ds) t = rw (not_empty (p c) (length ds)) (record {
      part = t.part;
      passes = t.passes;
      whole = ap (λ x. c ∷ x) t.whole;
      stops = t.stops;
    })

prefix-append : (xs ys : List ℕ) → prefix (length xs) (xs ++ ys) ≡ xs
prefix-append [] ys = refl
prefix-append (x ∷ xs) ys = ap (λ zs. x ∷ zs) (prefix-append xs ys)

suffix-append : (xs ys : List ℕ) → suffix (length xs) (xs ++ ys) ≡ ys
suffix-append [] ys = refl
suffix-append (x ∷ xs) ys = suffix-append xs ys

-- What was stripped off the front: nothing, and the text does not start with what the test finds;
-- or a part that is not empty and passes it, and the rest does not start so.
abbrev pub StrippedFront : (ℕ → Bool) → List ℕ → List ℕ × Option (List ℕ) → Type 0
StrippedFront p text (rest, none) = (rest ≡ text) × (first_passes p text ≡ false)
StrippedFront p text (rest, some part) =
    (text ≡ part ++ rest) × Each p part × (1 ≤ length part) × (first_passes p rest ≡ false)

abbrev pub StrippedBack : (ℕ → Bool) → List ℕ → List ℕ × Option (List ℕ) → Type 0
StrippedBack p text (rest, none) = (rest ≡ text) × (last_passes p text ≡ false)
StrippedBack p text (rest, some part) =
    (text ≡ rest ++ part) × Each p part × (1 ≤ length part) × (last_passes p rest ≡ false)

front :
    (p : ℕ → Bool) (part rest : List ℕ)
    → Each p part
    → first_passes p rest ≡ false
    → StrippedFront p (part ++ rest) (
        if length part == 0
        then (part ++ rest, none)
        else (suffix (length part) (part ++ rest), some (prefix (length part) (part ++ rest))))
front p [] rest e f = (refl, f)
front p (x ∷ xs) rest e f =
    let some_part : (length (x ∷ xs) == 0) ≡ false = ground arith in
    rw (some_part, suffix-append xs rest, prefix-append xs rest) (refl, e, omega arith, f)

back :
    (p : ℕ → Bool) (rest part : List ℕ)
    → Each p part
    → last_passes p rest ≡ false
    → StrippedBack p (rest ++ part) (
        if length part == 0
        then (rest ++ part, none)
        else (prefix (length rest) (rest ++ part), some (suffix (length rest) (rest ++ part))))
back p rest [] e f = (refl, rw (append-nil rest) f)
back p rest (x ∷ xs) e f =
    let some_part : (length (x ∷ xs) == 0) ≡ false = ground arith in
    rw (some_part, suffix-append rest (x ∷ xs), prefix-append rest (x ∷ xs))
      (refl, e, omega arith, f)

strip_leading_any : (p : ℕ → Bool) (text : List ℕ) → StrippedFront p text (strip_leading p text)
unfolding strip_leading
strip_leading_any p text =
    let l = trim_start-Leading p text in
    let rest = trim_start_matches p text in
    let count : length text - length rest ≡ length l.part =
      omega (arith, ap length l.whole, length-append l.part rest) in
    rw count (
      subst
        (λ t. StrippedFront p t (
          if length l.part == 0
          then (t, none)
          else (suffix (length l.part) t, some (prefix (length l.part) t))))
        (sym l.whole) (front p l.part rest l.passes l.stops))

strip_trailing_any : (p : ℕ → Bool) (text : List ℕ) → StrippedBack p text (strip_trailing p text)
unfolding strip_trailing
strip_trailing_any p text =
    let l = trim_end-Trailing p text in
    let rest = trim_end_matches p text in
    let count : length text - length rest ≡ length l.part =
      omega (arith, ap length l.whole, length-append rest l.part) in
    rw count (
      subst
        (λ t. StrippedBack p t (
          if length l.part == 0
          then (t, none)
          else (prefix (length rest) t, some (suffix (length rest) t))))
        (sym l.whole) (back p rest l.part l.passes l.stops))

-- Each of the four functions divides the text: what it strips is whitespace, and all that there is
-- at that end; without any, it returns the text and no part.
pub strip_lem :
    (text : List ℕ)
    → StrippedFront is_whitespace text (strip_leading_whitespace text)
      × StrippedFront is_document_whitespace text (strip_leading_document_whitespace text)
      × StrippedBack is_whitespace text (strip_trailing_whitespace text)
      × StrippedBack is_document_whitespace text (strip_trailing_document_whitespace text)
unfolding strip_leading_whitespace strip_leading_document_whitespace strip_trailing_whitespace
    strip_trailing_document_whitespace
strip_lem text = (
  strip_leading_any is_whitespace text,
  strip_leading_any is_document_whitespace text,
  strip_trailing_any is_whitespace text,
  strip_trailing_any is_document_whitespace text,
)

-- The texts with the separator between each two.
abbrev pub intercalate : List ℕ → List (List ℕ) → List ℕ
intercalate separator [] = []
intercalate separator (x ∷ []) = x
intercalate separator (x ∷ y ∷ xs) = x ++ separator ++ intercalate separator (y ∷ xs)

join_rest_lem :
    (separator x : List ℕ) (xs : List (List ℕ)) (result : List ℕ)
    → join_rest separator xs (result ++ x) ≡ result ++ intercalate separator (x ∷ xs)
unfolding join_rest
join_rest_lem separator x [] result = refl
join_rest_lem separator x (y ∷ xs) result =
    join_rest_lem separator y xs (result ++ x ++ separator)
    ∙ ground (
      arith,
      append_assoc result x separator,
      append_assoc result (x ++ separator) (intercalate separator (y ∷ xs)),
    )

-- Joining puts the separator between each two of the texts and nowhere else.
pub join_lem :
    (separator : List ℕ) (items : List (List ℕ))
    → join separator items ≡ intercalate separator items
unfolding join
join_lem separator [] = refl
join_lem separator (x ∷ xs) = join_rest_lem separator x xs []
