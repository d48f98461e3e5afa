-- ===== src/ContentSaver/Htmd/Whitespace.antt =====
-- src/content_saver/markdown_converter/htmd/text_util.rs: the whitespace functions. A text is the
-- list of its code points; a slice that the source takes by byte indices is the list of the
-- characters passed.
pub mod Compress
use kodegen_tools_citescrape.Base.{
  ℕ, Bool, true, false, ◌&&◌, ◌||◌, Option, none, some, List, [], ◌∷◌, ◌++◌, leb, ◌==◌,
  if◌then◌else◌,
}

-- `Cow`: whether the text was passed on or built anew.
pub data Cow : Type 0 where
  borrowed owned : List ℕ → Cow

-- The text of a `Cow`.
abbrev pub text_of : Cow → List ℕ
text_of (borrowed text) = text
text_of (owned text) = text

-- `char::is_whitespace`, the Unicode property White_Space.
unfoldable pub is_whitespace : ℕ → Bool
is_whitespace c =
    (leb 9 c && leb c 13)
    || (c == 32)
    || (c == 133)
    || (c == 160)
    || (c == 5760)
    || (leb 8192 c && leb c 8202)
    || (c == 8232)
    || (c == 8233)
    || (c == 8239)
    || (c == 8287)
    || (c == 12288)

-- The lazily allocated result receives a character, where there is one.
abbrev pub push : Option (List ℕ) → ℕ → Option (List ℕ)
push none c = none
push (some res) c = some (res ++ c ∷ [])

-- The result, allocated with the characters before where there is none.
abbrev pub allocate : List ℕ → Option (List ℕ) → List ℕ
allocate prefix none = prefix
allocate prefix (some res) = res

-- The loop over the characters: those left, those passed, the result, `in_whitespace`.
unfoldable pub compress_loop : List ℕ → List ℕ → Option (List ℕ) → Bool → Option (List ℕ)
compress_loop [] prefix result in_whitespace = result
compress_loop (c ∷ cs) prefix result in_whitespace =
    let skip = compress_loop cs (prefix ++ c ∷ []) (some (allocate prefix result)) true in
    let space = compress_loop cs (prefix ++ c ∷ []) (push result 32) true in
    let changed =
      compress_loop cs (prefix ++ c ∷ []) (some (allocate prefix result ++ 32 ∷ [])) true in
    let other = compress_loop cs (prefix ++ c ∷ []) (push result c) false in
    if is_whitespace c
    then (if in_whitespace then skip else if c == 32 then space else changed)
    else other

abbrev pub cow : List ℕ → Option (List ℕ) → Cow
cow input none = borrowed input
cow input (some s) = owned s

unfoldable pub compress_whitespace : List ℕ → Cow
compress_whitespace [] = borrowed []
compress_whitespace (c ∷ cs) = cow (c ∷ cs) (compress_loop (c ∷ cs) [] none false)
