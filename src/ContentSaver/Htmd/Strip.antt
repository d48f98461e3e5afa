-- ===== src/ContentSaver/Htmd/Strip.antt =====
-- src/content_saver/markdown_converter/htmd/text_util.rs: trimming and stripping of whitespace, and
-- joining. A text is the list of its code points; the lengths that the source takes in bytes
-- count characters here, which cut the text at the same places.
pub mod Parts
pub mod TrimEnd
use kodegen_tools_citescrape.Base.{
  ℕ, zero, suc, ◌+◌, ◌-◌, Bool, true, false, not, ◌&&◌, ◌||◌, Option, none, some, List, [], ◌∷◌,
  ◌++◌, length, replicate, ◌==◌, if◌then◌else◌,
}
use kodegen_tools_citescrape.ContentSaver.Htmd.Whitespace.{is_whitespace}

abbrev pub is_document_whitespace : ℕ → Bool
is_document_whitespace c = (c == 9) || (c == 10) || (c == 13) || (c == 32)

-- `trim_start_matches` and `trim_end_matches`.
unfoldable pub trim_start_matches : (ℕ → Bool) → List ℕ → List ℕ
trim_start_matches p [] = []
trim_start_matches p (c ∷ cs) = if p c then trim_start_matches p cs else c ∷ cs

unfoldable pub trim_end_matches : (ℕ → Bool) → List ℕ → List ℕ
trim_end_matches p [] = []
trim_end_matches p (c ∷ cs) =
    let rest = trim_end_matches p cs in if p c && (length rest == 0) then [] else c ∷ rest

unfoldable pub trim_start_document_whitespace : List ℕ → List ℕ
trim_start_document_whitespace = trim_start_matches is_document_whitespace

unfoldable pub trim_end_document_whitespace : List ℕ → List ℕ
trim_end_document_whitespace = trim_end_matches is_document_whitespace

unfoldable pub trim_document_whitespace : List ℕ → List ℕ
trim_document_whitespace text =
    trim_end_matches is_document_whitespace (trim_start_matches is_document_whitespace text)

abbrev pub prefix : ℕ → List ℕ → List ℕ
prefix zero text = []
prefix (suc n) [] = []
prefix (suc n) (c ∷ cs) = c ∷ prefix n cs

abbrev pub suffix : ℕ → List ℕ → List ℕ
suffix zero text = text
suffix (suc n) [] = []
suffix (suc n) (c ∷ cs) = suffix n cs

-- The body that the two leading variants share, given the test.
unfoldable pub strip_leading : (ℕ → Bool) → List ℕ → List ℕ × Option (List ℕ)
unfolding trim_start_matches
strip_leading p text =
    let stripped_len = length text - length (trim_start_matches p text) in
    if stripped_len == 0
    then (text, none)
    else (suffix stripped_len text, some (prefix stripped_len text))

-- The body that the two trailing variants share.
unfoldable pub strip_trailing : (ℕ → Bool) → List ℕ → List ℕ × Option (List ℕ)
unfolding trim_end_matches
strip_trailing p text =
    let end_index = length (trim_end_matches p text) in
    if length text - end_index == 0
    then (text, none)
    else (prefix end_index text, some (suffix end_index text))

unfoldable pub strip_leading_whitespace : List ℕ → List ℕ × Option (List ℕ)
strip_leading_whitespace = strip_leading is_whitespace

unfoldable pub strip_leading_document_whitespace : List ℕ → List ℕ × Option (List ℕ)
strip_leading_document_whitespace = strip_leading is_document_whitespace

unfoldable pub strip_trailing_whitespace : List ℕ → List ℕ × Option (List ℕ)
strip_trailing_whitespace = strip_trailing is_whitespace

unfoldable pub strip_trailing_document_whitespace : List ℕ → List ℕ × Option (List ℕ)
strip_trailing_document_whitespace = strip_trailing is_document_whitespace

join_rest : List ℕ → List (List ℕ) → List ℕ → List ℕ
join_rest separator [] result = result
join_rest separator (next ∷ items) result = join_rest separator items (result ++ separator ++ next)

-- `join` of an iterator of texts.
unfoldable pub join : List ℕ → List (List ℕ) → List ℕ
unfolding join_rest
join separator [] = []
join separator (first ∷ items) = join_rest separator items first
