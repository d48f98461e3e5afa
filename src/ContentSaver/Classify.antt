-- ===== src/ContentSaver/Classify.antt =====
-- src/content_saver/markdown_converter/html_to_markdown.rs: what kind of line of Markdown a line is. A
-- text is the list of its code points; where the source compares a length in bytes with a small
-- number, the text is of ASCII characters wherever that decides anything.
use kodegen_tools_citescrape.Base.{
  ℕ, suc, Bool, true, false, not, ◌&&◌, ◌||◌, List, [], ◌∷◌, codes, length, starts_with, ends_with,
  leb, ◌==◌, if◌then◌else◌,
}
use kodegen_tools_citescrape.ContentSaver.Htmd.Whitespace.{is_whitespace}
use kodegen_tools_citescrape.ContentSaver.Htmd.Markers.{is_ascii_digit}
use kodegen_tools_citescrape.ContentSaver.Htmd.ListProcessing.{trim}

pub data LineType : Type 0 where
  blank heading unordered_list ordered_list code_fence blockquote table_row : LineType
  horizontal_rule html_comment empty_list_markers paragraph : LineType

-- `take_while(|&c| c == '#').count()`.
abbrev pub hash_count : List ℕ → ℕ
hash_count [] = 0
hash_count (c ∷ cs) = if c == 35 then suc (hash_count cs) else 0

-- The text after the hashes.
abbrev pub after_hashes : List ℕ → List ℕ
after_hashes [] = []
after_hashes (c ∷ cs) = if c == 35 then after_hashes cs else c ∷ cs

abbrev pub empty_or_space : List ℕ → Bool
empty_or_space [] = true
empty_or_space (c ∷ cs) = c == 32

abbrev pub is_heading : List ℕ → Bool
is_heading trimmed =
    (not (hash_count trimmed == 0))
    && leb (hash_count trimmed) 6
    && empty_or_space (after_hashes trimmed)

abbrev count_of : ℕ → List ℕ → ℕ
count_of k [] = 0
count_of k (c ∷ cs) = if c == k then suc (count_of k cs) else count_of k cs

abbrev only_or_space : ℕ → List ℕ → Bool
only_or_space k [] = true
only_or_space k (c ∷ cs) = ((c == k) || (c == 32)) && only_or_space k cs

unfoldable pub is_horizontal_rule : List ℕ → Bool
is_horizontal_rule [] = false
is_horizontal_rule (first ∷ cs) =
    ((first == 45) || (first == 42) || (first == 95))
    && leb 3 (count_of first (first ∷ cs))
    && only_or_space first (first ∷ cs)

-- What follows the digits.
abbrev dot_and_space : List ℕ → Bool
dot_and_space (c ∷ d ∷ cs) = ((c == 46) || (c == 41)) && (d == 32)
dot_and_space _ = false

abbrev digits_loop : Bool → List ℕ → Bool
digits_loop has_digit [] = false
digits_loop has_digit (c ∷ cs) =
    if is_ascii_digit c then digits_loop true cs else has_digit && dot_and_space (c ∷ cs)

unfoldable pub is_ordered_list : List ℕ → Bool
is_ordered_list s = digits_loop false s

abbrev pub is_bullet : ℕ → Bool
is_bullet c = (c == 42) || (c == 45) || (c == 43)

-- Whether all tokens between whitespace are a single bullet, given whether one has just been read.
unfoldable pub markers_loop : Bool → List ℕ → Bool
unfolding is_whitespace
markers_loop in_token [] = true
markers_loop in_token (c ∷ cs) =
    let apart = markers_loop false cs in
    let token = markers_loop true cs in
    if is_whitespace c then apart else not in_token && is_bullet c && token

-- `is_empty_list_markers`, of a trimmed text that is not empty.
unfoldable pub is_empty_list_markers : List ℕ → Bool
unfolding markers_loop
is_empty_list_markers s = not (length s == 0) && markers_loop false s

abbrev bullet_and_space : List ℕ → Bool
bullet_and_space (c ∷ d ∷ cs) = is_bullet c && (d == 32)
bullet_and_space _ = false

abbrev pub fence_start : List ℕ → Bool
fence_start trimmed = starts_with trimmed (codes "```") || starts_with trimmed (codes "~~~")

-- The tests after the one for headings.
unfoldable pub classify_rest : List ℕ → LineType
unfolding starts_with ends_with is_horizontal_rule is_empty_list_markers is_ordered_list
classify_rest trimmed =
    if starts_with trimmed (codes ">")
    then blockquote
    else if starts_with trimmed (codes "|") && ends_with trimmed (codes "|")
    then table_row
    else if is_horizontal_rule trimmed
    then horizontal_rule
    else if is_empty_list_markers trimmed
    then empty_list_markers
    else if bullet_and_space trimmed
    then unordered_list
    else if is_ordered_list trimmed
    then ordered_list
    else paragraph

-- `classify`, of the trimmed line.
unfoldable pub classify_trimmed : List ℕ → LineType
unfolding starts_with classify_rest
classify_trimmed trimmed =
    if length trimmed == 0
    then blank
    else if starts_with trimmed (codes "<!--")
    then html_comment
    else if fence_start trimmed
    then code_fence
    else if is_heading trimmed
    then heading
    else classify_rest trimmed

unfoldable pub classify : List ℕ → LineType
unfolding classify_trimmed trim
classify line = classify_trimmed (trim line)

abbrev pub needs_blank_before : LineType → Bool
needs_blank_before heading = true
needs_blank_before code_fence = true
needs_blank_before horizontal_rule = true
needs_blank_before _ = false

abbrev pub is_blank : LineType → Bool
is_blank blank = true
is_blank _ = false

abbrev pub is_paragraph : LineType → Bool
is_paragraph paragraph = true
is_paragraph _ = false
