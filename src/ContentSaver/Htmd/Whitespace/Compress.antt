-- ===== src/ContentSaver/Htmd/Whitespace/Compress.antt =====
-- The loop of `compress_whitespace` (text_util.rs) against a direct description of its result.
use mathlib.Core.List.{append-nil, append_assoc}
use kodegen_tools_citescrape.Base.{
  ℕ, ◌≡◌, refl, sym, ap, ◌≤◌, ◌↔◌, ◌≢◌, length, Bool, true, false, Option, none, some, List, [],
  ◌∷◌, ◌++◌, arith, if◌then◌else◌,
}
use kodegen_tools_citescrape.ContentSaver.Htmd.Whitespace.{
  borrowed, text_of, is_whitespace, allocate, cow, compress_loop, compress_whitespace,
}

-- Each run of whitespace becomes one space; the flag says that a run has begun.
abbrev pub squeeze : Bool → List ℕ → List ℕ
squeeze in_run [] = []
squeeze in_run (c ∷ cs) =
    if is_whitespace c
    then (if in_run then squeeze true cs else 32 ∷ squeeze true cs)
    else c ∷ squeeze false cs

compress_some :
    (cs prefix r : List ℕ) (b : Bool)
    → compress_loop cs prefix (some r) b ≡ some (r ++ squeeze b cs)
unfolding compress_loop
compress_some [] prefix r b = ap some (sym (append-nil r))
compress_some (c ∷ cs) prefix r b = ground (
  arith,
  compress_some cs (prefix ++ c ∷ []) r true,
  compress_some cs (prefix ++ c ∷ []) (r ++ 32 ∷ []) true,
  compress_some cs (prefix ++ c ∷ []) (r ++ c ∷ []) false,
  append_assoc r (32 ∷ []) (squeeze true cs),
  append_assoc r (c ∷ []) (squeeze false cs),
)

compress_none :
    (cs prefix : List ℕ) (b : Bool)
    → allocate (prefix ++ cs) (compress_loop cs prefix none b) ≡ prefix ++ squeeze b cs
unfolding compress_loop
compress_none [] prefix b = refl
compress_none (c ∷ cs) prefix b = ground (
  arith,
  compress_some cs (prefix ++ c ∷ []) prefix true,
  compress_some cs (prefix ++ c ∷ []) (prefix ++ 32 ∷ []) true,
  compress_none cs (prefix ++ c ∷ []) true,
  compress_none cs (prefix ++ c ∷ []) false,
  append_assoc prefix (c ∷ []) cs,
  append_assoc prefix (32 ∷ []) (squeeze true cs),
  append_assoc prefix (c ∷ []) (squeeze true cs),
  append_assoc prefix (c ∷ []) (squeeze false cs),
)

-- A run that has begun yields no further whitespace.
squeeze_twice :
    (cs : List ℕ)
    → (squeeze false (squeeze false cs) ≡ squeeze false cs)
      × ((b : Bool) → squeeze b (squeeze true cs) ≡ squeeze true cs)
squeeze_twice [] = (refl, λ b. refl)
squeeze_twice (c ∷ cs) =
    let (plain, run) = squeeze_twice cs in
    (ground (arith, plain, run true, run false), λ b. ground (arith, plain, run true, run b))

length-squeeze-le : (b : Bool) (cs : List ℕ) → length (squeeze b cs) ≤ length cs
length-squeeze-le b [] = omega arith
length-squeeze-le b (c ∷ cs) = ground (arith, length-squeeze-le true cs, length-squeeze-le false cs)

squeeze_shorter : (b : Bool) (c : ℕ) (cs : List ℕ) → squeeze b cs ≢ c ∷ cs
squeeze_shorter b c cs e = omega (arith, length-squeeze-le b cs, ap length e)

-- The loop allocates a result exactly where there is something to change.
allocates :
    (cs prefix : List ℕ) (b : Bool) → (compress_loop cs prefix none b ≡ none) ↔ (squeeze b cs ≡ cs)
unfolding compress_loop
allocates [] prefix b = (λ e. refl, λ e. refl)
allocates (c ∷ cs) prefix b = ground (
  arith,
  squeeze_shorter true c cs,
  compress_some cs (prefix ++ c ∷ []) prefix true,
  compress_some cs (prefix ++ c ∷ []) (prefix ++ 32 ∷ []) true,
  allocates cs (prefix ++ c ∷ []) true,
  allocates cs (prefix ++ c ∷ []) false,
)

-- The text of the result has one space for each run of whitespace, and the text itself is passed
-- on exactly where that changes nothing.
pub compress_whitespace_lem :
    (input : List ℕ)
    → (text_of (compress_whitespace input) ≡ squeeze false input)
      × ((compress_whitespace input ≡ borrowed input) ↔ (squeeze false input ≡ input))
unfolding compress_whitespace
compress_whitespace_lem [] = (refl, (λ e. refl, λ e. refl))
compress_whitespace_lem (c ∷ cs) =
    let (there, back) = allocates (c ∷ cs) [] false in
    let kept = compress_none (c ∷ cs) [] false in
    (
      text (compress_loop (c ∷ cs) [] none false) kept,
      (
        λ e. there (none_of (compress_loop (c ∷ cs) [] none false) e),
        λ e. ap (cow (c ∷ cs)) (back e),
      ),
    )
  where
    text :
        (o : Option (List ℕ))
        → allocate (c ∷ cs) o ≡ squeeze false (c ∷ cs)
        → text_of (cow (c ∷ cs) o) ≡ squeeze false (c ∷ cs)
    text none e = e
    text (some r) e = e

    none_of : (o : Option (List ℕ)) → cow (c ∷ cs) o ≡ borrowed (c ∷ cs) → o ≡ none
    none_of none e = refl
    none_of (some r) e = cc

-- Compressing the whitespace of a text that was compressed passes the text on as it is.
pub compress_whitespace_twice :
    (input : List ℕ)
    → compress_whitespace (text_of (compress_whitespace input))
      ≡ borrowed (text_of (compress_whitespace input))
compress_whitespace_twice input =
    let e = (compress_whitespace_lem input).0 in
    (compress_whitespace_lem (text_of (compress_whitespace input))).1.1
      (rw e (squeeze_twice input).0)
