-- ===== src/Base/Texts.antt =====
-- Text as a list of code points, for code that walks its characters, and the tests on it.
use mathlib.Core.Path.{◌≡◌, refl}
use native.Mathlib.Omega.{arith}
use mathlib.Core.Bool.{Bool, true, false, ◌&&◌, ◌||◌}
use mathlib.Core.List.{List, [], ◌∷◌}
use kodegen_tools_citescrape.Base.Tests.{◌==◌}
use Prim.Native.String.{String}
use Prim.Native.Char.{code}
use Prim.Native.Nat.{ℕ}

-- `text.starts_with(pattern)`.
unfoldable pub starts_with : List ℕ → List ℕ → Bool
starts_with text [] = true
starts_with [] (p ∷ ps) = false
starts_with (c ∷ cs) (p ∷ ps) = (c == p) && starts_with cs ps

-- `text.contains(pattern)`.
unfoldable pub contains : List ℕ → List ℕ → Bool
unfolding starts_with
contains [] pattern = starts_with [] pattern
contains (c ∷ cs) pattern = starts_with (c ∷ cs) pattern || contains cs pattern

-- The code points of a text.
abbrev pub codes : String → List ℕ
codes (String.◌∷◌ first rest) = code first ∷ codes rest
codes String.[] = []

-- Whether the text contains one of the patterns, tried in order.
unfoldable pub contains_any : List ℕ → List String → Bool
unfolding contains
contains_any text [] = false
contains_any text (p ∷ ps) = contains text (codes p) || contains_any text ps

abbrev pub same_text : List ℕ → List ℕ → Bool
same_text [] [] = true
same_text (c ∷ cs) (d ∷ ds) = (c == d) && same_text cs ds
same_text _ _ = false

pub same_text-eq : (s t : List ℕ) → same_text s t ≡ true → s ≡ t
same_text-eq [] [] e = refl
same_text-eq [] (d ∷ ds) e = cc
same_text-eq (c ∷ cs) [] e = cc
same_text-eq (c ∷ cs) (d ∷ ds) e =
    let first : c ≡ d = ground arith in let rest = same_text-eq cs ds (ground arith) in cc

pub same_text_refl : (s : List ℕ) → same_text s s ≡ true
same_text_refl [] = refl
same_text_refl (c ∷ cs) = ground (arith, same_text_refl cs)

-- `text.ends_with(pattern)`.
unfoldable pub ends_with : List ℕ → List ℕ → Bool
ends_with [] pattern = same_text [] pattern
ends_with (c ∷ cs) pattern = same_text (c ∷ cs) pattern || ends_with cs pattern
