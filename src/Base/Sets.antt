-- ===== src/Base/Sets.antt =====
-- Sets of texts as lists, for the `HashSet` and `DashSet` values of the source.
use Prim.Native.String.{String}
use mathlib.Core.Path.{◌≡◌, refl}
use mathlib.Core.Logic.{◌≢◌}
use mathlib.Core.Bool.{Bool, false, ◌||◌}
use mathlib.Core.List.{List, [], ◌∷◌}
use native.Mathlib.Omega.{arith}
use text.Mathlib.Text.{◌==◌ as str_eq}
use text.Mathlib.TextEquality.{eq_iff}
use kodegen_tools_citescrape.Base.Tests.{if◌then◌else◌}

abbrev pub has : String → List String → Bool
has d [] = false
has d (x ∷ xs) = str_eq x d || has d xs

-- `remove` of a set.
unfoldable pub discard : String → List String → List String
discard d [] = []
discard d (x ∷ xs) = if str_eq x d then discard d xs else x ∷ discard d xs

pub has-discard_ne : (d j : String) (xs : List String) → d ≢ j → has j (discard d xs) ≡ has j xs
unfolding discard
has-discard_ne d j [] h = refl
has-discard_ne d j (x ∷ xs) h = ground (arith, eq_iff x d, eq_iff x j, has-discard_ne d j xs h)

pub has-discard_self : (d : String) (xs : List String) → has d (discard d xs) ≡ false
unfolding discard
has-discard_self d [] = refl
has-discard_self d (x ∷ xs) = ground (arith, has-discard_self d xs)

-- No text occurs twice.
abbrev pub Distinct : List String → Type 0
Distinct [] = Unit
Distinct (x ∷ xs) = (has x xs ≡ false) × Distinct xs
