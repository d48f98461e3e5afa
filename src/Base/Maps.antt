-- ===== src/Base/Maps.antt =====
-- Finite maps with text keys, as association lists with one entry to a key. They stand for the
-- `HashMap` and `DashMap` values of the source; the order of the entries is the order in which
-- an iteration visits them.
use Prim.Native.String.{String}
use mathlib.Core.Path.{◌≡◌, refl}
use mathlib.Core.Logic.{◌≢◌}
use mathlib.Core.Option.{Option, none, some}
use mathlib.Core.List.{List, [], ◌∷◌}
use native.Mathlib.Omega.{arith}
use text.Mathlib.Text.{◌==◌ as str_eq}
use text.Mathlib.TextEquality.{eq_iff}
use kodegen_tools_citescrape.Base.Tests.{if◌then◌else◌}

abbrev pub Map {ℓ} : Type ℓ → Type ℓ
Map V = List (String × V)

module _ {ℓ} {V : Type ℓ} where
  unfoldable pub lookup : String → Map V → Option V
  lookup key [] = none
  lookup key ((other, value) ∷ rest) =
      let later = lookup key rest in if str_eq other key then some value else later

  unfoldable pub insert : String → V → Map V → Map V
  insert key value [] = (key, value) ∷ []
  insert key value ((other, old) ∷ rest) =
      let later = insert key value rest in
      if str_eq other key then (other, value) ∷ rest else (other, old) ∷ later

  unfoldable pub remove : String → Map V → Map V
  remove k [] = []
  remove k ((j, w) ∷ m) = if str_eq j k then remove k m else (j, w) ∷ remove k m

  abbrev pub values : Map V → List V
  values [] = []
  values ((j, v) ∷ m) = v ∷ values m

  abbrev pub keys : Map V → List String
  keys [] = []
  keys ((j, v) ∷ m) = j ∷ keys m

module _ {ℓ} {V : Type ℓ} where
  pub lookup-insert :
      (key wanted : String) (value : V) (rest : Map V)
      → lookup wanted (insert key value rest)
        ≡ (if str_eq key wanted then some value else lookup wanted rest)
  unfolding insert lookup
  lookup-insert key wanted value ((first, old) ∷ rest) =
      let later = lookup-insert key wanted value rest in
      ground (arith, later, eq_iff first wanted, eq_iff first key, eq_iff key wanted)
  lookup-insert key wanted value [] = refl

  pub lookup-insert_self : (k : String) (v : V) (m : Map V) → lookup k (insert k v m) ≡ some v
  lookup-insert_self k v m = ground (arith, eq_iff k k, lookup-insert k k v m)

  pub lookup-insert_ne :
      (k j : String) (v : V) (m : Map V) → k ≢ j → lookup j (insert k v m) ≡ lookup j m
  lookup-insert_ne k j v m h = ground (arith, eq_iff k j, lookup-insert k j v m)

  pub lookup-remove_self : (k : String) (m : Map V) → lookup k (remove k m) ≡ none
  unfolding lookup remove
  lookup-remove_self k [] = refl
  lookup-remove_self k ((i, w) ∷ m) = ground (arith, lookup-remove_self k m)

  pub lookup-remove_ne : (k j : String) (m : Map V) → k ≢ j → lookup j (remove k m) ≡ lookup j m
  unfolding lookup remove
  lookup-remove_ne k j [] h = refl
  lookup-remove_ne k j ((i, w) ∷ m) h =
      ground (arith, eq_iff k j, eq_iff i k, eq_iff i j, lookup-remove_ne k j m h)

module _ {ℓ} {V : Type ℓ} where
  -- No key has two entries.
  abbrev pub UniqueKeys : Map V → Type ℓ
  UniqueKeys [] = Unit
  UniqueKeys ((k, v) ∷ m) = (lookup k m ≡ none) × UniqueKeys m

module _ {ℓ} {V : Type ℓ} where
  pub remove_fresh : (k : String) (m : Map V) → lookup k m ≡ none → remove k m ≡ m
  unfolding lookup remove
  remove_fresh k [] h = refl
  remove_fresh k ((j, v) ∷ m) h = ground (arith, remove_fresh k m)

  lookup-remove-none : (k j : String) (m : Map V) → lookup j m ≡ none → lookup j (remove k m) ≡ none
  unfolding lookup remove
  lookup-remove-none k j [] h = refl
  lookup-remove-none k j ((i, v) ∷ m) h = ground (arith, lookup-remove-none k j m)

  pub remove-UniqueKeys : (k : String) (m : Map V) → UniqueKeys m → UniqueKeys (remove k m)
  unfolding remove
  remove-UniqueKeys k [] u = tt
  remove-UniqueKeys k ((j, v) ∷ m) u =
      ground (arith, remove-UniqueKeys k m u.1, lookup-remove-none k j m)

  pub insert-UniqueKeys :
      (k : String) (v : V) (m : Map V) → UniqueKeys m → UniqueKeys (insert k v m)
  unfolding insert lookup
  insert-UniqueKeys k v [] u = (refl, tt)
  insert-UniqueKeys k v ((j, w) ∷ m) u =
      ground (arith, eq_iff k j, eq_iff j k, insert-UniqueKeys k v m u.1, lookup-insert k j v m)
