-- ===== src/Mcp/SearchCache/Cleanup.antt =====
-- What `cleanup_idle_engines` (search_cache.rs) leaves in the cache.
use mathlib.Core.Option.{some-injective}
use kodegen_tools_citescrape.Base.{
  ℕ, zero, suc, ◌+◌, ◌-◌, ◌≤◌, ◌<◌, String, str_eq, eq_iff, ◌≡◌, ◌↔◌, refl, sym, ap, ◌∙◌, subst,
  ◌⊎◌, inl, inr, Option, none, some, [], ◌∷◌, arith, All, lookup, remove, UniqueKeys,
  remove-UniqueKeys, lookup-remove_ne, lookup-remove_self, length, ltb, ltb→lt, Bool-cases,
  Option-cases, min,
}
use kodegen_tools_citescrape.Mcp.SearchCache.{
  SearchEngineCacheEntry, Engines, nanos_to_instant, max_engines, engine_idle_timeout, evict_key,
  retain_fresh, evict_loop, cleanup_idle_engines,
}
use kodegen_tools_citescrape.Mcp.SearchCache.Lru.{
  NotBefore, LeastRecent, oldest_loop_lem, length-remove,
}

retain_absent :
    (now : ℕ) (k : String) (m : Engines) → lookup k m ≡ none → lookup k (retain_fresh now m) ≡ none
unfolding retain_fresh lookup
retain_absent now k [] h = refl
retain_absent now k ((j, e) ∷ m) h = ground (arith, retain_absent now k m)

retain_fresh-UniqueKeys : (now : ℕ) (m : Engines) → UniqueKeys m → UniqueKeys (retain_fresh now m)
unfolding retain_fresh
retain_fresh-UniqueKeys now [] u = tt
retain_fresh-UniqueKeys now ((j, e) ∷ m) u =
    ground (arith, retain_absent now j m, retain_fresh-UniqueKeys now m u.1)

abbrev pub Fresh : ℕ → SearchEngineCacheEntry → Type 0
Fresh now e = now - e.last_accessed < engine_idle_timeout

-- An entry stays in the first step exactly where it is fresh.
lookup-retain_fresh :
    (now : ℕ) (k : String) (m : Engines) (e : SearchEngineCacheEntry)
    → UniqueKeys m
    → (lookup k (retain_fresh now m) ≡ some e) ↔ (Fresh now e × (lookup k m ≡ some e))
unfolding retain_fresh lookup nanos_to_instant
lookup-retain_fresh now k [] e u = (λ h. ground arith, λ h. ground arith)
lookup-retain_fresh now k ((j, d) ∷ m) e u =
    let (there, back) = lookup-retain_fresh now k m e u.1 in
    let gone = retain_absent now j m u.0 in
    (
      λ h. ground (arith, eq_iff j k, there, gone, h, u.0),
      λ h. ground (arith, eq_iff j k, back, h.0, h.1, u.0),
    )

All-remove :
    (t : ℕ) (k : String) (m : Engines) → All (NotBefore t) m → All (NotBefore t) (remove k m)
unfolding remove
All-remove t k [] a = tt
All-remove t k ((j, e) ∷ m) a = ground (arith, All-remove t k m a.1)

lookup-remove :
    (k j : String) (e : SearchEngineCacheEntry) (m : Engines)
    → lookup j (remove k m) ≡ some e
    → lookup j m ≡ some e
unfolding remove lookup
lookup-remove k j e [] h = h
lookup-remove k j e ((i, d) ∷ m) h =
    ground (arith, eq_iff i k, eq_iff i j, lookup-remove_self k m, lookup-remove k j e m)

-- What an eviction of least recently used entries makes of a map.
record Trimmed (m r : Engines) : Type 0 where
  unique : UniqueKeys r
  size : length r ≡ min max_engines (length m)
  subset : (k : String) (e : SearchEngineCacheEntry) → lookup k r ≡ some e → lookup k m ≡ some e
  bounded : (t : ℕ) → All (NotBefore t) m → All (NotBefore t) r
  oldest_first :
      (k : String) (e : SearchEngineCacheEntry)
      → lookup k m ≡ some e
      → (lookup k r ≡ some e) ⊎ ((length r ≡ max_engines) × All (NotBefore e.last_accessed) r)

same-Trimmed : (m : Engines) → UniqueKeys m → length m ≤ max_engines → Trimmed m m
same-Trimmed m u few = record {
  unique = u;
  size = omega arith;
  subset = λ k e h. h;
  bounded = λ t a. a;
  oldest_first = λ k e h. inl h;
}

evict-Trimmed :
    (m r : Engines) (k : String)
    → max_engines < length m
    → length (remove k m) + 1 ≡ length m
    → LeastRecent m k
    → Trimmed (remove k m) r
    → Trimmed m r
evict-Trimmed m r k many less l t = record {
  unique = t.unique;
  size = omega (arith, t.size);
  subset = λ j e h. lookup-remove k j e m (t.subset j e h);
  bounded = λ x a. t.bounded x (All-remove x k m a);
  oldest_first = λ j e h. elim (Bool-cases (str_eq k j)) [
    | inl same ↦
        let held : lookup j m ≡ some l.entry = ground (arith, eq_iff k j, l.held) in
        let same_time : l.entry.last_accessed ≡ e.last_accessed = ground (arith, held, h) in
        let full : length r ≡ max_engines = omega (arith, t.size, many, less) in
        inr (
          full,
          subst (λ x. All (NotBefore x) r) same_time
              (t.bounded l.entry.last_accessed (All-remove l.entry.last_accessed k m l.oldest)),
        )
    | inr other ↦ t.oldest_first j e (lookup-remove_ne k j m (ground (arith, eq_iff k j)) ∙ h)
  ];
}

evict_loop_lem :
    (fuel now : ℕ) (m : Engines)
    → UniqueKeys m
    → length m ≤ fuel + max_engines
    → Trimmed m (evict_loop fuel now m)
unfolding evict_loop evict_key
evict_loop_lem zero now m u enough = same-Trimmed m u enough
evict_loop_lem (suc fuel) now m u enough = elim (Bool-cases (ltb max_engines (length m))) [
  | inl many ↦
      let more = ltb→lt _ _ many in
      let some_left : 1 ≤ length m = omega (arith, more) in
      let (k, found, least) = oldest_loop_lem m now u some_left in
      let less = length-remove k least.entry m u least.held in
      let fits : length (remove k m) ≤ fuel + max_engines = omega (arith, less, enough) in
      rw (many, found)
        (evict-Trimmed m _ k more less least
          (evict_loop_lem fuel now (remove k m) (remove-UniqueKeys k m u) fits))
  | inr few ↦ rw few (same-Trimmed m u (ground arith))
]

-- What the cleanup promises for a directory, given its entry before: an entry stays where it is
-- fresh, and a fresh one goes only where five are left that were all accessed no earlier.
abbrev pub Outcome : ℕ → String → Option SearchEngineCacheEntry → Engines → Type 0
Outcome now k none result = lookup k result ≡ none
Outcome now k (some e) result =
    (Fresh now e × (lookup k result ≡ some e))
    ⊎ ((lookup k result ≡ none)
        × (engine_idle_timeout ≤ now - e.last_accessed
            ⊎ ((length result ≡ max_engines) × All (NotBefore e.last_accessed) result)))

trimmed :
    (now : ℕ) (engines : Engines)
    → UniqueKeys engines
    → Trimmed (retain_fresh now engines) (cleanup_idle_engines now engines)
unfolding cleanup_idle_engines
trimmed now engines u =
    evict_loop_lem (length (retain_fresh now engines)) now (retain_fresh now engines)
      (retain_fresh-UniqueKeys now engines u) (omega arith)

pub cleanup-UniqueKeys :
    (now : ℕ) (engines : Engines)
    → UniqueKeys engines
    → UniqueKeys (cleanup_idle_engines now engines)
cleanup-UniqueKeys now engines u = (trimmed now engines u).unique

length-retain_fresh-le : (now : ℕ) (m : Engines) → length (retain_fresh now m) ≤ length m
unfolding retain_fresh
length-retain_fresh-le now [] = omega arith
length-retain_fresh-le now ((j, e) ∷ m) = ground (arith, length-retain_fresh-le now m)

pub length-cleanup-le :
    (now : ℕ) (engines : Engines)
    → UniqueKeys engines
    → length (cleanup_idle_engines now engines) ≤ length engines
length-cleanup-le now engines u =
    omega (arith, (trimmed now engines u).size, length-retain_fresh-le now engines)

outcome :
    (now : ℕ) (k : String) (m r : Engines) (o : Option SearchEngineCacheEntry)
    → UniqueKeys m
    → lookup k m ≡ o
    → Trimmed (retain_fresh now m) r
    → Outcome now k o r
outcome now k m r none u l t = gone (lookup k r) refl
  where
    gone : (o : Option SearchEngineCacheEntry) → lookup k r ≡ o → o ≡ none
    gone none e = refl
    gone (some d) e =
        absurd (ground (arith, (lookup-retain_fresh now k m d u).0 (t.subset k d e), l))
outcome now k m r (some e) u l t = elim (Option-cases (lookup k r)) [
  | inr (d, held) ↦
      let was = (lookup-retain_fresh now k m d u).0 (t.subset k d held) in
      let same = some-injective _ _ (sym was.1 ∙ l) in
      inl (subst (Fresh now) same was.0, held ∙ ap some same)
  | inl gone ↦ elim (Bool-cases (ltb (now - e.last_accessed) engine_idle_timeout)) [
    | inr idle ↦ inr (gone, inl (ground arith))
    | inl fresh ↦
        let is_fresh = ltb→lt _ _ fresh in
        elim (t.oldest_first k e ((lookup-retain_fresh now k m e u).1 (is_fresh, l))) [
          | inl held ↦ absurd (ground (arith, held, gone))
          | inr full ↦ inr (gone, inr full)
        ]
  ]
]

-- After a cleanup there are at most five engines. For any directory: without an entry it has none
-- after it; an entry accessed less than half an hour ago stays, or five are left that were all
-- accessed no earlier; any other entry is gone.
pub cleanup_idle_engines_lem :
    (now : ℕ) (engines : Engines) (k : String)
    → UniqueKeys engines
    → (length (cleanup_idle_engines now engines) ≤ max_engines)
      × Outcome now k (lookup k engines) (cleanup_idle_engines now engines)
cleanup_idle_engines_lem now engines k u =
    let t = trimmed now engines u in
    (omega (arith, t.size), outcome now k engines _ (lookup k engines) u refl t)
