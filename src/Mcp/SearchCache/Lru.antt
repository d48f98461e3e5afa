-- ===== src/Mcp/SearchCache/Lru.antt =====
-- Which entry the search engine cache (search_cache.rs) gives up where it is full.
use kodegen_tools_citescrape.Base.{
  ℕ, ◌+◌, ◌≤◌, String, eq_iff, ◌≡◌, refl, sym, subst, ◌⊎◌, inl, inr, none, some, [], ◌∷◌, arith,
  All, lookup, remove, UniqueKeys, remove_fresh, length, ltb, le→leb, Bool-cases,
}
use kodegen_tools_citescrape.Mcp.SearchCache.{
  SearchEngineCacheEntry, Engines, nanos_to_instant, max_engines, oldest_loop, evict_key, except,
  look, missed, get_or_evict,
}

-- The key has an entry of that time.
In : String → ℕ → Engines → Type 0
In k t [] = ⊥
In k t ((j, e) ∷ m) = ((j ≡ k) × (e.last_accessed ≡ t)) ⊎ In k t m

abbrev pub NotBefore : ℕ → String × SearchEngineCacheEntry → Type 0
NotBefore t p = t ≤ p.1.last_accessed

-- What the loop finds from a key and its time.
record Oldest (m : Engines) (k0 : String) (t0 : ℕ) : Type 0 where
  key : String
  time : ℕ
  found : oldest_loop m (some k0) t0 ≡ some key
  start : time ≤ t0
  least : All (NotBefore time) m
  origin : ((k0 ≡ key) × (t0 ≡ time)) ⊎ In key time m

oldest_lem : (m : Engines) (k0 : String) (t0 : ℕ) → Oldest m k0 t0
unfolding oldest_loop In nanos_to_instant
oldest_lem [] k0 t0 = record {
  key = k0;
  time = t0;
  found = refl;
  start = omega arith;
  least = tt;
  origin = inl (refl, refl);
}
oldest_lem ((k, e) ∷ m) k0 t0 = elim (Bool-cases (ltb e.last_accessed t0)) [
  | inl older ↦
      let o = oldest_lem m k e.last_accessed in
      record {
        key = o.key;
        time = o.time;
        found = rw older o.found;
        start = ground (arith, o.start, older);
        least = (o.start, o.least);
        origin = inr o.origin;
      }
  | inr newer ↦
      let o = oldest_lem m k0 t0 in
      record {
        key = o.key;
        time = o.time;
        found = rw newer o.found;
        start = o.start;
        least = (ground (arith, o.start, newer), o.least);
        origin = elim o.origin [ inl same ↦ inl same | inr later ↦ inr (inr later) ];
      }
]

-- An entry of the map that is no younger than any other.
pub record LeastRecent (m : Engines) (k : String) : Type 0 where
  pub entry : SearchEngineCacheEntry
  pub held : lookup k m ≡ some entry
  pub oldest : All (NotBefore entry.last_accessed) m

In-lookup :
    (k : String) (t : ℕ) (m : Engines)
    → UniqueKeys m
    → In k t m
    → (e : SearchEngineCacheEntry) × (lookup k m ≡ some e) × (e.last_accessed ≡ t)
unfolding In lookup
In-lookup k t [] u x = elim x [ ]
In-lookup k t ((j, e) ∷ m) u (inl (same, same_time)) = (e, ground (arith, eq_iff j k), same_time)
In-lookup k t ((j, e) ∷ m) u (inr i) =
    let (d, held, same_time) = In-lookup k t m u.1 i in
    (d, ground (arith, eq_iff j k, u.0, held), same_time)

-- The loop over a map that is not empty finds an entry that was accessed least recently.
pub oldest_loop_lem :
    (m : Engines) (t : ℕ)
    → UniqueKeys m
    → 1 ≤ length m
    → (k : String) × (oldest_loop m none t ≡ some k) × LeastRecent m k
unfolding oldest_loop In nanos_to_instant
oldest_loop_lem [] t u h = ground arith
oldest_loop_lem ((k, e) ∷ m) t u h =
    let o = oldest_lem m k e.last_accessed in
    let (d, held, same_time) = In-lookup o.key o.time ((k, e) ∷ m) u o.origin in
    (
      o.key,
      o.found,
      record {
        entry = d;
        held = held;
        oldest = subst (λ x. All (NotBefore x) ((k, e) ∷ m)) (sym same_time) (o.start, o.least);
      },
    )

pub length-remove :
    (k : String) (e : SearchEngineCacheEntry) (m : Engines)
    → UniqueKeys m
    → lookup k m ≡ some e
    → length (remove k m) + 1 ≡ length m
unfolding lookup remove
length-remove k e [] u h = ground arith
length-remove k e ((j, d) ∷ m) u h =
    ground (arith, eq_iff j k, remove_fresh k m, length-remove k e m u.1, u.0)

except_absent : (d : String) (m : Engines) → lookup d m ≡ none → except d m ≡ m
unfolding lookup
except_absent d [] h = refl
except_absent d ((k, e) ∷ m) h = ground (arith, except_absent d m)

-- Where the directory has no engine and the cache holds five or more, the entry that leaves it is
-- one that was accessed no later than any other, and it is the only one to leave.
pub get_or_evict_full :
    (output_dir : String) (now : ℕ) (engines : Engines)
    → UniqueKeys engines
    → lookup output_dir engines ≡ none
    → max_engines ≤ length engines
    → (k : String) × LeastRecent engines k
      × (get_or_evict output_dir now engines ≡ missed (remove k engines))
      × (length (remove k engines) + 1 ≡ length engines)
unfolding get_or_evict look evict_key
get_or_evict_full d now engines u absent full =
    let (k, found, least) = oldest_loop_lem engines now u (omega arith) in
    (
      k,
      least,
      rw (absent, le→leb _ _ full, except_absent d engines absent, found) refl,
      length-remove k least.entry engines u least.held,
    )
