-- ===== src/Mcp/SearchCache/Tests.antt =====
-- The search engine cache (search_cache.rs) on concrete engines.
use kodegen_tools_citescrape.Base.{
  ℕ, ◌+◌, ◌≤◌, ◌≡◌, refl, arith, [], ◌∷◌, lookup, insert, remove, length, UniqueKeys,
}
use kodegen_tools_citescrape.Mcp.SearchCache.{
  SearchEngineCacheEntry, Engines, max_engines, missed, get_or_evict, look, oldest_loop, evict_key,
  insert_new, keep_first, cleanup_idle_engines, nanos_to_instant, instant_to_nanos,
}
use kodegen_tools_citescrape.Mcp.SearchCache.Capacity.{
  Cache, misses, creates, Reach, here, next, empty_cache, cache_size_bound,
}
use kodegen_tools_citescrape.Mcp.SearchCache.Cleanup.{Outcome, cleanup_idle_engines_lem}

abbrev entry_at : ℕ → SearchEngineCacheEntry
entry_at t = record { engine = t; last_accessed = t }

abbrev five : Engines
five =
    ("a", entry_at 50)
    ∷ ("b", entry_at 20)
    ∷ ("c", entry_at 30)
    ∷ ("d", entry_at 40)
    ∷ ("e", entry_at 60)
    ∷ []

oldest_goes : get_or_evict "f" 70 five ≡ missed (remove "b" five)
unfolding get_or_evict look lookup oldest_loop evict_key nanos_to_instant
oldest_goes = refl

-- One directory is asked for, and its engine created.
abbrev one_engine : Cache
one_engine = record {
  engines = ("a", record { engine = 1; last_accessed = 8 }) ∷ [];
  creating = [];
}

one_created : Reach 1 empty_cache one_engine
unfolding get_or_evict look lookup insert_new keep_first insert instant_to_nanos
one_created =
    next (next here (misses "a" 5 empty_cache [] refl (omega arith)))
      (creates "a" 1 8 (record { engines = []; creating = "a" ∷ [] }) [] [] refl)

cache_size_bound_example :
    UniqueKeys one_engine.engines × (length one_engine.engines + length one_engine.creating ≤ 4 + 1)
cache_size_bound_example = cache_size_bound 1 one_created

cleanup_idle_engines_lem_example :
    (length (cleanup_idle_engines 1800000000030 five) ≤ max_engines)
    × Outcome 1800000000030 "b" (lookup "b" five) (cleanup_idle_engines 1800000000030 five)
unfolding lookup
cleanup_idle_engines_lem_example =
    cleanup_idle_engines_lem 1800000000030 five "b" (refl, (refl, (refl, (refl, (refl, tt)))))
