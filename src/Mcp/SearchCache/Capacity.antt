-- ===== src/Mcp/SearchCache/Capacity.antt =====
-- How many engines the cache of search_cache.rs holds while its operations interleave.
use kodegen_tools_citescrape.Base.{
  ℕ, ◌+◌, ◌≤◌, ◌<◌, String, ◌≡◌, sym, ap, subst, inl, inr, Option, none, some, List, [], ◌∷◌, ◌++◌,
  arith, lookup, insert, remove, UniqueKeys, insert-UniqueKeys, remove-UniqueKeys, length,
  length-append,
}
use kodegen_tools_citescrape.Mcp.SearchCache.{
  SearchEngineCacheEntry, Engines, hit, missed, get_or_evict, keep_first, insert_new, invalidate,
  clear, shutdown, cleanup_idle_engines,
}
use kodegen_tools_citescrape.Mcp.SearchCache.Cleanup.{cleanup-UniqueKeys, length-cleanup-le}
use kodegen_tools_citescrape.Mcp.SearchCache.Calls.{get_or_evict-Hit, get_or_evict-Miss}

-- The cache and the directories whose engine is being created.
pub record Cache : Type 0 where
  pub engines : Engines
  pub creating : List String

-- One locked section of a call, where at most `tasks` engines are created at once.
pub data Step (tasks : ℕ) : Cache → Cache → Type 0 where
  hits :
      (d : String) (now : ℕ) (s : Cache) (e : SearchEngineCacheEntry) (m : Engines)
      → get_or_evict d now s.engines ≡ hit e m
      → Step tasks s (record s { engines = m })
  misses :
      (d : String) (now : ℕ) (s : Cache) (m : Engines)
      → get_or_evict d now s.engines ≡ missed m
      → length s.creating < tasks
      → Step tasks s (record { engines = m; creating = d ∷ s.creating })
  creates :
      (d : String) (engine now : ℕ) (s : Cache) (before after : List String)
      → s.creating ≡ before ++ d ∷ after
      → Step tasks s
          (record { engines = (insert_new d engine now s.engines).1; creating = before ++ after })
  fails :
      (d : String) (s : Cache) (before after : List String)
      → s.creating ≡ before ++ d ∷ after
      → Step tasks s (record s { creating = before ++ after })
  invalidates :
      (d : String) (s : Cache) → Step tasks s (record s { engines = invalidate d s.engines })
  clears : (s : Cache) → Step tasks s (record s { engines = clear s.engines })
  shuts : (s : Cache) → Step tasks s (record s { engines = shutdown s.engines })
  cleans :
      (now : ℕ) (s : Cache)
      → Step tasks s (record s { engines = cleanup_idle_engines now s.engines })

pub data Reach (tasks : ℕ) (s : Cache) : Cache → Type 0 where
  here : Reach tasks s s
  next : {s' s'' : Cache} → Reach tasks s s' → Step tasks s' s'' → Reach tasks s s''

abbrev pub empty_cache : Cache
empty_cache = record { engines = []; creating = [] }

record Within (tasks : ℕ) (s : Cache) : Type 0 where
  unique : UniqueKeys s.engines
  size : length s.engines + length s.creating ≤ 4 + tasks

length-insert_le :
    (k : String) (e : SearchEngineCacheEntry) (m : Engines) → length (insert k e m) ≤ length m + 1
unfolding insert
length-insert_le k e [] = omega arith
length-insert_le k e ((j, d) ∷ m) = ground (arith, length-insert_le k e m)

length-insert_old :
    (k : String) (e d : SearchEngineCacheEntry) (m : Engines)
    → lookup k m ≡ some d
    → length (insert k e m) ≡ length m
unfolding insert lookup
length-insert_old k e d [] h = ground arith
length-insert_old k e d ((j, c) ∷ m) h = ground (arith, length-insert_old k e d m)

length-remove_le : (k : String) (m : Engines) → length (remove k m) ≤ length m
unfolding remove
length-remove_le k [] = omega arith
length-remove_le k ((j, d) ∷ m) = ground (arith, length-remove_le k m)

length-middle :
    (before after : List String) (d : String)
    → length (before ++ d ∷ after) ≡ length (before ++ after) + 1
length-middle before after d =
    omega (arith, length-append before (d ∷ after), length-append before after)

keep_first-UniqueKeys :
    (d : String) (e : SearchEngineCacheEntry) (m : Engines) (o : Option SearchEngineCacheEntry)
    → UniqueKeys m
    → UniqueKeys (keep_first d e m o).1 × (length (keep_first d e m o).1 ≤ length m + 1)
unfolding keep_first
keep_first-UniqueKeys d e m (some old) u = (u, omega arith)
keep_first-UniqueKeys d e m none u = (insert-UniqueKeys d e m u, length-insert_le d e m)

insert_new-UniqueKeys :
    (d : String) (engine now : ℕ) (m : Engines)
    → UniqueKeys m
    → UniqueKeys (insert_new d engine now m).1
      × (length (insert_new d engine now m).1 ≤ length m + 1)
unfolding insert_new
insert_new-UniqueKeys d engine now m u = keep_first-UniqueKeys d _ m (lookup d m) u

step-Within : (tasks : ℕ) {s s' : Cache} → Step tasks s s' → Within tasks s → Within tasks s'
unfolding invalidate clear shutdown
step-Within tasks (hits d now s e m h) w =
    let f = get_or_evict-Hit d now s.engines e m h in
    let same = length-insert_old d e f.old s.engines f.held in
    record {
      unique = subst UniqueKeys (sym f.touched) (insert-UniqueKeys d e s.engines w.unique);
      size = omega (arith, w.size, same, ap length f.touched);
    }
step-Within tasks (misses d now s m h few) w =
    let f = get_or_evict-Miss d now s.engines m w.unique h in
    record {
      unique = f.unique;
      size = elim f.room [
        | inl room ↦ omega (arith, room, few)
        | inr less ↦ omega (arith, less, w.size)
      ];
    }
step-Within tasks (creates d engine now s before after e) w =
    let (u, more) = insert_new-UniqueKeys d engine now s.engines w.unique in
    record {
      unique = u;
      size = omega (arith, more, w.size, ap length e, length-middle before after d);
    }
step-Within tasks (fails d s before after e) w = record {
  unique = w.unique;
  size = omega (arith, w.size, ap length e, length-middle before after d);
}
step-Within tasks (invalidates d s) w = record {
  unique = remove-UniqueKeys d s.engines w.unique;
  size = omega (arith, w.size, length-remove_le d s.engines);
}
step-Within tasks (clears s) w = record { unique = tt; size = omega (arith, w.size) }
step-Within tasks (shuts s) w = record { unique = tt; size = omega (arith, w.size) }
step-Within tasks (cleans now s) w = record {
  unique = cleanup-UniqueKeys now s.engines w.unique;
  size = omega (arith, w.size, length-cleanup-le now s.engines w.unique);
}

Reach-Within : (tasks : ℕ) {s : Cache} → Reach tasks empty_cache s → Within tasks s
Reach-Within tasks here = record { unique = tt; size = omega arith }
Reach-Within tasks (next r st) = step-Within tasks st (Reach-Within tasks r)

-- From an empty cache, whatever the calls and their interleaving, the engines held and those being
-- created are together at most four more than the tasks that may create engines at once, so a
-- caller that is alone never holds more than five; and no directory has two engines.
pub cache_size_bound :
    (tasks : ℕ) {s : Cache}
    → Reach tasks empty_cache s
    → UniqueKeys s.engines × (length s.engines + length s.creating ≤ 4 + tasks)
cache_size_bound tasks r = let w = Reach-Within tasks r in (w.unique, w.size)
