-- ===== src/Mcp/SearchCache.antt =====
-- src/mcp/manager/search_cache.rs: the cache of search engines, with src/mcp/manager/timestamp_utils.rs.
-- An entry is what the cache handles of it: an identity for the engine with its sender, and
-- `last_accessed`. A time is the nanoseconds since the epoch of timestamp_utils.rs. The engine's
-- creation lies between two locked sections, which are two operations here.
pub mod Lru
pub mod Calls
pub mod Capacity
pub mod Cleanup
mod Tests
use kodegen_tools_citescrape.Base.{
  ℕ, zero, suc, ◌+◌, ◌-◌, ◌*◌, ◌/◌, ◌%◌, ◌^◌, min, String, str_eq, Bool, true, false, not, ◌||◌,
  Option, none, some, List, [], ◌∷◌, Map, lookup, insert, remove, length, leb, ltb, if◌then◌else◌,
}

pub record SearchEngineCacheEntry : Type 0 where
  pub engine : ℕ
  pub last_accessed : ℕ  -- u64

abbrev pub Engines : Type 0
Engines = Map SearchEngineCacheEntry

abbrev pub u64_max : ℕ
u64_max = 2 ^ 64 - 1

-- `instant_to_nanos`, of the time since the epoch: seconds and nanoseconds, saturating.
unfoldable pub instant_to_nanos : ℕ → ℕ
instant_to_nanos instant =
    let secs = instant / 1000000000 in
    let nanos = instant % 1000000000 in min (min (secs * 1000000000) u64_max + nanos) u64_max

unfoldable pub nanos_to_instant : ℕ → ℕ
nanos_to_instant nanos = nanos

abbrev pub max_engines : ℕ
max_engines = 5

-- 30 minutes, in nanoseconds.
abbrev pub engine_idle_timeout : ℕ
engine_idle_timeout = 30 * 60 * 1000000000

-- The loop that looks for the least recently used engine, with its two variables.
unfoldable pub oldest_loop : Engines → Option String → ℕ → Option String
unfolding nanos_to_instant
oldest_loop [] oldest_key oldest_time = oldest_key
oldest_loop ((key, entry) ∷ engines) none oldest_time =
    oldest_loop engines (some key) (nanos_to_instant entry.last_accessed)
oldest_loop ((key, entry) ∷ engines) (some oldest) oldest_time =
    let last_access = nanos_to_instant entry.last_accessed in
    let newer = oldest_loop engines (some oldest) oldest_time in
    let older = oldest_loop engines (some key) last_access in
    if ltb last_access oldest_time then older else newer

unfoldable pub evict_key : Engines → Option String → Engines
evict_key engines none = engines
evict_key engines (some key) = remove key engines

-- The entries other than the one about to be created, which the loop skips.
abbrev pub except : String → Engines → Engines
except output_dir [] = []
except output_dir ((key, entry) ∷ engines) =
    if str_eq key output_dir
    then except output_dir engines
    else (key, entry) ∷ except output_dir engines

pub data Looked : Type 0 where
  hit : SearchEngineCacheEntry → Engines → Looked
  missed : Engines → Looked

look : String → ℕ → Engines → Option SearchEngineCacheEntry → Looked
unfolding oldest_loop evict_key
look output_dir now engines (some entry) =
    let touched = record entry { last_accessed = instant_to_nanos now } in
    hit touched (insert output_dir touched engines)
look output_dir now engines none =
    if leb max_engines (length engines)
    then missed (evict_key engines (oldest_loop (except output_dir engines) none now))
    else missed engines

-- The first locked section of `get_or_init`: a hit is touched, a miss makes room.
unfoldable pub get_or_evict : String → ℕ → Engines → Looked
unfolding look
get_or_evict output_dir now engines = look output_dir now engines (lookup output_dir engines)

keep_first :
    String
    → SearchEngineCacheEntry
    → Engines
    → Option SearchEngineCacheEntry
    → SearchEngineCacheEntry × Engines
keep_first output_dir entry engines (some existing_entry) = (existing_entry, engines)
keep_first output_dir entry engines none = (entry, insert output_dir entry engines)

-- The second: the new entry is inserted, unless another task was faster.
unfoldable pub insert_new : String → ℕ → ℕ → Engines → SearchEngineCacheEntry × Engines
unfolding keep_first
insert_new output_dir engine now engines =
    let entry : SearchEngineCacheEntry = record {
      engine = engine;
      last_accessed = instant_to_nanos now;
    } in
    keep_first output_dir entry engines (lookup output_dir engines)

unfoldable pub invalidate : String → Engines → Engines
invalidate output_dir engines = remove output_dir engines

unfoldable pub clear : Engines → Engines
clear engines = []

unfoldable pub shutdown : Engines → Engines
shutdown engines = []

unfoldable pub cache_size : Engines → ℕ
cache_size engines = length engines

-- Step 1 of the cleanup: `retain` those accessed less than the timeout ago.
unfoldable pub retain_fresh : ℕ → Engines → Engines
unfolding nanos_to_instant
retain_fresh now [] = []
retain_fresh now ((path, entry) ∷ engines) =
    let age = now - nanos_to_instant entry.last_accessed in
    let rest = retain_fresh now engines in
    if ltb age engine_idle_timeout then (path, entry) ∷ rest else rest

-- Step 2: evict while there are too many. An eviction that finds no key ends the loop.
unfoldable pub evict_loop : ℕ → ℕ → Engines → Engines
unfolding oldest_loop evict_key
evict_loop zero now engines = engines
evict_loop (suc fuel) now engines =
    let rest = evict_loop fuel now (evict_key engines (oldest_loop engines none now)) in
    if ltb max_engines (length engines) then rest else engines

unfoldable pub cleanup_idle_engines : ℕ → Engines → Engines
unfolding retain_fresh evict_loop
cleanup_idle_engines now engines =
    let fresh = retain_fresh now engines in evict_loop (length fresh) now fresh
