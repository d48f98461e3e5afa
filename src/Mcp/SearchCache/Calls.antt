-- ===== src/Mcp/SearchCache/Calls.antt =====
-- What the two locked sections of get_or_init (search_cache.rs) find and what they return.
use kodegen_tools_citescrape.Base.{
  ℕ, ◌+◌, ◌≤◌, String, ◌≡◌, ◌≢◌, refl, sym, ap, ◌∙◌, subst, ◌⊎◌, inl, inr, Option, none, some,
  arith, lookup, insert, remove, UniqueKeys, remove-UniqueKeys, lookup-insert_self,
  lookup-insert_ne, length, leb, leb→le, Bool-cases, Option-cases,
}
use kodegen_tools_citescrape.Mcp.SearchCache.{
  SearchEngineCacheEntry, Engines, instant_to_nanos, max_engines, look, hit, missed, get_or_evict,
  keep_first, insert_new,
}
use kodegen_tools_citescrape.Mcp.SearchCache.Lru.{get_or_evict_full}

-- What a hit finds and leaves.
pub record Hit (d : String) (m : Engines) (e : SearchEngineCacheEntry) (m' : Engines) : Type 0 where
  pub old : SearchEngineCacheEntry
  pub held : lookup d m ≡ some old
  pub same_engine : e.engine ≡ old.engine
  pub touched : m' ≡ insert d e m

look-Hit :
    (d : String) (now : ℕ) (m : Engines) (o : Option SearchEngineCacheEntry)
    (e : SearchEngineCacheEntry) (m' : Engines)
    → lookup d m ≡ o
    → look d now m o ≡ hit e m'
    → Hit d m e m'
unfolding look
look-Hit d now m none e m' l h = elim (Bool-cases (leb max_engines (length m))) [
  | inl full ↦ ground arith
  | inr room ↦ ground arith
]
look-Hit d now m (some old) e m' l h =
    let touched = record old { last_accessed = instant_to_nanos now } in
    let same : touched ≡ e = cc in
    record {
      old = old;
      held = l;
      same_engine = ap SearchEngineCacheEntry.engine (sym same);
      touched = cc;
    }

pub get_or_evict-Hit :
    (d : String) (now : ℕ) (m : Engines) (e : SearchEngineCacheEntry) (m' : Engines)
    → get_or_evict d now m ≡ hit e m'
    → Hit d m e m'
unfolding get_or_evict
get_or_evict-Hit d now m e m' h = look-Hit d now m (lookup d m) e m' refl h

pub record Miss (m m' : Engines) : Type 0 where
  pub unique : UniqueKeys m'
  pub room : (length m' ≤ 4) ⊎ (length m' + 1 ≡ length m)

missed_eq : (m m' : Engines) → missed m ≡ missed m' → m ≡ m'
missed_eq m m' e = cc

pub get_or_evict-Miss :
    (d : String) (now : ℕ) (m m' : Engines)
    → UniqueKeys m
    → get_or_evict d now m ≡ missed m'
    → Miss m m'
unfolding get_or_evict look
get_or_evict-Miss d now m m' u h = elim (Option-cases (lookup d m)) [
  | inl absent ↦ elim (Bool-cases (leb max_engines (length m))) [
    | inl full ↦
        let (k, least, out, less) = get_or_evict_full d now m u absent (leb→le _ _ full) in
        let same = missed_eq (remove k m) m' (sym out ∙ h) in
        subst (Miss m) same (record { unique = remove-UniqueKeys k m u; room = inr less })
    | inr free ↦
        let same = missed_eq m m' (rw (absent, free) at h) in
        subst (Miss m) same (record { unique = u; room = inl (ground arith) })
  ]
  | inr (old, held) ↦ absurd (ground (arith, rw held at h))
]

-- The entry that a creation yields, given the one that was there.
abbrev pub First : String → ℕ → ℕ → Option SearchEngineCacheEntry → SearchEngineCacheEntry → Type 0
First d engine now none e = (e.engine ≡ engine) × (e.last_accessed ≡ instant_to_nanos now)
First d engine now (some old) e = e ≡ old

-- On a hit the caller gets the entry that the cache then holds for the directory: the engine that
-- was there, with its time of access renewed; the entry of any other directory stays as it was.
pub hit_is_cached :
    (d : String) (now : ℕ) (m : Engines) (e : SearchEngineCacheEntry) (m' : Engines) (j : String)
    → get_or_evict d now m ≡ hit e m'
    → d ≢ j
    → Hit d m e m' × (lookup d m' ≡ some e) × (lookup j m' ≡ lookup j m)
hit_is_cached d now m e m' j h n =
    let f = get_or_evict-Hit d now m e m' h in
    (
      f,
      ap (lookup d) f.touched ∙ lookup-insert_self d e m,
      ap (lookup j) f.touched ∙ lookup-insert_ne d j e m n,
    )

-- After an engine was created the caller gets the entry that the cache then holds for the
-- directory, which is the first inserted; the entry of any other directory stays as it was.
pub created_is_cached :
    (d : String) (engine now : ℕ) (m : Engines) (j : String)
    → d ≢ j
    → (lookup d (insert_new d engine now m).1 ≡ some (insert_new d engine now m).0)
      × First d engine now (lookup d m) (insert_new d engine now m).0
      × (lookup j (insert_new d engine now m).1 ≡ lookup j m)
unfolding insert_new keep_first
created_is_cached d engine now m j n = by (lookup d m) refl
  where
    new : SearchEngineCacheEntry
    new = record { engine = engine; last_accessed = instant_to_nanos now }

    by :
        (o : Option SearchEngineCacheEntry)
        → lookup d m ≡ o
        → (lookup d (keep_first d new m o).1 ≡ some (keep_first d new m o).0)
          × First d engine now o (keep_first d new m o).0
          × (lookup j (keep_first d new m o).1 ≡ lookup j m)
    by (some old) l = (l, refl, refl)
    by none l = (lookup-insert_self d new m, (refl, refl), lookup-insert_ne d j new m n)
