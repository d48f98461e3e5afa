-- ===== src/BrowserPool/Idle.antt =====
-- The removal of idle browsers and the size that the scaler aims at (src/browser_pool/mod.rs).
use kodegen_tools_citescrape.Base.{
  ℕ, ◌+◌, ◌-◌, ◌≤◌, ◌<◌, ◌≡◌, refl, ap, ◌⊎◌, inl, inr, List, [], ◌∷◌, ◌++◌, All, arith, length, max,
  min, ltb, Bool-cases,
}
use kodegen_tools_citescrape.BrowserPool.{BrowserPoolConfig, PooledBrowser}
use kodegen_tools_citescrape.BrowserPool.Background.{
  remove_idle, base_target, target_pool_size_with_hysteresis, to_launch,
}

abbrev pub IsIdle : BrowserPoolConfig → ℕ → PooledBrowser → Type 0
IsIdle config now b = config.idle_timeout < now - b.last_used

-- The loop ends at the minimum, or at a browser that is not idle.
abbrev pub Ends : BrowserPoolConfig → ℕ → List PooledBrowser → Type 0
Ends config now [] = Unit {0}
Ends config now (b ∷ bs) =
    (length (b ∷ bs) ≤ config.min_pool_size) ⊎ (now - b.last_used ≤ config.idle_timeout)

-- The browsers that are removed are the oldest, all of them idle; at least the minimum stays, where
-- there are as many; and the removal ends only at the minimum or at a browser that is not idle.
pub remove_idle_lem :
    (config : BrowserPoolConfig) (now : ℕ) (bs : List PooledBrowser)
    → let kept = remove_idle config now bs in
      (removed : List PooledBrowser) × (bs ≡ removed ++ kept)
      × All (IsIdle config now) removed
      × (min config.min_pool_size (length bs) ≤ length kept)
      × Ends config now kept
unfolding remove_idle
remove_idle_lem config now [] = ([], refl, tt, omega arith, tt)
remove_idle_lem config now (b ∷ bs) =
    let (removed, split, idle, enough, ends) = remove_idle_lem config now bs in
    elim (Bool-cases (ltb config.min_pool_size (length (b ∷ bs)))) [
      | inl many ↦ elim (Bool-cases (ltb config.idle_timeout (now - b.last_used))) [
        | inl old ↦
            rw (many, old)
              (b ∷ removed, ap (b ∷◌) split, (ground arith, idle), ground (arith, enough), ends)
        | inr young ↦ rw (many, young) ([], refl, tt, omega arith, inr (ground arith))
      ]
      | inr few ↦ rw few ([], refl, tt, omega arith, inl (ground arith))
    ]

-- Whether the pool is within two browsers of the size that it aims at.
abbrev pub InBand : BrowserPoolConfig → ℕ → ℕ → Type 0
InBand config in_use current =
    (base_target config in_use ≤ in_use + current + 1)
    × (in_use + current ≤ base_target config in_use + 2)

-- Within the band, where the size is to be kept, the scaler launches as many browsers as are in
-- use, as far as the limit allows: the target counts all browsers, and it is compared with those
-- that are available.
pub launches-InBand :
    (config : BrowserPoolConfig) (in_use current : ℕ)
    → InBand config in_use current
    → to_launch config in_use current ≡ min in_use (config.max_pool_size - current)
unfolding to_launch target_pool_size_with_hysteresis
launches-InBand config in_use current h = ground arith

-- Whatever is available and in use, the browsers that are available after a scaling are no more
-- than the limit, or than they were.
pub to_launch-le :
    (config : BrowserPoolConfig) (in_use current : ℕ)
    → current + to_launch config in_use current ≤ max current config.max_pool_size
unfolding to_launch target_pool_size_with_hysteresis
to_launch-le config in_use current = ground arith
