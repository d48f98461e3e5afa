-- ===== src/CrawlEngine/CircuitBreaker/Timing.antt =====
-- Runs of calls on one domain (circuit_breaker.rs): how the circuit opens, how long it blocks,
-- and how it closes again.
use kodegen_tools_citescrape.Base.{
  ℕ, zero, suc, ◌+◌, ◌<◌, ◌≡◌, refl, false, some, List, [], ◌∷◌, arith, All, replicate,
}
use kodegen_tools_citescrape.CrawlEngine.CircuitBreaker.{
  closed, open_state, DomainHealth, attempt, succeed, fail,
}
use kodegen_tools_citescrape.CrawlEngine.CircuitBreaker.Health.{
  HealthCall, attempts, succeeds, fails, step_health, run_health, IsHealthy, step_health-IsHealthy,
}

-- The call is no attempt, or an attempt before the instant `t`.
abbrev pub AttemptBefore : ℕ → HealthCall → Type 0
AttemptBefore t (attempts now) = now < t
AttemptBefore t (succeeds now) = Unit
AttemptBefore t (fails now) = Unit

-- The circuit has been open since `opened`.
pub record IsOpenSince (opened : ℕ) (h : DomainHealth) : Type 0 where
  pub is_open : h.state ≡ open_state
  pub since : h.last_opened ≡ some opened

module _ (ft st timeout : ℕ) (some_failures : 0 < ft) (some_successes : 0 < st) where
  pub run_health-IsHealthy :
      (h : DomainHealth) (cs : List HealthCall)
      → IsHealthy ft st h
      → IsHealthy ft st (run_health ft st timeout h cs)
  unfolding run_health
  run_health-IsHealthy h [] v = v
  run_health-IsHealthy h (c ∷ cs) v =
      run_health-IsHealthy (step_health ft st timeout h c) cs
        (step_health-IsHealthy ft st timeout some_failures some_successes h c v)

module _ (ft st timeout opened : ℕ) (waits : 0 < timeout) where
  attempt-IsOpenSince :
      (h : DomainHealth) (now : ℕ)
      → now < opened + timeout
      → IsOpenSince opened h
      → (IsOpenSince opened (attempt timeout now h).0) × ((attempt timeout now h).1 ≡ false)
  unfolding attempt
  attempt-IsOpenSince h now before v = ground arith

  step_health-IsOpenSince :
      (h : DomainHealth) (c : HealthCall)
      → AttemptBefore (opened + timeout) c
      → IsOpenSince opened h
      → IsOpenSince opened (step_health ft st timeout h c)
  unfolding step_health succeed fail
  step_health-IsOpenSince h (attempts now) before v = (attempt-IsOpenSince h now before v).0
  step_health-IsOpenSince h (succeeds now) before v = ground arith
  step_health-IsOpenSince h (fails now) before v = ground arith

  run_health-IsOpenSince :
      (h : DomainHealth) (cs : List HealthCall)
      → All (AttemptBefore (opened + timeout)) cs
      → IsOpenSince opened h
      → IsOpenSince opened (run_health ft st timeout h cs)
  unfolding run_health
  run_health-IsOpenSince h [] before v = v
  run_health-IsOpenSince h (c ∷ cs) before v =
      run_health-IsOpenSince (step_health ft st timeout h c) cs before.1
        (step_health-IsOpenSince h c before.0 v)

  -- While a circuit is open since `opened`, no calls at all, successes, failures and attempts before
  -- `opened + half_open_timeout` in any order and number, make it let an attempt through before
  -- that instant, if the timeout is positive.
  pub open_blocks :
      (h : DomainHealth) (cs : List HealthCall) (now : ℕ)
      → IsOpenSince opened h
      → All (AttemptBefore (opened + timeout)) cs
      → now < opened + timeout
      → (attempt timeout now (run_health ft st timeout h cs)).1 ≡ false
  open_blocks h cs now v before early =
      (attempt-IsOpenSince (run_health ft st timeout h cs) now early
        (run_health-IsOpenSince h cs before v)).1

module _ (ft st timeout : ℕ) (now : ℕ) where
  fail_last :
      (h : DomainHealth)
      → h.state ≡ closed
      → ft < 4294967296
      → h.consecutive_failures + 1 ≡ ft
      → IsOpenSince now (fail ft now h)
  unfolding fail
  fail_last h s small n = ground arith

  fail_more :
      (h : DomainHealth) (k : ℕ)
      → h.state ≡ closed
      → ft < 4294967296
      → h.consecutive_failures + suc (suc k) ≡ ft
      → ((fail ft now h).state ≡ closed) × ((fail ft now h).consecutive_failures + suc k ≡ ft)
  unfolding fail
  fail_more h k s small n = ground arith

  opens_after :
      (k : ℕ) (h : DomainHealth)
      → h.state ≡ closed
      → ft < 4294967296
      → h.consecutive_failures + suc k ≡ ft
      → IsOpenSince now (run_health ft st timeout h (replicate (suc k) (fails now)))
  unfolding run_health step_health
  opens_after zero h s small n = fail_last h s small (omega arith)
  opens_after (suc k) h s small n =
      let (s', n') = fail_more h k s small n in opens_after k (fail ft now h) s' small n'

  -- A closed domain with no failure on record opens on `failure_threshold` failures in a row and
  -- bears the instant of the last one, if the threshold is positive and fits u32.
  pub failures_open :
      (h : DomainHealth)
      → h.state ≡ closed
      → h.consecutive_failures ≡ 0
      → 0 < ft
      → ft < 4294967296
      → IsOpenSince now (run_health ft st timeout h (replicate ft (fails now)))
  failures_open h s none_yet positive small = opens ft positive refl
    where
      opens :
          (n : ℕ)
          → 0 < n
          → n ≡ ft
          → IsOpenSince now (run_health ft st timeout h (replicate n (fails now)))
      opens zero p e = elim p [ ]
      opens (suc k) p e = opens_after k h s small (omega arith)
