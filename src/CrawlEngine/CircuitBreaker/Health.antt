-- ===== src/CrawlEngine/CircuitBreaker/Health.antt =====
-- The health of one domain (circuit_breaker.rs): the state machine, its invariant, and when an
-- open circuit lets a request through.
use kodegen_tools_citescrape.Base.{
  ℕ, ◌-◌, ◌<◌, ◌≤◌, ◌≡◌, refl, ◌≢◌, Option, none, some, List, [], ◌∷◌, arith,
}
use kodegen_tools_citescrape.CrawlEngine.CircuitBreaker.{
  CircuitState, closed, half_open, open_state, DomainHealth, new_health, attempt_open, attempt_in,
  attempt, succeed, fail,
}

-- What a caller does with one domain, each call at an instant.
pub data HealthCall : Type 0 where
  attempts succeeds fails : ℕ → HealthCall

-- The domain's health after a call, under the breaker's two thresholds and its timeout.
unfoldable pub step_health : ℕ → ℕ → ℕ → DomainHealth → HealthCall → DomainHealth
step_health ft st timeout h (attempts now) = (attempt timeout now h).0
step_health ft st timeout h (succeeds now) = succeed st now h
step_health ft st timeout h (fails now) = fail ft now h

unfoldable pub run_health : ℕ → ℕ → ℕ → DomainHealth → List HealthCall → DomainHealth
run_health ft st timeout h [] = h
run_health ft st timeout h (c ∷ cs) = run_health ft st timeout (step_health ft st timeout h c) cs

-- The invariant: a closed circuit is below the failure threshold, an open one has its time stamp,
-- and a half-open one is below the success threshold.
pub record IsHealthy (ft st : ℕ) (h : DomainHealth) : Type 0 where
  pub below_failures : h.state ≡ closed → h.consecutive_failures < ft
  pub stamped : h.state ≡ open_state → h.last_opened ≢ none
  pub below_successes : h.state ≡ half_open → h.consecutive_successes_in_halfopen < st

pub new_health-IsHealthy : (ft st : ℕ) → 0 < ft → IsHealthy ft st new_health
unfolding new_health
new_health-IsHealthy ft st h = record {
  below_failures = λ _. h;
  stamped = λ e. cc;
  below_successes = λ e. cc;
}

module _ (ft st timeout : ℕ) (some_failures : 0 < ft) (some_successes : 0 < st) where
  attempt-IsHealthy :
      (now : ℕ) (h : DomainHealth) → IsHealthy ft st h → IsHealthy ft st (attempt timeout now h).0
  unfolding attempt
  attempt-IsHealthy now h v = record {
    below_failures = ground (arith, v.below_failures);
    stamped = ground (arith, v.stamped);
    below_successes = ground (arith, v.below_successes);
  }

  succeed-IsHealthy :
      (now : ℕ) (h : DomainHealth) → IsHealthy ft st h → IsHealthy ft st (succeed st now h)
  unfolding succeed
  succeed-IsHealthy now h v = record {
    below_failures = ground (arith, v.below_failures);
    stamped = ground (arith, v.stamped);
    below_successes = ground (arith, v.below_successes);
  }

  fail-IsHealthy :
      (now : ℕ) (h : DomainHealth) → IsHealthy ft st h → IsHealthy ft st (fail ft now h)
  unfolding fail
  fail-IsHealthy now h v = record {
    below_failures = ground (arith, v.below_failures);
    stamped = ground (arith, v.stamped);
    below_successes = ground (arith, v.below_successes);
  }

  pub step_health-IsHealthy :
      (h : DomainHealth) (c : HealthCall)
      → IsHealthy ft st h
      → IsHealthy ft st (step_health ft st timeout h c)
  unfolding step_health
  step_health-IsHealthy h (attempts now) v = attempt-IsHealthy now h v
  step_health-IsHealthy h (succeeds now) v = succeed-IsHealthy now h v
  step_health-IsHealthy h (fails now) v = fail-IsHealthy now h v

-- What one call may do to the state: the three transitions of the breaker and their guards.
pub data Transition (ft st timeout : ℕ) (h : DomainHealth)
    : HealthCall → DomainHealth → Type 0 where
  stay : (c : HealthCall) (h' : DomainHealth) → h'.state ≡ h.state → Transition ft st timeout h c h'
  trip :
      (now : ℕ) (h' : DomainHealth)
      → h.state ≢ open_state
      → h'.state ≡ open_state
      → ft ≤ h'.consecutive_failures
      → h'.last_opened ≡ some now
      → Transition ft st timeout h (fails now) h'
  probe :
      (now opened : ℕ) (h' : DomainHealth)
      → h.state ≡ open_state
      → h.last_opened ≡ some opened
      → timeout ≤ now - opened
      → h'.state ≡ half_open
      → h'.consecutive_successes_in_halfopen ≡ 0
      → Transition ft st timeout h (attempts now) h'
  recover :
      (now : ℕ) (h' : DomainHealth)
      → h.state ≡ half_open
      → h'.state ≡ closed
      → st ≤ h'.consecutive_successes_in_halfopen
      → h'.consecutive_failures ≡ 0
      → Transition ft st timeout h (succeeds now) h'

module _ (ft st timeout : ℕ) where
  attempt_open-Transition :
      (now : ℕ) (h : DomainHealth) (lo : Option ℕ)
      → h.state ≡ open_state
      → h.last_opened ≡ lo
      → Transition ft st timeout h (attempts now) (attempt_open timeout now h lo).0
  unfolding attempt_open
  attempt_open-Transition now h none o e = stay _ _ refl
  attempt_open-Transition now h (some t) o e = grind (arith, stay, probe now t)

  attempt_in-Transition :
      (now : ℕ) (h : DomainHealth) (s : CircuitState)
      → h.state ≡ s
      → Transition ft st timeout h (attempts now) (attempt_in s timeout now h).0
  unfolding attempt_in
  attempt_in-Transition now h closed e = stay _ _ refl
  attempt_in-Transition now h half_open e = stay _ _ refl
  attempt_in-Transition now h open_state e = attempt_open-Transition now h h.last_opened e refl

  succeed-Transition :
      (now : ℕ) (h : DomainHealth) → Transition ft st timeout h (succeeds now) (succeed st now h)
  unfolding succeed
  succeed-Transition now h = grind (arith, stay, recover)

  fail-Transition :
      (now : ℕ) (h : DomainHealth) → Transition ft st timeout h (fails now) (fail ft now h)
  unfolding fail
  fail-Transition now h = grind (arith, stay, trip)

  -- Every call on a domain, in every state, leaves the state as it is or takes one of the three
  -- transitions trip, probe, recover, under that transition's guard: only a failure opens the
  -- circuit, only an attempt after the timeout half-opens it, and only a success closes it.
  pub step_health-Transition :
      (h : DomainHealth) (c : HealthCall)
      → Transition ft st timeout h c (step_health ft st timeout h c)
  unfolding step_health attempt
  step_health-Transition h (attempts now) = attempt_in-Transition now h h.state refl
  step_health-Transition h (succeeds now) = succeed-Transition now h
  step_health-Transition h (fails now) = fail-Transition now h
