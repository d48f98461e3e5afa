-- ===== src/CrawlEngine/CircuitBreaker/Tests.antt =====
-- The circuit breaker (circuit_breaker.rs) on concrete calls.
use kodegen_tools_citescrape.Base.{
  String, ◌≡◌, refl, arith, true, false, none, some, List, [], ◌∷◌, lookup, insert,
}
use kodegen_tools_citescrape.CrawlEngine.CircuitBreaker.{
  open_state, DomainHealth, CircuitBreaker, new_health, new, attempt, attempt_in, attempt_open,
  fail, entry, should_attempt, record_failure, get_open_domains,
}
use kodegen_tools_citescrape.CrawlEngine.CircuitBreaker.Health.{
  HealthCall, attempts, succeeds, fails, step_health, run_health, Transition,
  step_health-Transition,
}
use kodegen_tools_citescrape.CrawlEngine.CircuitBreaker.Timing.{open_blocks}
use kodegen_tools_citescrape.CrawlEngine.CircuitBreaker.Domains.{
  step, run, AllHealthy, run-new-AllHealthy,
}

-- Open since the instant 10.
abbrev open_health : DomainHealth
open_health = record {
  consecutive_failures = 2;
  total_attempts = 2;
  total_successes = 0;
  last_success = none;
  last_opened = some 10;
  consecutive_successes_in_halfopen = 0;
  state = open_state;
}

abbrev some_calls : List (String × HealthCall)
some_calls = ("a", attempts 1) ∷ ("a", fails 2) ∷ ("b", attempts 3) ∷ ("a", fails 4) ∷ []

abbrev after_calls : CircuitBreaker
after_calls = run (new 2 1 5) some_calls

two_failures_open : get_open_domains after_calls ≡ "a" ∷ []
unfolding run step should_attempt record_failure get_open_domains new entry new_health insert lookup
    attempt attempt_in attempt_open fail
two_failures_open = refl

blocked_then_probed : ((attempt 5 14 open_health).1 ≡ false) × ((attempt 5 15 open_health).1 ≡ true)
unfolding attempt
blocked_then_probed = (refl, refl)

open_blocks_example :
    (attempt 5 14 (run_health 2 1 5 open_health (succeeds 11 ∷ attempts 12 ∷ fails 13 ∷ []))).1
    ≡ false
open_blocks_example =
    open_blocks 2 1 5 10 (omega arith) open_health (succeeds 11 ∷ attempts 12 ∷ fails 13 ∷ []) 14
      (record { is_open = refl; since = refl }) (tt, (omega arith, (tt, tt))) (omega arith)

step_health-Transition_example :
    Transition 2 1 5 open_health (attempts 15) (step_health 2 1 5 open_health (attempts 15))
step_health-Transition_example = step_health-Transition 2 1 5 open_health (attempts 15)

run-new-AllHealthy_example : AllHealthy (run (new 2 1 5) some_calls)
run-new-AllHealthy_example = run-new-AllHealthy 2 1 5 some_calls (omega arith) (omega arith)
