-- ===== src/CrawlEngine/CircuitBreaker/Domains.antt =====
-- The breaker as a map of domains (circuit_breaker.rs): each domain's health is a machine of its
-- own, and the two overviews agree with the map.
use mathlib.Core.Option.{some-injective}
use kodegen_tools_citescrape.Base.{
  ℕ, ◌+◌, ◌<◌, String, ◌≡◌, refl, subst, inl, inr, Option, none, some, List, [], ◌∷◌, arith, length,
  if◌then◌else◌, str_eq, eq_iff, Bool-cases, Option-cases, Map, lookup, lookup-insert,
}
use kodegen_tools_citescrape.CrawlEngine.CircuitBreaker.{
  DomainHealth, CircuitBreaker, new_health, new, entry, should_attempt, record_success,
  record_failure, get_health, open_keys, get_open_domains, tally, count_states, state_counts,
  succeed, fail,
}
use kodegen_tools_citescrape.CrawlEngine.CircuitBreaker.Health.{
  HealthCall, attempts, succeeds, fails, step_health, IsHealthy, step_health-IsHealthy,
  new_health-IsHealthy,
}

-- A call on the breaker, for one domain.
unfoldable pub step : CircuitBreaker → String × HealthCall → CircuitBreaker
step cb (domain, attempts now) = (should_attempt cb domain now).0
step cb (domain, succeeds now) = record_success cb domain now
step cb (domain, fails now) = record_failure cb domain now

unfoldable pub run : CircuitBreaker → List (String × HealthCall) → CircuitBreaker
run cb [] = cb
run cb (c ∷ cs) = run (step cb c) cs

-- What a call makes of the health that the map holds for its domain.
abbrev pub after_call : ℕ → ℕ → ℕ → Option DomainHealth → HealthCall → Option DomainHealth
after_call ft st timeout (some h) c = some (step_health ft st timeout h c)
after_call ft st timeout none (succeeds now) = none
after_call ft st timeout none c = some (step_health ft st timeout new_health c)

abbrev health_after : CircuitBreaker → Option DomainHealth → HealthCall → Option DomainHealth
health_after cb = after_call cb.failure_threshold cb.success_threshold cb.half_open_timeout

-- The thresholds never change.
record SameConfig (a b : CircuitBreaker) : Type 0 where
  same_failures : a.failure_threshold ≡ b.failure_threshold
  same_successes : a.success_threshold ≡ b.success_threshold
  same_timeout : a.half_open_timeout ≡ b.half_open_timeout

step-SameConfig : (cb : CircuitBreaker) (c : String × HealthCall) → SameConfig (step cb c) cb
unfolding step should_attempt record_success record_failure
step-SameConfig cb (d, attempts now) = ground arith
step-SameConfig cb (d, succeeds now) = ground arith
step-SameConfig cb (d, fails now) = ground arith

-- Each domain is a machine of its own: a call changes the health of the domain that it names as
-- that machine does, a success being ignored for a domain never seen, and no other domain's.
pub get_health-step :
    (cb : CircuitBreaker) (d j : String) (c : HealthCall)
    → get_health (step cb (d, c)) j
      ≡ (if str_eq d j then health_after cb (get_health cb d) c else get_health cb j)
unfolding step should_attempt record_success record_failure get_health entry step_health
get_health-step cb d j (attempts now) = elim (Option-cases (lookup d cb.domains)) [
  | inl e ↦ rw (lookup-insert, e, entry, after_call) (ground arith)
  | inr (h, e) ↦ rw (lookup-insert, e, entry, after_call) (ground arith)
]
get_health-step cb d j (succeeds now) = elim (Option-cases (lookup d cb.domains)) [
  | inl e ↦ ground (arith, eq_iff d j)
  | inr (h, e) ↦ ground (arith, lookup-insert d j (succeed cb.success_threshold now h) cb.domains)
]
get_health-step cb d j (fails now) =
    ground (arith, lookup-insert d j (fail cb.failure_threshold now (entry cb d)) cb.domains)

-- Every domain's health satisfies the invariant.
abbrev pub AllHealthy : CircuitBreaker → Type 0
AllHealthy cb =
    (j : String) (h : DomainHealth)
    → get_health cb j ≡ some h
    → IsHealthy cb.failure_threshold cb.success_threshold h

module _ (ft st timeout : ℕ) (some_failures : 0 < ft) (some_successes : 0 < st) where
  after_call-IsHealthy :
      (o : Option DomainHealth) (c : HealthCall) (h : DomainHealth)
      → ((h' : DomainHealth) → o ≡ some h' → IsHealthy ft st h')
      → after_call ft st timeout o c ≡ some h
      → IsHealthy ft st h
  after_call-IsHealthy (some x) c h v e =
      subst (IsHealthy ft st) (some-injective _ _ e)
        (step_health-IsHealthy ft st timeout some_failures some_successes x c (v x refl))
  after_call-IsHealthy none (succeeds now) h v e = cc
  after_call-IsHealthy none (attempts now) h v e = subst (IsHealthy ft st) (some-injective _ _ e) (
      step_health-IsHealthy ft st timeout some_failures some_successes new_health (attempts now)
        (new_health-IsHealthy ft st some_failures))
  after_call-IsHealthy none (fails now) h v e = subst (IsHealthy ft st) (some-injective _ _ e) (
      step_health-IsHealthy ft st timeout some_failures some_successes new_health (fails now)
        (new_health-IsHealthy ft st some_failures))

step-AllHealthy :
    (cb : CircuitBreaker) (c : String × HealthCall)
    → 0 < cb.failure_threshold
    → 0 < cb.success_threshold
    → AllHealthy cb
    → AllHealthy (step cb c)
step-AllHealthy cb (d, c) fp sp v j h e =
    let same = step-SameConfig cb (d, c) in
    rw (same.same_failures, same.same_successes)
      (elim (Bool-cases (str_eq d j)) [
        | inl hit ↦
            after_call-IsHealthy cb.failure_threshold cb.success_threshold cb.half_open_timeout fp
              sp (get_health cb d) c h (v d) (ground (arith, get_health-step cb d j c))
        | inr miss ↦ v j h (ground (arith, get_health-step cb d j c))
      ])

run-AllHealthy :
    (cb : CircuitBreaker) (cs : List (String × HealthCall))
    → 0 < cb.failure_threshold
    → 0 < cb.success_threshold
    → AllHealthy cb
    → AllHealthy (run cb cs)
unfolding run
run-AllHealthy cb [] fp sp v = v
run-AllHealthy cb (c ∷ cs) fp sp v =
    let same = step-SameConfig cb c in
    run-AllHealthy (step cb c) cs (omega arith) (omega arith) (step-AllHealthy cb c fp sp v)

-- After any history of calls on any domains, from a new breaker with positive thresholds, a closed
-- circuit is below the failure threshold, an open one has its time stamp, and a half-open one is
-- below the success threshold.
pub run-new-AllHealthy :
    (ft st timeout : ℕ) (cs : List (String × HealthCall))
    → 0 < ft
    → 0 < st
    → AllHealthy (run (new ft st timeout) cs)
unfolding new get_health lookup
run-new-AllHealthy ft st timeout cs fp sp =
    run-AllHealthy (new ft st timeout) cs fp sp (λ j h e. cc)

sums-count :
    (acc : ℕ × ℕ × ℕ) (m : Map DomainHealth)
    → ((count_states acc m).0 + (count_states acc m).1 + (count_states acc m).2
        ≡ acc.0 + acc.1 + acc.2 + length m)
      × ((count_states acc m).2 ≡ acc.2 + length (open_keys m))
unfolding count_states open_keys
sums-count (c, h, o) [] = (omega arith, omega arith)
sums-count (c, h, o) ((k, x) ∷ m) = ground (arith, sums-count (tally x.state (c, h, o)) m)

-- The three counts of `state_counts` add up to the number of domains, and the third is the number
-- of names that `get_open_domains` returns.
pub state_counts_total :
    (cb : CircuitBreaker)
    → ((state_counts cb).0 + (state_counts cb).1 + (state_counts cb).2 ≡ length cb.domains)
      × ((state_counts cb).2 ≡ length (get_open_domains cb))
unfolding state_counts get_open_domains
state_counts_total cb = omega (arith, sums-count (0, 0, 0) cb.domains)
