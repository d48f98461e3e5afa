-- ===== src/CrawlEngine/CircuitBreaker.antt =====
-- src/crawl_engine/circuit_breaker.rs: the circuit breaker that tracks the health of domains.
-- `Instant` and `Duration` are nanoseconds; `Instant::now` is an argument of each call, and
-- `opened.elapsed()` is the saturating difference of two instants, which `-` on ℕ is. The u32
-- counters wrap, as they do in a release build. Log output is left out.
pub mod Health
pub mod Domains
pub mod Timing
mod Tests
use kodegen_tools_citescrape.Base.{
  ℕ, suc, ◌+◌, ◌-◌, ◌%◌, String, ◌≡◌, Bool, true, false, not, ◌&&◌, Option, none, some, List, [],
  ◌∷◌, ltb, leb, if◌then◌else◌, Map, lookup, insert,
}

pub data CircuitState : Type 0 where
  closed half_open open_state : CircuitState

pub record DomainHealth : Type 0 where
  pub consecutive_failures : ℕ  -- u32
  pub total_attempts : ℕ  -- u32
  pub total_successes : ℕ  -- u32
  pub last_success : Option ℕ
  pub last_opened : Option ℕ
  pub consecutive_successes_in_halfopen : ℕ  -- u32
  pub state : CircuitState

pub record CircuitBreaker : Type 0 where
  pub domains : Map DomainHealth
  pub failure_threshold : ℕ  -- u32
  pub success_threshold : ℕ  -- u32
  pub half_open_timeout : ℕ

-- `x += 1` on a u32.
abbrev pub inc_u32 : ℕ → ℕ
inc_u32 n = (n + 1) % 4294967296

unfoldable pub new_health : DomainHealth
new_health = record {
  consecutive_failures = 0;
  total_attempts = 0;
  total_successes = 0;
  last_success = none;
  last_opened = none;
  consecutive_successes_in_halfopen = 0;
  state = closed;
}

unfoldable pub new : ℕ → ℕ → ℕ → CircuitBreaker
new failure_threshold success_threshold half_open_timeout = record {
  domains = [];
  failure_threshold = failure_threshold;
  success_threshold = success_threshold;
  half_open_timeout = half_open_timeout;
}

-- `entry(domain).or_insert_with(DomainHealth::new)`.
unfoldable pub entry : CircuitBreaker → String → DomainHealth
unfolding new_health
entry cb domain = elim (lookup domain cb.domains) [ none ↦ new_health | some h ↦ h ]

abbrev write : CircuitBreaker → String → DomainHealth → CircuitBreaker
write cb domain h = record cb { domains = insert domain h cb.domains }

-- The branch for `Open`: the timeout counts from `last_opened`.
unfoldable pub attempt_open : ℕ → ℕ → DomainHealth → Option ℕ → DomainHealth × Bool
attempt_open timeout now h none = (h, false)
attempt_open timeout now h (some opened) =
    if leb timeout (now - opened)
    then (record h { state = half_open; consecutive_successes_in_halfopen = 0 }, true)
    else (h, false)

attempt_in : CircuitState → ℕ → ℕ → DomainHealth → DomainHealth × Bool
unfolding attempt_open
attempt_in closed timeout now h = (h, true)
attempt_in open_state timeout now h = attempt_open timeout now h h.last_opened
attempt_in half_open timeout now h = (h, true)

unfoldable pub attempt : ℕ → ℕ → DomainHealth → DomainHealth × Bool
unfolding attempt_in
attempt timeout now h = attempt_in h.state timeout now h

unfoldable pub should_attempt : CircuitBreaker → String → ℕ → CircuitBreaker × Bool
should_attempt cb domain now =
    let (h, allowed) = attempt cb.half_open_timeout now (entry cb domain) in
    (write cb domain h, allowed)

abbrev pub is_half_open : CircuitState → Bool
is_half_open half_open = true
is_half_open _ = false

abbrev pub is_open : CircuitState → Bool
is_open open_state = true
is_open _ = false

unfoldable pub succeed : ℕ → ℕ → DomainHealth → DomainHealth
succeed success_threshold now h =
    let counted = record h {
      consecutive_failures = 0;
      total_successes = inc_u32 h.total_successes;
      total_attempts = inc_u32 h.total_attempts;
      last_success = some now;
    } in
    let n : ℕ = inc_u32 h.consecutive_successes_in_halfopen in
    if is_half_open h.state
    then (if leb success_threshold n
        then record counted { consecutive_successes_in_halfopen = n; state = closed }
        else record counted { consecutive_successes_in_halfopen = n })
    else counted

-- A domain that was never seen is left unseen.
unfoldable pub record_success : CircuitBreaker → String → ℕ → CircuitBreaker
unfolding succeed
record_success cb domain now = elim (lookup domain cb.domains) [
  | none ↦ cb
  | some h ↦ write cb domain (succeed cb.success_threshold now h)
]

unfoldable pub fail : ℕ → ℕ → DomainHealth → DomainHealth
fail failure_threshold now h =
    let n : ℕ = inc_u32 h.consecutive_failures in
    let counted = record h {
      consecutive_failures = n;
      total_attempts = inc_u32 h.total_attempts;
    } in
    if leb failure_threshold n && not (is_open h.state)
    then record counted {
      state = open_state;
      last_opened = some now;
      consecutive_successes_in_halfopen = 0;
    }
    else counted

unfoldable pub record_failure : CircuitBreaker → String → ℕ → CircuitBreaker
record_failure cb domain now = write cb domain (fail cb.failure_threshold now (entry cb domain))

unfoldable pub get_health : CircuitBreaker → String → Option DomainHealth
get_health cb domain = lookup domain cb.domains

-- `get_open_domains`: the keys whose state is `Open`, in the map's order.
open_keys : Map DomainHealth → List String
open_keys [] = []
open_keys ((k, h) ∷ m) = if is_open h.state then k ∷ open_keys m else open_keys m

unfoldable pub get_open_domains : CircuitBreaker → List String
unfolding open_keys
get_open_domains cb = open_keys cb.domains

tally : CircuitState → ℕ × ℕ × ℕ → ℕ × ℕ × ℕ
tally closed (c, h, o) = (c + 1, h, o)
tally half_open (c, h, o) = (c, h + 1, o)
tally open_state (c, h, o) = (c, h, o + 1)

-- The loop of `state_counts`, on (closed, half_open, open).
count_states : ℕ × ℕ × ℕ → Map DomainHealth → ℕ × ℕ × ℕ
unfolding tally
count_states acc [] = acc
count_states acc ((k, h) ∷ m) = count_states (tally h.state acc) m

unfoldable pub state_counts : CircuitBreaker → ℕ × ℕ × ℕ
unfolding count_states
state_counts cb = count_states (0, 0, 0) cb.domains
