-- ===== src/CrawlEngine/Failure/Laws.antt =====
-- Which failures are retried, and after what delay (crawl_types.rs, orchestrator.rs).
use kodegen_tools_citescrape.Base.{
  ℕ, zero, suc, ◌*◌, ◌/◌, ◌^◌, min, ◌≤◌, ◌≡◌, ◌↔◌, true, false, List, arith, contains_any, ltb,
  if◌then◌else◌, inl, inr, Bool-cases,
}
use kodegen_tools_citescrape.CrawlEngine.Failure.{
  FailureKind, network, browser, content_extraction, rate_limited, unknown, ℤ, pos, negsuc, neg,
  unit, jitter_percent, one_plus, rate_limit_patterns, network_patterns, browser_patterns,
  content_patterns, classify, is_retryable, delay_multiplier, calculate_retry_backoff,
}

-- A failure is given up at once exactly where its message names the content and none of the
-- patterns of rate limits, of the network and of the browser.
pub classify_permanent :
    (msg : List ℕ)
    → (is_retryable (classify msg) ≡ false) ↔ (
        (contains_any msg rate_limit_patterns ≡ false)
        × (contains_any msg network_patterns ≡ false)
        × (contains_any msg browser_patterns ≡ false)
        × (contains_any msg content_patterns ≡ true))
unfolding classify is_retryable
classify_permanent msg = (ground arith, ground arith)

-- The order of the integers.
infix 50 ◌≤ℤ◌
abbrev pub ◌≤ℤ◌ : ℤ → ℤ → Type 0
pos a ≤ℤ pos b = a ≤ b
pos a ≤ℤ negsuc b = ⊥
negsuc a ≤ℤ pos b = Unit
negsuc a ≤ℤ negsuc b = b ≤ a

-- A generator that keeps to the range that it is asked for.
abbrev pub InRange : (ℤ → ℤ → ℤ) → Type 0
InRange random_range =
    (low high : ℤ) → low ≤ℤ high → (low ≤ℤ random_range low high) × (random_range low high ≤ℤ high)

abbrev pub first_delay : FailureKind → ℕ
first_delay network = 1000
first_delay browser = 1500
first_delay content_extraction = 1000
first_delay rate_limited = 3000
first_delay unknown = 1000

-- The delay without jitter and cap: it doubles with each of the first five retries.
abbrev pub nominal : ℕ → FailureKind → ℕ
nominal zero kind = first_delay kind
nominal (suc n) kind = if ltb n 5 then 2 * nominal n kind else nominal n kind

doubled : (n : ℕ) (kind : FailureKind) → nominal n kind ≡ 2 ^ min n 5 * first_delay kind
doubled zero kind = omega arith
doubled (suc n) kind = elim (Bool-cases (ltb n 5)) [
  | inl small ↦
      let below : min n 5 ≡ n = ground arith in
      let next : min (suc n) 5 ≡ suc n = ground arith in
      let half : nominal n kind ≡ 2 ^ n * first_delay kind = rw below at (doubled n kind) in
      rw (small, next) (grind (arith, half))
  | inr large ↦
      let top : min n 5 ≡ 5 = ground arith in
      let next : min (suc n) 5 ≡ 5 = ground arith in rw (large, next) (rw top at (doubled n kind))
]

adjusted :
    (n : ℕ) (kind : FailureKind) → 1000 * 2 ^ min n 5 * delay_multiplier kind / 10 ≡ nominal n kind
unfolding delay_multiplier
adjusted n kind = rw (doubled n kind) (tenths kind (2 ^ min n 5))
  where
    tenths : (k : FailureKind) (p : ℕ) → 1000 * p * delay_multiplier k / 10 ≡ p * first_delay k
    tenths network p = omega arith
    tenths browser p = omega arith
    tenths content_extraction p = omega arith
    tenths rate_limited p = omega arith
    tenths unknown p = omega arith

-- A factor within the jitter around one.
abbrev Near : ℕ → Type 0
Near f = (8 * unit ≤ 10 * f) × (10 * f ≤ 12 * unit)

one_plus-Near : (j : ℤ) → neg jitter_percent ≤ℤ j → j ≤ℤ pos jitter_percent → Near (one_plus j)
unfolding one_plus
one_plus-Near (pos n) l h = omega arith
one_plus-Near (negsuc n) l h = omega arith

scaled : (m f : ℕ) → Near f → (m * 4 / 5 ≤ m * f / unit) × (m * f / unit ≤ m * 6 / 5)
scaled m f h =
    let above : m * (10 * f) ≤ m * (12 * unit) = scale_up m (10 * f) (12 * unit) h.1 in
    let below : m * (8 * unit) ≤ m * (10 * f) = scale_up m (8 * unit) (10 * f) h.0 in
    let tenfold : m * (10 * f) ≡ 10 * (m * f) = grind arith in omega (arith, above, below, tenfold)
  where
    scale_up : (n a b : ℕ) → a ≤ b → n * a ≤ n * b
    scale_up n a b l = grind arith

-- For a generator that keeps to the range it is asked for, the delay before a retry is the nominal
-- delay within the jitter of 20 % each way, and at most 30 seconds: it lies from 4/5 to 6/5 of the
-- nominal delay, both cut at 30 seconds, and is exactly these bounds where the generator gives the
-- lowest and the highest value. The nominal delay is 1 s (1.5 s for browser failures, 3 s for rate
-- limits), doubled with each of the first five retries.
pub backoff_bounds :
    (random_range : ℤ → ℤ → ℤ) (retry_count : ℕ) (kind : FailureKind)
    → InRange random_range
    → let delay = calculate_retry_backoff random_range retry_count kind in
      let low = min (nominal retry_count kind * 4 / 5) 30000 in
      let high = min (nominal retry_count kind * 6 / 5) 30000 in
      (low ≤ delay)
      × (delay ≤ high)
      × (calculate_retry_backoff (λ a b. a) retry_count kind ≡ low)
      × (calculate_retry_backoff (λ a b. b) retry_count kind ≡ high)
unfolding calculate_retry_backoff one_plus
backoff_bounds random_range retry_count kind r =
    let j = random_range (neg jitter_percent) (pos jitter_percent) in
    let asked = r (neg jitter_percent) (pos jitter_percent) tt in
    let near = scaled (nominal retry_count kind) (one_plus j) (one_plus-Near j asked.0 asked.1) in
    rw (adjusted retry_count kind)
      (ground (arith, near.0), ground (arith, near.1), omega arith, omega arith)
