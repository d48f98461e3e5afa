-- ===== src/CrawlEngine/Failure/Tests.antt =====
-- Delays before a retry (orchestrator.rs) with a generator that gives the highest value.
use kodegen_tools_citescrape.Base.{◌*◌, ◌/◌, min, ◌≤◌, ◌≡◌, refl, arith}
use kodegen_tools_citescrape.CrawlEngine.Failure.{
  ℤ, pos, negsuc, one_plus, browser, rate_limited, delay_multiplier, calculate_retry_backoff,
}
use kodegen_tools_citescrape.CrawlEngine.Failure.Laws.{◌≤ℤ◌, InRange, nominal, backoff_bounds}

abbrev highest : ℤ → ℤ → ℤ
highest low high = high

≤ℤ-refl : (a : ℤ) → a ≤ℤ a
≤ℤ-refl (pos n) = omega arith
≤ℤ-refl (negsuc n) = omega arith

highest-InRange : InRange highest
highest-InRange low high h = (h, ≤ℤ-refl high)

-- The first retry after a browser failure, 3 s nominally: a random value of -0.1 makes it 2.7 s.
sooner : calculate_retry_backoff (λ a b. negsuc 99999999999999999) 1 browser ≡ 2700
unfolding calculate_retry_backoff one_plus delay_multiplier
sooner = refl

backoff_bounds_example :
    let delay = calculate_retry_backoff highest 1 rate_limited in
    let low = min (nominal 1 rate_limited * 4 / 5) 30000 in
    let high = min (nominal 1 rate_limited * 6 / 5) 30000 in
    (low ≤ delay)
    × (delay ≤ high)
    × (calculate_retry_backoff (λ a b. a) 1 rate_limited ≡ low)
    × (calculate_retry_backoff (λ a b. b) 1 rate_limited ≡ high)
backoff_bounds_example = backoff_bounds highest 1 rate_limited highest-InRange
