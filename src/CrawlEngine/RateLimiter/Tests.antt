-- ===== src/CrawlEngine/RateLimiter/Tests.antt =====
-- The token bucket (rate_limiter.rs) on concrete requests.
use kodegen_tools_citescrape.Base.{
  ℕ, ◌+◌, ◌*◌, ◌-◌, ◌%◌, ◌≤◌, ◌≡◌, ◌≢◌, refl, arith, Bool, true, false, List, [], ◌∷◌,
}
use kodegen_tools_citescrape.CrawlEngine.RateLimiter.{
  DomainRateLimiter, allow, deny, new, pack_state, unpack_state, refill, consume, saturating_add,
  saturating_mul, try_consume_token,
}
use kodegen_tools_citescrape.CrawlEngine.RateLimiter.Retry.{IsBucket}
use kodegen_tools_citescrape.CrawlEngine.RateLimiter.SlowRate.{decisions, slow_rate_starves}
use kodegen_tools_citescrape.CrawlEngine.RateLimiter.Tasks.{
  run_tasks, allowed, arrivals, allowed_bound,
}

-- Seven requests per second, from the instant 0, after one request and one more.
abbrev bucket : DomainRateLimiter
bucket = record { state = pack_state 500 1000; rate_per_nano = 7; max_tokens = 7000 }

bucket-IsBucket : IsBucket 1000 bucket
unfolding pack_state unpack_state
bucket-IsBucket = record {
  capped = omega arith;
  one_fits = omega arith;
  max_fits = omega arith;
  not_ahead = omega arith;
  now_fits = omega arith;
}

denied : (try_consume_token bucket 1000).1 ≡ deny 71428571
unfolding try_consume_token refill consume pack_state unpack_state saturating_mul saturating_add
denied = refl

first_request : (try_consume_token (new 2000 0) 5).1 ≡ allow
unfolding try_consume_token new refill consume pack_state unpack_state saturating_mul saturating_add
first_request = refl

stamp_kept : 71429571 ≤ (refill 7 7000 1000 (unpack_state (pack_state 500 1000))).1 + 71428571
unfolding refill pack_state unpack_state saturating_mul saturating_add
stamp_kept = omega arith

ragged : (1000 - (refill 7 7000 1000 (unpack_state (pack_state 500 1000))).0) * 1000000 % 7 ≢ 0
unfolding refill pack_state unpack_state saturating_mul saturating_add
ragged = λ e. omega (arith, e)

slow_rate_starves_example :
    decisions (new 500 0) (1 ∷ 2000000000 ∷ 9000000000 ∷ [])
    ≡ allow ∷ deny 1000000 ∷ deny 1000000 ∷ []
slow_rate_starves_example =
    slow_rate_starves 500 0 1 (2000000000 ∷ 9000000000 ∷ []) (omega arith) (omega arith)

abbrev schedule : List (ℕ × Bool)
schedule =
    (0, false)
    ∷ (1, false)
    ∷ (0, false)
    ∷ (1, false)
    ∷ (0, false)
    ∷ (1, true)
    ∷ (0, false)
    ∷ (1, false)
    ∷ (1, false)
    ∷ []

allowed_bound_example :
    let r = new 1000 0 in
    let (word, tasks) =
      run_tasks r.rate_per_nano r.max_tokens schedule (r.state, arrivals (3 ∷ 4 ∷ [])) in
    1000000000 * allowed tasks + r.rate_per_nano * 0
    ≤ 1000000 * r.max_tokens + r.rate_per_nano * (9 + 2)
allowed_bound_example =
    allowed_bound 1000 0 9 (3 ∷ 4 ∷ []) schedule (omega arith) (omega arith) (omega arith)
      (omega arith, (omega arith, tt))
