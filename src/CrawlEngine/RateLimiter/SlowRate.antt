-- ===== src/CrawlEngine/RateLimiter/SlowRate.antt =====
-- A token bucket whose rate is below one request per second (rate_limiter.rs).
use kodegen_tools_citescrape.Base.{ℕ, ◌/◌, ◌≤◌, ◌<◌, ◌≡◌, refl, ap, max, List, [], ◌∷◌, map, arith}
use kodegen_tools_citescrape.CrawlEngine.RateLimiter.{
  u64_max, DomainRateLimiter, new, RateLimitDecision, unpack_state, refill, allow, deny,
  try_consume_token,
}
use kodegen_tools_citescrape.CrawlEngine.RateLimiter.Words.{unpack_state-pack_state}
use kodegen_tools_citescrape.CrawlEngine.RateLimiter.Credit.{
  refill_zero, consume_zero, consume_whole,
}
use kodegen_tools_citescrape.CrawlEngine.RateLimiter.Retry.{tokens_of, last_of}

-- The decisions of calls one after another.
unfoldable pub decisions : DomainRateLimiter → List ℕ → List RateLimitDecision
decisions r [] = []
decisions r (now ∷ times) =
    let (r', decision) = try_consume_token r now in decision ∷ decisions r' times

-- A bucket that nothing fills any more.
record IsDry (r : DomainRateLimiter) : Type 0 where
  no_rate : r.rate_per_nano ≡ 0
  short : tokens_of r < 1000
  stamp_fits : last_of r ≤ u64_max

try-IsDry :
    (r : DomainRateLimiter) (now : ℕ)
    → IsDry r
    → IsDry (try_consume_token r now).0 × ((try_consume_token r now).1 ≡ deny 1000000)
unfolding try_consume_token
try-IsDry r now v =
    let R : ℕ × ℕ = unpack_state r.state in
    let same : refill r.rate_per_nano r.max_tokens now R ≡ R =
      refill_zero r.rate_per_nano r.max_tokens now R.0 R.1 v.no_rate v.stamp_fits in
    let kept = consume_zero R.0 R.1 v.short in
    let word = unpack_state-pack_state R.0 R.1 (omega arith) v.stamp_fits in
    rw (same, v.no_rate, kept)
      (
        record {
          no_rate = refl;
          short = rw (ap (λ p. p.0) word) v.short;
          stamp_fits = rw (ap (λ p. p.1) word) v.stamp_fits;
        },
        refl,
      )

decisions_dry :
    (r : DomainRateLimiter) (times : List ℕ)
    → IsDry r
    → decisions r times ≡ map (λ _. deny 1000000) times
unfolding decisions
decisions_dry r [] v = refl
decisions_dry r (now ∷ times) v =
    let (dry, denial) = try-IsDry r now v in
    cc (denial, decisions_dry (try_consume_token r now).0 times dry)

try_first :
    (rate_millirps start first : ℕ)
    → rate_millirps < 1000
    → start ≤ u64_max
    → IsDry (try_consume_token (new rate_millirps start) first).0
      × ((try_consume_token (new rate_millirps start) first).1 ≡ allow)
unfolding try_consume_token new
try_first m start first slow fits =
    let full : max m 1000 ≡ 1000 = omega arith in
    let zero_rate : m / 1000 ≡ 0 = omega arith in
    let read = unpack_state-pack_state 1000 start (omega arith) fits in
    let same = refill_zero 0 1000 first 1000 start refl fits in
    let taken = consume_whole 0 1000 start (omega arith) in
    let word = unpack_state-pack_state 0 start (omega arith) fits in
    rw (full, zero_rate, read, same, taken)
      (
        record {
          no_rate = refl;
          short = rw (ap (λ p. p.0) word) (omega arith);
          stamp_fits = rw (ap (λ p. p.1) word) fits;
        },
        refl,
      )

-- A rate below one request per second is rounded down to zero tokens a nanosecond: after the first
-- request of a new bucket every later one is denied, whenever it comes, with a wait of 1 ms.
pub slow_rate_starves :
    (rate_millirps start : ℕ) (first : ℕ) (times : List ℕ)
    → rate_millirps < 1000
    → start ≤ u64_max
    → decisions (new rate_millirps start) (first ∷ times) ≡ allow ∷ map (λ _. deny 1000000) times
unfolding decisions
slow_rate_starves rate_millirps start first times slow fits =
    let (dry, once) = try_first rate_millirps start first slow fits in
    cc (once, decisions_dry (try_consume_token (new rate_millirps start) first).0 times dry)
