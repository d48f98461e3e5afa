-- ===== src/CrawlEngine/RateLimiter/Retry.antt =====
-- Calls on a token bucket one after another (rate_limiter.rs): when a denied request gets through.
use native.Mathlib.Nat.{lt-div-mul-add, div-add-mod', mul-le-mul_right}
use kodegen_tools_citescrape.Base.{
  ℕ, ◌+◌, ◌-◌, ◌*◌, ◌/◌, ◌%◌, ◌≤◌, ◌<◌, ◌≡◌, ◌∙◌, ◌≢◌, ap, max, arith,
}
use kodegen_tools_citescrape.CrawlEngine.RateLimiter.{
  u64_max, DomainRateLimiter, new, unpack_state, refill, consume, allow, deny, try_consume_token,
  saturating_mul,
}
use kodegen_tools_citescrape.CrawlEngine.RateLimiter.Words.{unpack_state-pack_state}
use kodegen_tools_citescrape.CrawlEngine.RateLimiter.Credit.{
  Refills, refill-Refills, refill_fills, refill_lacks, consume_short, consume_whole,
}

abbrev pub tokens_of : DomainRateLimiter → ℕ
tokens_of r = (unpack_state r.state).0

abbrev pub last_of : DomainRateLimiter → ℕ
last_of r = (unpack_state r.state).1

-- A bucket that `new` makes, after any calls up to the instant `now`.
pub record IsBucket (now : ℕ) (r : DomainRateLimiter) : Type 0 where
  pub capped : tokens_of r ≤ r.max_tokens
  pub one_fits : 1000 ≤ r.max_tokens
  pub max_fits : r.max_tokens ≤ u64_max
  pub not_ahead : last_of r ≤ now
  pub now_fits : now ≤ u64_max

-- A new bucket is full, and satisfies the invariant at its own instant, for a rate that fits.
pub new-IsBucket :
    (rate_millirps now : ℕ)
    → rate_millirps ≤ u64_max
    → now ≤ u64_max
    → IsBucket now (new rate_millirps now)
unfolding new
new-IsBucket rate_millirps now r n =
    let word = unpack_state-pack_state (max rate_millirps 1000) now (omega arith) n in
    ground (arith, word)

consume_bounds :
    (rate : ℕ) (read : ℕ × ℕ)
    → ((consume rate read).0.0 ≤ read.0) × ((consume rate read).0.1 ≡ read.1)
unfolding consume
consume_bounds rate (tokens, last) = ground arith

-- The values that a call consumes from.
abbrev refilled : DomainRateLimiter → ℕ → ℕ × ℕ
refilled r now = refill r.rate_per_nano r.max_tokens now (unpack_state r.state)

module _ (r : DomainRateLimiter) (before now : ℕ) where
  refilled-Refills :
      IsBucket before r
      → now ≤ u64_max
      → Refills r.rate_per_nano r.max_tokens now
          (tokens_of r)
          (last_of r)
          (refilled r now).0
          (refilled r now).1
  refilled-Refills v fits =
      refill-Refills r.rate_per_nano r.max_tokens now (tokens_of r) (last_of r) v.capped fits
        (omega arith)

  left_state :
      IsBucket before r
      → before ≤ now
      → now ≤ u64_max
      → unpack_state (try_consume_token r now).0.state
        ≡ (consume r.rate_per_nano (refilled r now)).0
  unfolding try_consume_token
  left_state v le fits =
      let f = refilled-Refills v fits in
      let c = consume_bounds r.rate_per_nano (refilled r now) in
      unpack_state-pack_state (consume r.rate_per_nano (refilled r now)).0.0
        (consume r.rate_per_nano (refilled r now)).0.1 (omega arith) (omega arith)

  -- A call at a later instant keeps the bucket at most full, and its time stamp out of the future.
  pub try_consume_token-IsBucket :
      IsBucket before r → before ≤ now → now ≤ u64_max → IsBucket now (try_consume_token r now).0
  unfolding try_consume_token
  try_consume_token-IsBucket v le fits =
      let word = left_state v le fits in
      let f = refilled-Refills v fits in
      let c = consume_bounds r.rate_per_nano (refilled r now) in
      let below : (consume r.rate_per_nano (refilled r now)).0.0 ≤ r.max_tokens = omega arith in
      let past : (consume r.rate_per_nano (refilled r now)).0.1 ≤ now = omega arith in
      record {
        capped = rw (ap (λ p. p.0) word) below;
        one_fits = v.one_fits;
        max_fits = v.max_fits;
        not_ahead = rw (ap (λ p. p.1) word) past;
        now_fits = fits;
      }

  -- A refill that finds too few tokens leaves them, and its denial names the wait of `consume`.
  denied :
      (wait : ℕ)
      → 0 < r.rate_per_nano
      → (try_consume_token r now).1 ≡ deny wait
      → ((refilled r now).0 < 1000)
        × (wait ≡ (1000 - (refilled r now).0) * 1000000 / r.rate_per_nano)
        × ((consume r.rate_per_nano (refilled r now)).0 ≡ refilled r now)
  unfolding try_consume_token consume saturating_mul
  denied wait positive d = ground arith

module _ (r : DomainRateLimiter) (before now wait later : ℕ) where
  -- What the second of two calls consumes from, where the first was denied.
  refilled_twice :
      IsBucket before r
      → before ≤ now
      → now ≤ u64_max
      → 0 < r.rate_per_nano
      → (try_consume_token r now).1 ≡ deny wait
      → (try_consume_token (try_consume_token r now).0 later).1
        ≡ (consume r.rate_per_nano (refill r.rate_per_nano r.max_tokens later (refilled r now))).1
  refilled_twice v le fits positive d =
      let word = left_state r before now v le fits ∙ (denied r before now wait positive d).2 in
      unfold try_consume_token in rw word

  -- A request that is denied with a wait is let through at any instant more than that wait later,
  -- where no other request comes between and the rate is not zero.
  pub retry_allowed :
      IsBucket before r
      → before ≤ now
      → now + wait < later
      → later ≤ u64_max
      → 0 < r.rate_per_nano
      → (try_consume_token r now).1 ≡ deny wait
      → (try_consume_token (try_consume_token r now).0 later).1 ≡ allow
  retry_allowed v le late fits positive d =
      let R : ℕ × ℕ = refilled r now in
      let rate : ℕ = r.rate_per_nano in
      let (short, w, _) = denied r before now wait positive d in
      let f = refilled-Refills r before now v (omega arith) in
      let bound = lt-div-mul-add {a = (1000 - R.0) * 1000000} {b = rate} positive in
      let more = mul-le-mul_right {m = wait + 1} {n = later - R.1} rate (omega arith) in
      let scaled = ap (λ (x : ℕ). x * rate) w in
      let enough : (1000 - R.0) * 1000000 ≤ (later - R.1) * rate = omega arith in
      let full =
        refill_fills rate r.max_tokens later R.0 R.1 (omega arith) fits positive v.one_fits
          enough in
      refilled_twice v le (omega arith) positive d ∙ ap (λ p. p.1) (consume_whole rate _ _ full)

  -- The advertised wait is too short wherever the rate does not divide the missing amount: a
  -- request that is repeated up to that wait after the bucket's time stamp is denied again, where
  -- no other request comes between and the rate is not zero.
  pub retry_after_too_short :
      IsBucket before r
      → before ≤ now
      → now ≤ u64_max
      → later ≤ (refilled r now).1 + wait
      → later ≤ u64_max
      → 0 < r.rate_per_nano
      → (1000 - (refilled r now).0) * 1000000 % r.rate_per_nano ≢ 0
      → (try_consume_token r now).1 ≡ deny wait
      → (try_consume_token (try_consume_token r now).0 later).1 ≢ allow
  retry_after_too_short v le n early fits positive ragged d allowed =
      let R : ℕ × ℕ = refilled r now in
      let rate : ℕ = r.rate_per_nano in
      let (short, w, _) = denied r before now wait positive d in
      let rest = div-add-mod' ((1000 - R.0) * 1000000) rate in
      let scaled = ap (λ (x : ℕ). x * rate) w in
      let less = mul-le-mul_right {m = later - R.1} {n = wait} rate (omega arith) in
      let lacking : (later - R.1) * rate < (1000 - R.0) * 1000000 = omega arith in
      let small = refill_lacks rate r.max_tokens later R.0 R.1 short fits positive lacking in
      let again = refilled_twice v le n positive d in
      let short_again = consume_short rate _ (refill rate r.max_tokens later R).1 small positive in
      cc (ap (λ p. p.1) short_again)
