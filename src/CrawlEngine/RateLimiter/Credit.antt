-- ===== src/CrawlEngine/RateLimiter/Credit.antt =====
-- What one refill and one consumption do to a token bucket (rate_limiter.rs).
use native.Mathlib.Nat.{div-mul-le_self, lt-div-mul-add, le_of_mul-le-mul_right, le_trans}
use kodegen_tools_citescrape.Base.{
  ℕ, ◌+◌, ◌-◌, ◌*◌, ◌/◌, ◌≤◌, ◌<◌, ◌≡◌, refl, ◌⊎◌, inl, inr, min, arith, ltb, if◌then◌else◌, dec_lt,
}
use kodegen_tools_citescrape.CrawlEngine.RateLimiter.{
  u64_max, token_scale, rate_scale, saturating_mul, refill, consume, allow, deny,
}

-- The tokens that a refill adds, and the time that it credits for them.
abbrev pub added : ℕ → ℕ → ℕ
added rate elapsed = saturating_mul elapsed rate / rate_scale

added-le : (rate elapsed : ℕ) → added rate elapsed * 1000000 ≤ elapsed * rate
unfolding saturating_mul
added-le rate elapsed = omega (arith, div-mul-le_self (saturating_mul elapsed rate) 1000000)

added_fits : (rate elapsed : ℕ) → added rate elapsed * 1000000 ≤ u64_max
unfolding saturating_mul
added_fits rate elapsed = omega (arith, div-mul-le_self (saturating_mul elapsed rate) 1000000)

le-added : (rate elapsed k : ℕ) → k * 1000000 ≤ elapsed * rate → k ≤ 1000 → k ≤ added rate elapsed
unfolding saturating_mul
le-added rate elapsed k h small = omega arith

saturating_mul_fits : (a b : ℕ) → a * b ≤ u64_max → saturating_mul a b ≡ a * b
unfolding saturating_mul
saturating_mul_fits a b h = omega arith

-- A refill moves the time stamp forward, not past `now`, keeps the tokens under the maximum, and
-- adds at most what the rate gives for the time that it credits and one nanosecond more.
pub record Refills (rate max_tokens now tokens last tokens' last' : ℕ) : Type 0 where
  pub later : last ≤ last'
  pub not_past : (last' ≤ now) ⊎ (last' ≡ last)
  pub capped : tokens' ≤ max_tokens
  pub credit : 1000000 * tokens' + rate * last ≤ 1000000 * tokens + rate * last' + rate

credited_bounds :
    (rate a elapsed : ℕ)
    → 0 < rate
    → a * 1000000 ≤ elapsed * rate
    → (a * 1000000 / rate ≤ elapsed)
      × (a * 1000000 / rate * rate ≤ a * 1000000)
      × (a * 1000000 < a * 1000000 / rate * rate + rate)
credited_bounds rate a elapsed p h = (
  le_of_mul-le-mul_right (le_trans (div-mul-le_self (a * 1000000) rate) h) p,
  div-mul-le_self (a * 1000000) rate,
  lt-div-mul-add p,
)

module _ (rate max_tokens now tokens last : ℕ) where
  -- The refill where time has passed and the rate is positive, with its quotients named.
  pub refill_value :
      last < now
      → now ≤ u64_max
      → 0 < rate
      → let a = added rate (now - last) in
        refill rate max_tokens now (tokens, last) ≡ (
          (if ltb 0 a then min (min (tokens + a) u64_max) max_tokens else tokens),
          last + a * 1000000 / rate,
        )
  unfolding refill
  refill_value later n p =
      let a : ℕ = added rate (now - last) in
      let le = added-le rate (now - last) in
      let b = credited_bounds rate a (now - last) p le in
      let fits = saturating_mul_fits a 1000000 (added_fits rate (now - last)) in
      ground (arith, le, b, fits)

  pub refill_early : now ≤ last → refill rate max_tokens now (tokens, last) ≡ (tokens, last)
  unfolding refill
  refill_early h = ground arith

  pub refill_zero :
      rate ≡ 0 → last ≤ u64_max → refill rate max_tokens now (tokens, last) ≡ (tokens, last)
  unfolding refill saturating_mul
  refill_zero z h = ground arith

  value-Refills :
      (a c : ℕ)
      → tokens ≤ max_tokens
      → c ≤ now - last
      → last < now
      → a * 1000000 < c * rate + rate
      → Refills rate max_tokens now tokens last
          (if ltb 0 a then min (min (tokens + a) u64_max) max_tokens else tokens)
          (last + c)
  value-Refills a c t le later small = record {
    later = omega arith;
    not_past = inl (omega arith);
    capped = ground arith;
    credit = ground arith;
  }

  pub refill-Refills :
      tokens ≤ max_tokens
      → now ≤ u64_max
      → last ≤ u64_max
      → Refills rate max_tokens now tokens last
          (refill rate max_tokens now (tokens, last)).0
          (refill rate max_tokens now (tokens, last)).1
  refill-Refills t n l = elim (dec_lt last now) [
    | no early ↦ rw (refill_early (omega arith)) idle
    | yes later ↦ elim (dec_lt 0 rate) [
      | no zero_rate ↦ rw (refill_zero (omega arith) l) idle
      | yes positive ↦
          let le = added-le rate (now - last) in
          let b = credited_bounds rate (added rate (now - last)) (now - last) positive le in
          rw (refill_value later n positive) (
            value-Refills (added rate (now - last)) (added rate (now - last) * 1000000 / rate) t b.0
              later b.2)
    ]
  ]
    where
      idle : Refills rate max_tokens now tokens last tokens last
      idle = record { later = omega arith; not_past = inr refl; capped = t; credit = omega arith }

  -- After a wait that the rate turns into the tokens that are missing, a refill leaves a whole one.
  pub refill_fills :
      last < now
      → now ≤ u64_max
      → 0 < rate
      → 1000 ≤ max_tokens
      → (1000 - tokens) * 1000000 ≤ (now - last) * rate
      → 1000 ≤ (refill rate max_tokens now (tokens, last)).0
  refill_fills later n p cap wait =
      rw (refill_value later n p) (ground (arith, le-added rate (now - last) (1000 - tokens) wait))

  pub refill_lacks :
      tokens < 1000
      → now ≤ u64_max
      → 0 < rate
      → (now - last) * rate < (1000 - tokens) * 1000000
      → (refill rate max_tokens now (tokens, last)).0 < 1000
  refill_lacks short n p lacking = elim (dec_lt last now) [
    | no early ↦ rw (refill_early (omega arith)) short
    | yes later ↦ rw (refill_value later n p) (ground (arith, added-le rate (now - last)))
  ]

pub consume_short :
    (rate tokens last : ℕ)
    → tokens < 1000
    → 0 < rate
    → consume rate (tokens, last) ≡ ((tokens, last), deny ((1000 - tokens) * 1000000 / rate))
unfolding consume saturating_mul
consume_short rate tokens last h p = ground arith

pub consume_zero :
    (tokens last : ℕ) → tokens < 1000 → consume 0 (tokens, last) ≡ ((tokens, last), deny 1000000)
unfolding consume
consume_zero tokens last h = ground arith

pub consume_whole :
    (rate tokens last : ℕ)
    → 1000 ≤ tokens
    → consume rate (tokens, last) ≡ ((tokens - 1000, last), allow)
unfolding consume
consume_whole rate tokens last h = ground arith

-- The wait of a denial.
abbrev wait_of : ℕ → ℕ → ℕ
wait_of rate tokens =
    if ltb 0 rate then saturating_mul (token_scale - tokens) rate_scale / rate else 1000000

consume_denies :
    (rate tokens last : ℕ)
    → tokens < 1000
    → consume rate (tokens, last) ≡ ((tokens, last), deny (wait_of rate tokens))
unfolding consume
consume_denies rate tokens last h = ground arith

pub consume_cases :
    (rate : ℕ) (read : ℕ × ℕ)
    → ((nanos : ℕ) × (consume rate read ≡ (read, deny nanos)))
      ⊎ ((1000 ≤ read.0) × (consume rate read ≡ ((read.0 - 1000, read.1), allow)))
consume_cases rate read = elim (dec_lt read.0 1000) [
  | yes short ↦ inl (wait_of rate read.0, consume_denies rate read.0 read.1 short)
  | no whole ↦ inr (omega arith, consume_whole rate read.0 read.1 (omega arith))
]
