-- ===== src/CrawlEngine/RateLimiter.antt =====
-- src/crawl_engine/rate_limiter.rs: the lock-free token bucket of a domain.
-- Times are nanoseconds since the limiter's base time. The rate is given in thousandths of a
-- request per second, which makes the two constants that `new` computes in f64 exact quotients.
-- u64 arithmetic that the source writes with `saturating_*` saturates here.
pub mod Words
pub mod Credit
pub mod Retry
pub mod SlowRate
pub mod Steps
pub mod Tasks
mod Tests
use kodegen_tools_citescrape.Base.{
  ℕ, suc, ◌+◌, ◌-◌, ◌*◌, ◌/◌, ◌%◌, ◌^◌, max, min, Bool, true, false, not, ◌&&◌, ltb, leb, ◌==◌,
  if◌then◌else◌,
}

abbrev pub u64_max : ℕ
u64_max = 18446744073709551615

abbrev pub token_scale : ℕ
token_scale = 1000

abbrev pub rate_scale : ℕ
rate_scale = 1000000

unfoldable pub saturating_add : ℕ → ℕ → ℕ
saturating_add a b = min (a + b) u64_max

unfoldable pub saturating_mul : ℕ → ℕ → ℕ
saturating_mul a b = min (a * b) u64_max

-- `((tokens as u128) << 64) | (nanos as u128)`; the two parts share no bit.
unfoldable pub pack_state : ℕ → ℕ → ℕ
pack_state tokens last_refill_nanos = tokens * 18446744073709551616 + last_refill_nanos

-- `(packed >> 64) as u64` and `(packed & 0xFFFF_FFFF_FFFF_FFFF) as u64`.
unfoldable pub unpack_state : ℕ → ℕ × ℕ
unpack_state packed =
    (packed / 18446744073709551616 % 18446744073709551616, packed % 18446744073709551616)

pub data RateLimitDecision : Type 0 where
  allow : RateLimitDecision
  deny : ℕ → RateLimitDecision

pub record DomainRateLimiter : Type 0 where
  pub state : ℕ  -- AtomicU128
  pub rate_per_nano : ℕ
  pub max_tokens : ℕ

unfoldable pub new : ℕ → ℕ → DomainRateLimiter
new rate_millirps now =
    let max_tokens : ℕ = max rate_millirps 1000 in
    record {
      state = pack_state max_tokens now;
      rate_per_nano = rate_millirps / 1000;
      max_tokens = max_tokens;
    }

-- One round of the loop of `refill_tokens`, from the values read: the values to store, or none of
-- them when no time has passed.
unfoldable pub refill : ℕ → ℕ → ℕ → ℕ × ℕ → ℕ × ℕ
unfolding saturating_add
refill rate max_tokens now (tokens, last_refill) =
    let elapsed : ℕ = now - last_refill in
    let to_add : ℕ = saturating_mul elapsed rate / rate_scale in
    let credited : ℕ = if ltb 0 rate then saturating_mul to_add rate_scale / rate else 0 in
    if leb now last_refill then (tokens, last_refill) else (
      (if ltb 0 to_add then min (saturating_add tokens to_add) max_tokens else tokens),
      saturating_add last_refill credited,
    )

-- One round of the loop of `try_consume_token`, from the values read.
unfoldable pub consume : ℕ → ℕ × ℕ → (ℕ × ℕ) × RateLimitDecision
consume rate (tokens, last_refill) =
    let needed : ℕ = token_scale - tokens in
    let nanos : ℕ = if ltb 0 rate then saturating_mul needed rate_scale / rate else 1000000 in
    if ltb tokens token_scale
    then ((tokens, last_refill), deny nanos)
    else ((tokens - token_scale, last_refill), allow)

-- A task inside `try_consume_token`, between two atomic operations. `now` is the instant that the
-- task read first; `current` is the word that it read last.
pub data Phase : Type 0 where
  load_refill : ℕ → Phase
  cas_refill : ℕ → ℕ → Phase
  load_consume : Phase
  cas_consume : ℕ → Phase
  finished : RateLimitDecision → Phase

abbrev pack_pair : ℕ × ℕ → ℕ
pack_pair (tokens, last_refill) = pack_state tokens last_refill

-- `compare_exchange_weak`: it fails where the word is not the expected one, and may fail anyway.
unfoldable pub compare_exchange_weak : Bool → ℕ → ℕ → ℕ → ℕ × Bool
compare_exchange_weak spurious word current new_word =
    if word == current && not spurious then (new_word, true) else (word, false)

refill_round : ℕ → ℕ → Bool → ℕ → ℕ → ℕ → ℕ × Phase
refill_round rate max_tokens spurious word now current =
    let next : ℕ = pack_pair (refill rate max_tokens now (unpack_state current)) in
    let (word', done) = compare_exchange_weak spurious word current next in
    if leb now (unpack_state current).1
    then (word, load_consume)
    else (if done then (word', load_consume) else (word', cas_refill now word'))

settle : Bool → ℕ → ℕ → (ℕ × ℕ) × RateLimitDecision → ℕ × Phase
settle spurious word current (kept, deny nanos) = (word, finished (deny nanos))
settle spurious word current (left, allow) =
    let (word', done) = compare_exchange_weak spurious word current (pack_pair left) in
    if done then (word', finished allow) else (word', cas_consume word')

consume_round : ℕ → Bool → ℕ → ℕ → ℕ × Phase
consume_round rate spurious word current =
    settle spurious word current (consume rate (unpack_state current))

-- The task's next atomic operation on the shared word; a finished task does nothing more.
unfoldable pub step_task : ℕ → ℕ → Bool → ℕ → Phase → ℕ × Phase
unfolding refill_round consume_round settle
step_task rate max_tokens spurious word (load_refill now) = (word, cas_refill now word)
step_task rate max_tokens spurious word (cas_refill now current) =
    refill_round rate max_tokens spurious word now current
step_task rate max_tokens spurious word load_consume = (word, cas_consume word)
step_task rate max_tokens spurious word (cas_consume current) =
    consume_round rate spurious word current
step_task rate max_tokens spurious word (finished d) = (word, finished d)

-- `try_consume_token` where no other task comes between: a refill, then a consumption.
unfoldable pub try_consume_token : DomainRateLimiter → ℕ → DomainRateLimiter × RateLimitDecision
try_consume_token r now =
    let refilled : ℕ × ℕ = refill r.rate_per_nano r.max_tokens now (unpack_state r.state) in
    let (left, decision) = consume r.rate_per_nano refilled in
    (record r { state = pack_pair left }, decision)
