-- ===== src/CrawlEngine/Failure.antt =====
-- src/crawl_engine/crawl_types.rs (`CrawlQueue`, `FailureKind`) and `calculate_retry_backoff` of
-- src/crawl_engine/orchestrator.rs. Error messages are lists of code points, lowercased as
-- `to_lowercase` does. A delay multiplier is in tenths; a random factor is a whole number of units,
-- `unit` to 1.0, and the products are exact, without the rounding of f64. `random_range` of the
-- crate rand is a parameter.
pub mod Laws
mod Tests
use kodegen_tools_citescrape.Base.{
  ℕ, zero, suc, ◌+◌, ◌-◌, ◌*◌, ◌/◌, ◌^◌, min, String, Bool, true, false, List, [], ◌∷◌,
  if◌then◌else◌, contains_any,
}

pub record CrawlQueue : Type 0 where
  pub url : String
  pub depth : ℕ  -- u8
  pub retry_count : ℕ  -- u8

pub data FailureKind : Type 0 where
  network browser content_extraction rate_limited unknown : FailureKind

abbrev pub rate_limit_patterns : List String
rate_limit_patterns = "429" ∷ "too many requests" ∷ "rate limit" ∷ []

abbrev pub network_patterns : List String
network_patterns =
    "timeout" ∷ "timed out" ∷ "connection refused" ∷ "connection reset" ∷ "dns" ∷ "network"
    ∷ "unreachable" ∷ "eof" ∷ []

abbrev pub browser_patterns : List String
browser_patterns = "browser" ∷ "page" ∷ "chrome" ∷ "cdp" ∷ "target" ∷ "session" ∷ []

abbrev pub content_patterns : List String
content_patterns = "extract" ∷ "validation" ∷ "content" ∷ "html" ∷ "parse" ∷ "selector" ∷ []

-- `FailureKind::classify`, on the lowercased message.
unfoldable pub classify : List ℕ → FailureKind
classify msg =
    if contains_any msg rate_limit_patterns
    then rate_limited
    else if contains_any msg network_patterns
    then network
    else if contains_any msg browser_patterns
    then browser
    else if contains_any msg content_patterns
    then content_extraction
    else unknown

unfoldable pub is_retryable : FailureKind → Bool
is_retryable network = true
is_retryable browser = true
is_retryable rate_limited = true
is_retryable unknown = true
is_retryable content_extraction = false

-- `delay_multiplier`, times ten.
unfoldable pub delay_multiplier : FailureKind → ℕ
delay_multiplier network = 10
delay_multiplier browser = 15
delay_multiplier rate_limited = 30
delay_multiplier content_extraction = 10
delay_multiplier unknown = 10

-- `negsuc n` is -(n + 1).
pub data ℤ : Type 0 where
  pos : ℕ → ℤ
  negsuc : ℕ → ℤ

abbrev pub neg : ℕ → ℤ
neg zero = pos 0
neg (suc n) = negsuc n

abbrev pub unit : ℕ
unit = 10 ^ 18

-- 0.2.
abbrev pub jitter_percent : ℕ
jitter_percent = 2 * unit / 10

-- `1.0 + jitter`, 0 for a negative sum: the cast to u64 makes 0 of a negative product.
unfoldable pub one_plus : ℤ → ℕ
one_plus (pos n) = unit + n
one_plus (negsuc n) = unit - suc n

abbrev base_delay_ms : ℕ
base_delay_ms = 1000

abbrev max_delay_ms : ℕ
max_delay_ms = 30000

-- In milliseconds; `random_range low high` is what the generator gives. `1000 << 5` does not
-- saturate.
unfoldable pub calculate_retry_backoff : (ℤ → ℤ → ℤ) → ℕ → FailureKind → ℕ
unfolding delay_multiplier one_plus
calculate_retry_backoff random_range retry_count failure_kind =
    let exp_delay : ℕ = base_delay_ms * 2 ^ min retry_count 5 in
    let adjusted_delay : ℕ = exp_delay * delay_multiplier failure_kind / 10 in
    let jitter = random_range (neg jitter_percent) (pos jitter_percent) in
    let jittered_delay : ℕ = adjusted_delay * one_plus jitter / unit in
    min jittered_delay max_delay_ms
