-- ===== src/CrawlEngine/RetryQueue.antt =====
-- src/crawl_engine/retry_queue.rs: items that an open circuit rejected, kept by domain.
-- The shared circuit breaker is passed in and out. `url::Url::parse` and `host_str` are the
-- parameter `parse_host`: `none` where the URL does not parse, `some none` where it has no host.
pub mod Laws
pub mod Every
pub mod Recovery
mod Tests
use kodegen_tools_citescrape.Base.{
  ℕ, suc, ◌+◌, String, Bool, true, false, Option, none, some, List, [], ◌∷◌, ◌++◌, length,
  if◌then◌else◌, Map, lookup, insert, remove, keys,
}
use kodegen_tools_citescrape.CrawlEngine.CircuitBreaker.{CircuitBreaker, should_attempt}
use kodegen_tools_citescrape.CrawlEngine.Failure.{CrawlQueue}

-- `circuit_breaker::extract_domain`, its two errors told apart no further.
unfoldable pub extract_domain : (String → Option (Option String)) → String → Option String
extract_domain parse_host url = elim (parse_host url) [ none ↦ none | some host ↦ host ]

abbrev pub Items : Type 0
Items = Map (List CrawlQueue)

-- `entry(domain).or_default()`.
abbrev pub pending : String → Items → List CrawlQueue
pending domain items = elim (lookup domain items) [ none ↦ [] | some xs ↦ xs ]

unfoldable pub add : (String → Option (Option String)) → Items → CrawlQueue → Items
add parse_host items item = elim (extract_domain parse_host item.url) [
  | none ↦ items
  | some domain ↦ insert domain (pending domain items ++ item ∷ []) items
]

-- The first pass of `drain_ready`: the domains whose circuit lets a request through.
unfoldable pub ready_domains : CircuitBreaker → ℕ → List String → CircuitBreaker × List String
ready_domains cb now [] = (cb, [])
ready_domains cb now (domain ∷ domains) =
    let (cb', allowed) = should_attempt cb domain now in
    let (cb'', rest) = ready_domains cb' now domains in
    (cb'', (if allowed then domain ∷ rest else rest))

-- The second pass: the items of these domains leave the map.
unfoldable pub take_domains : List String → Items → List CrawlQueue × Items
take_domains [] items = ([], items)
take_domains (domain ∷ domains) items =
    let (ready, rest) = take_domains domains (remove domain items) in
    (pending domain items ++ ready, rest)

unfoldable pub drain_ready : CircuitBreaker → ℕ → Items → CircuitBreaker × List CrawlQueue × Items
drain_ready cb now items =
    let (cb', domains) = ready_domains cb now (keys items) in
    let (ready, rest) = take_domains domains items in (cb', ready, rest)

-- `len`: the items of all domains.
unfoldable pub len : Items → ℕ
len [] = 0
len ((domain, xs) ∷ items) = length xs + len items

unfoldable pub is_empty : Items → Bool
is_empty [] = true
is_empty (entry ∷ items) = false

unfoldable pub domain_counts : Items → List (String × ℕ)
domain_counts [] = []
domain_counts ((domain, xs) ∷ items) = (domain, length xs) ∷ domain_counts items
