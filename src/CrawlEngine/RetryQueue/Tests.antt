-- ===== src/CrawlEngine/RetryQueue/Tests.antt =====
-- The retry queue (retry_queue.rs) on concrete items.
use kodegen_tools_citescrape.Base.{String, ◌≡◌, Option, some, [], ◌∷◌, if◌then◌else◌}
use kodegen_tools_citescrape.CrawlEngine.CircuitBreaker.{CircuitBreaker, new, should_attempt}
use kodegen_tools_citescrape.CrawlEngine.Failure.{CrawlQueue}
use kodegen_tools_citescrape.CrawlEngine.RetryQueue.{Items, pending, drain_ready}
use kodegen_tools_citescrape.CrawlEngine.RetryQueue.Recovery.{drain_ready-pending}

abbrev item_of : String → CrawlQueue
item_of url = record { url = url; depth = 1; retry_count = 0 }

abbrev two_domains : Items
two_domains =
    ("a", item_of "http://a/1" ∷ item_of "http://a/2" ∷ []) ∷ ("b", item_of "http://b/1" ∷ []) ∷ []

-- Every URL is of the host `a`.
abbrev host_a : String → Option (Option String)
host_a url = some (some "a")

abbrev breaker : CircuitBreaker
breaker = new 2 1 5

drain_ready-pending_example :
    let (cb', ready, rest) = drain_ready breaker 7 two_domains in
    pending "a" rest ≡ (if (should_attempt breaker "a" 7).1 then [] else pending "a" two_domains)
drain_ready-pending_example = drain_ready-pending breaker 7 two_domains "a"
