-- ===== src/CrawlEngine/Orchestrator/Tests.antt =====
-- The crawl loop (orchestrator.rs) on a concrete crawl: the page of the start URL is rejected by
-- its circuit and waits in the retry queue.
use kodegen_tools_citescrape.Base.{◌≡◌, refl, false, some, [], ◌∷◌, lookup, insert}
use kodegen_tools_citescrape.CrawlEngine.CircuitBreaker.{CircuitBreaker, new}
use kodegen_tools_citescrape.CrawlEngine.Failure.{CrawlQueue}
use kodegen_tools_citescrape.CrawlEngine.RetryQueue.{
  extract_domain, add, drain_ready, ready_domains, take_domains, len,
}
use kodegen_tools_citescrape.CrawlEngine.Orchestrator.{
  CrawlConfig, Crawl, at_drain, stopped, drain_with, drain_phase, spawn, admit, pop, fill_one,
  needs_retry, keep_with, keep_for_retry, complete, is_done, Split, finish, drains, fills, waits,
  completes, loops, Reach, here, next, start,
}
use kodegen_tools_citescrape.CrawlEngine.Orchestrator.Invariant.{Inv}
use kodegen_tools_citescrape.CrawlEngine.Orchestrator.Bounds.{Bounded}
use kodegen_tools_citescrape.CrawlEngine.Orchestrator.Limits.{Reach-Bounded}
use kodegen_tools_citescrape.CrawlEngine.Orchestrator.Safety.{
  Reach-Inv, drain_requeues_nothing, stops_with_items_waiting,
}

abbrev config : CrawlConfig
config = record {
  max_depth = 2;
  max_page_retries = 3;
  limit = some 10;
  max_concurrent_pages = 4;
  parse_host = λ url. some (some "a");
}

abbrev item : CrawlQueue
item = record { url = "http://a/"; depth = 0; retry_count = 0 }

abbrev breaker : CircuitBreaker
breaker = new 2 1 5

-- The start, one task running, and the item waiting for its circuit.
abbrev at_start : Crawl
at_start = start "http://a/" (some breaker)

abbrev running : Crawl
running = record {
  queue = [];
  visited = "http://a/" ∷ [];
  breaker = some breaker;
  retry_queue = [];
  total_pages = 0;
  active_tasks = record { item = item; counted = false } ∷ [];
}

abbrev waiting : Crawl
waiting = record {
  queue = [];
  visited = "http://a/" ∷ [];
  breaker = some breaker;
  retry_queue = ("a", item ∷ []) ∷ [];
  total_pages = 0;
  active_tasks = [];
}

abbrev only_task : Split
only_task = record { before = []; task = record { item = item; counted = false }; after = [] }

first_round : Reach config at_drain at_start at_drain waiting
unfolding start drain_phase drain_with drain_ready ready_domains take_domains fill_one pop admit
    spawn extract_domain finish complete keep_for_retry keep_with add insert lookup is_done len
first_round =
    next
      (next
        (next (next (next here (drains 0 at_start)) (fills at_start running refl))
          (waits running running refl))
        (completes 0 running only_task needs_retry refl))
      (loops waiting refl)

Reach-Inv_example : Inv waiting
Reach-Inv_example = Reach-Inv config "http://a/" (some breaker) first_round

Reach-Bounded_example : Bounded config waiting
Reach-Bounded_example = Reach-Bounded config "http://a/" (some breaker) first_round

drain_requeues_nothing_example : (drain_phase 1000 waiting).queue ≡ []
drain_requeues_nothing_example =
    drain_requeues_nothing config "http://a/" (some breaker) 1000 first_round

stops_with_items_waiting_example :
    Reach config at_drain waiting stopped (drain_phase 1000 waiting)
    × ((drain_phase 1000 waiting).total_pages ≡ 0)
stops_with_items_waiting_example =
    stops_with_items_waiting config "http://a/" (some breaker) waiting 1000 first_round refl refl
