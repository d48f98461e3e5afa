-- ===== src/CrawlEngine/Orchestrator.antt =====
-- src/crawl_engine/orchestrator.rs (the loop of `crawl_pages`) with the parts of
-- src/crawl_engine/page_processor.rs that change the state it shares with its page tasks.
-- The browser, the event bus, log output and the semaphores are left out: a permit is a wait. What
-- a page task does is an arbitrary sequence of the shared-state operations below, ended by its
-- `PageResult`; the task returns the item that it was given.
pub mod Urls
pub mod Invariant
pub mod Completion
pub mod Safety
pub mod Bounds
pub mod Limits
mod Tests
use kodegen_tools_citescrape.Base.{
  ℕ, zero, suc, ◌+◌, String, ◌≡◌, Bool, true, false, not, ◌&&◌, Option, none, some, List, [], ◌∷◌,
  ◌++◌, length, filter, has, discard, leb, ltb, ◌==◌, if◌then◌else◌,
}
use kodegen_tools_citescrape.CrawlEngine.CircuitBreaker.{CircuitBreaker, record_failure}
use kodegen_tools_citescrape.CrawlEngine.CircuitBreaker.Health.{HealthCall}
use kodegen_tools_citescrape.CrawlEngine.CircuitBreaker.Domains.{step}
use kodegen_tools_citescrape.CrawlEngine.Failure.{CrawlQueue, FailureKind, is_retryable}
use kodegen_tools_citescrape.CrawlEngine.RetryQueue.{Items, extract_domain, add, drain_ready, len}

pub record CrawlConfig : Type 0 where
  pub max_depth : ℕ  -- u8
  pub max_page_retries : ℕ  -- u8
  pub limit : Option ℕ
  pub max_concurrent_pages : ℕ
  pub parse_host : String → Option (Option String)

-- A spawned page task, and whether it has counted its page.
pub record Task : Type 0 where
  pub item : CrawlQueue
  pub counted : Bool

pub record Crawl : Type 0 where
  pub queue : List CrawlQueue
  pub visited : List String
  pub breaker : Option CircuitBreaker
  pub retry_queue : Items
  pub total_pages : ℕ
  pub active_tasks : List Task

-- Where the loop stands. Between `at_requeue` and the push the loop sleeps the backoff delay.
pub data Pc : Type 0 where
  at_drain at_fill at_wait at_check stopped : Pc
  at_requeue : CrawlQueue → Pc

abbrev pub not_visited : List String → CrawlQueue → Bool
not_visited visited item = not (has item.url visited)

unfoldable pub drain_with : ℕ → Crawl → Option CircuitBreaker → Crawl
drain_with now s none = s
drain_with now s (some cb) =
    let (cb', ready, rest) = drain_ready cb now s.retry_queue in
    record s {
      breaker = some cb';
      retry_queue = rest;
      queue = s.queue ++ filter (not_visited s.visited) ready;
    }

-- The check of the retry queue at the head of the loop.
unfoldable pub drain_phase : ℕ → Crawl → Crawl
unfolding drain_with
drain_phase now s = drain_with now s s.breaker

pub data Fill : Type 0 where
  continues leaves : Crawl → Fill

abbrev at_limit : Option ℕ → ℕ → Bool
at_limit none total = false
at_limit (some limit) total = leb limit total

spawn : Crawl → CrawlQueue → Option String → Crawl
spawn s item none = s
spawn s item (some domain) = record s {
  active_tasks = s.active_tasks ++ record { item = item; counted = false } ∷ [];
}

-- An item that was popped: the limit, the visited set and the domain decide.
unfoldable pub admit : CrawlConfig → Crawl → CrawlQueue → Fill
unfolding spawn
admit cfg s item =
    let marked = record s { visited = item.url ∷ s.visited } in
    if at_limit cfg.limit s.total_pages
    then leaves s
    else if has item.url s.visited
    then continues s
    else continues (spawn marked item (extract_domain cfg.parse_host item.url))

pop : CrawlConfig → Crawl → List CrawlQueue → Fill
unfolding admit
pop cfg s [] = leaves s
pop cfg s (item ∷ rest) = admit cfg (record s { queue = rest }) item

-- One round of the loop that fills up to the concurrency limit.
unfoldable pub fill_one : CrawlConfig → Crawl → Fill
unfolding pop
fill_one cfg s =
    if ltb (length s.active_tasks) cfg.max_concurrent_pages then pop cfg s s.queue else leaves s

-- `PageResult`, with the item left to the task; `panicked` is the join error.
pub data PageResult : Type 0 where
  success needs_retry failed_permanent panicked : PageResult
  failed_retryable : FailureKind → PageResult

record_on : ℕ → Crawl → Option CircuitBreaker → Option String → Crawl
record_on now s (some cb) (some domain) = record s { breaker = some (record_failure cb domain now) }
record_on now s _ _ = s

-- The failure is recorded where there is a breaker and the URL has a domain.
unfoldable pub note_failure : CrawlConfig → ℕ → String → Crawl → Crawl
unfolding record_on
note_failure cfg now url s = record_on now s s.breaker (extract_domain cfg.parse_host url)

-- Without a breaker there is no retry queue, and the item is discarded.
keep_with : CrawlConfig → CrawlQueue → Crawl → Option CircuitBreaker → Crawl
keep_with cfg item s none = s
keep_with cfg item s (some cb) = record s { retry_queue = add cfg.parse_host s.retry_queue item }

keep_for_retry : CrawlConfig → CrawlQueue → Crawl → Crawl
unfolding keep_with
keep_for_retry cfg item s = keep_with cfg item s s.breaker

-- The match on a finished task's result.
unfoldable pub complete : CrawlConfig → ℕ → CrawlQueue → Crawl → PageResult → Pc × Crawl
unfolding note_failure keep_for_retry
complete cfg now item s success = (at_check, s)
complete cfg now item s needs_retry = (at_check, keep_for_retry cfg item s)
complete cfg now item s (failed_retryable kind) =
    if is_retryable kind && ltb item.retry_count cfg.max_page_retries
    then (
      at_requeue (record item { retry_count = item.retry_count + 1 }),
      record s { visited = discard item.url s.visited },
    )
    else (at_check, note_failure cfg now item.url s)
complete cfg now item s failed_permanent = (at_check, note_failure cfg now item.url s)
complete cfg now item s panicked = (at_check, s)

abbrev pub no_tasks : List Task → Bool
no_tasks [] = true
no_tasks (t ∷ ts) = false

-- The check at the end of the loop.
unfoldable pub is_done : Crawl → Bool
is_done s = (length s.queue == 0) && (len s.retry_queue == 0) && no_tasks s.active_tasks

-- A page task pushes a link that its page has, unless the depth is used up or it was visited.
unfoldable pub discover : CrawlConfig → CrawlQueue → String → Crawl → Crawl
discover cfg item url s =
    let link : CrawlQueue = record { url = url; depth = item.depth + 1; retry_count = 0 } in
    if ltb item.depth cfg.max_depth && not_visited s.visited link
    then record s { queue = s.queue ++ link ∷ [] }
    else s

-- The tasks before and after the one at the split.
pub record Split : Type 0 where
  pub before : List Task
  pub task : Task
  pub after : List Task

-- `active_tasks.next()`: the task leaves, and its result is matched.
unfoldable pub finish : CrawlConfig → ℕ → Crawl → Split → PageResult → Pc × Crawl
finish cfg now s p result =
    complete cfg now p.task.item (record s { active_tasks = p.before ++ p.after }) result

-- One atomic step of the loop, or of one of its running page tasks.
pub data Step (cfg : CrawlConfig) : Pc → Crawl → Pc → Crawl → Type 0 where
  drains : (now : ℕ) (s : Crawl) → Step cfg at_drain s at_fill (drain_phase now s)
  fills : (s s' : Crawl) → fill_one cfg s ≡ continues s' → Step cfg at_fill s at_fill s'
  waits : (s s' : Crawl) → fill_one cfg s ≡ leaves s' → Step cfg at_fill s at_wait s'
  idles : (s : Crawl) → s.active_tasks ≡ [] → Step cfg at_wait s stopped s
  completes :
      (now : ℕ) (s : Crawl) (p : Split) (result : PageResult)
      → s.active_tasks ≡ p.before ++ p.task ∷ p.after
      → Step cfg at_wait s (finish cfg now s p result).0 (finish cfg now s p result).1
  requeues :
      (s : Crawl) (item : CrawlQueue)
      → Step cfg (at_requeue item) s at_check (record s { queue = s.queue ++ item ∷ [] })
  ends : (s : Crawl) → is_done s ≡ true → Step cfg at_check s stopped s
  loops : (s : Crawl) → is_done s ≡ false → Step cfg at_check s at_drain s
  discovers :
      (pc : Pc) (s : Crawl) (p : Split) (url : String)
      → s.active_tasks ≡ p.before ++ p.task ∷ p.after
      → Step cfg pc s pc (discover cfg p.task.item url s)
  counts :
      (pc : Pc) (s : Crawl) (p : Split)
      → s.active_tasks ≡ p.before ++ p.task ∷ p.after
      → p.task.counted ≡ false
      → Step cfg pc s pc (record s {
        total_pages = s.total_pages + 1;
        active_tasks = p.before ++ record { item = p.task.item; counted = true } ∷ p.after;
      })
  calls :
      (pc : Pc) (s : Crawl) (p : Split) (cb : CircuitBreaker) (call : String × HealthCall)
      → s.active_tasks ≡ p.before ++ p.task ∷ p.after
      → s.breaker ≡ some cb
      → Step cfg pc s pc (record s { breaker = some (step cb call) })

pub data Reach (cfg : CrawlConfig) (pc : Pc) (s : Crawl) : Pc → Crawl → Type 0 where
  here : Reach cfg pc s pc s
  next :
      {pc' pc'' : Pc} {s' s'' : Crawl}
      → Reach cfg pc s pc' s'
      → Step cfg pc' s' pc'' s''
      → Reach cfg pc s pc'' s''

-- The start of `crawl_pages`.
unfoldable pub start : String → Option CircuitBreaker → Crawl
start url breaker = record {
  queue = record { url = url; depth = 0; retry_count = 0 } ∷ [];
  visited = [];
  breaker = breaker;
  retry_queue = [];
  total_pages = 0;
  active_tasks = [];
}
