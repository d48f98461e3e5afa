-- ===== src/CrawlEngine/Orchestrator/Invariant.antt =====
-- Which URLs are in flight, kept for a retry and visited (orchestrator.rs).
use mathlib.Core.List.{append-nil}
use kodegen_tools_citescrape.Base.{
  All-map, All-append, ℕ, String, ◌≡◌, refl, inl, inr, true, false, Option, none, some, List, [],
  ◌∷◌, ◌++◌, arith, All, filter, length, ltb, has, Distinct, eq_iff, Bool-cases, keys,
}
use kodegen_tools_citescrape.CrawlEngine.CircuitBreaker.{CircuitBreaker}
use kodegen_tools_citescrape.CrawlEngine.Failure.{CrawlQueue}
use kodegen_tools_citescrape.CrawlEngine.RetryQueue.{
  extract_domain, take_domains, ready_domains, drain_ready,
}
use kodegen_tools_citescrape.CrawlEngine.RetryQueue.Laws.{all_items}
use kodegen_tools_citescrape.CrawlEngine.RetryQueue.Every.{All-take_domains}
use kodegen_tools_citescrape.CrawlEngine.Orchestrator.Urls.{
  urls, AllVisited, urls-append, has-append, Distinct-snoc, not_in_running, AllVisited-cons,
}
use kodegen_tools_citescrape.CrawlEngine.Orchestrator.{
  CrawlConfig, Task, Crawl, not_visited, drain_with, drain_phase, Fill, continues, leaves, spawn,
  at_limit, admit, pop, fill_one,
}

-- An item that waits for its circuit: visited, and in no running task.
abbrev pub Waits : List String → List String → CrawlQueue → Type 0
Waits visited running item = (has item.url visited ≡ true) × (has item.url running ≡ false)

pub record Inv (s : Crawl) : Type 0 where
  pub distinct : Distinct (urls s.active_tasks)
  pub running_visited : AllVisited s.visited (urls s.active_tasks)
  pub waiting : All (Waits s.visited (urls s.active_tasks)) (all_items s.retry_queue)

-- Only the queue, the counter or the breaker changes.
pub same-Inv :
    (s s' : Crawl)
    → urls s'.active_tasks ≡ urls s.active_tasks
    → s'.visited ≡ s.visited
    → s'.retry_queue ≡ s.retry_queue
    → Inv s
    → Inv s'
same-Inv s s' a v r i = record {
  distinct = rw a i.distinct;
  running_visited = rw (a, v) i.running_visited;
  waiting = rw (a, v, r) i.waiting;
}

filter_waiting :
    (visited running : List String) (xs : List CrawlQueue)
    → All (Waits visited running) xs
    → filter (not_visited visited) xs ≡ []
filter_waiting visited running [] h = refl
filter_waiting visited running (x ∷ xs) h = ground (arith, filter_waiting visited running xs h.1)

drain_with_lem :
    (now : ℕ) (s : Crawl) (b : Option CircuitBreaker)
    → Inv s
    → Inv (drain_with now s b)
      × ((drain_with now s b).queue ≡ s.queue)
      × ((drain_with now s b).active_tasks ≡ s.active_tasks)
unfolding drain_with drain_ready
drain_with_lem now s none i = (i, refl, refl)
drain_with_lem now s (some cb) i =
    let ds = (ready_domains cb now (keys s.retry_queue)).1 in
    let (ready, rest) =
      All-take_domains (Waits s.visited (urls s.active_tasks)) ds s.retry_queue i.waiting in
    let dropped =
      filter_waiting s.visited (urls s.active_tasks) (take_domains ds s.retry_queue).0 ready in
    (
      record { distinct = i.distinct; running_visited = i.running_visited; waiting = rest },
      rw dropped (append-nil s.queue),
      refl,
    )

pub drain_phase_lem :
    (now : ℕ) (s : Crawl)
    → Inv s
    → Inv (drain_phase now s)
      × ((drain_phase now s).queue ≡ s.queue)
      × ((drain_phase now s).active_tasks ≡ s.active_tasks)
unfolding drain_phase
drain_phase_lem now s i = drain_with_lem now s s.breaker i

spawn-Inv :
    (s : Crawl) (item : CrawlQueue) (d : Option String)
    → has item.url s.visited ≡ false
    → Inv s
    → Inv (spawn (record s { visited = item.url ∷ s.visited }) item d)
unfolding spawn
spawn-Inv s item none fresh i = record {
  distinct = i.distinct;
  running_visited = AllVisited-cons item.url s.visited (urls s.active_tasks) i.running_visited;
  waiting =
      All-map (Waits s.visited (urls s.active_tasks))
        (Waits (item.url ∷ s.visited) (urls s.active_tasks)) (all_items s.retry_queue)
        (λ x w. (ground arith, w.1)) i.waiting;
}
spawn-Inv s item (some domain) fresh i =
    let task : Task = record { item = item; counted = false } in
    let running = urls-append s.active_tasks (task ∷ []) in
    let unseen = not_in_running item.url s.visited (urls s.active_tasks) i.running_visited fresh in
    record {
      distinct = rw running (Distinct-snoc item.url (urls s.active_tasks) i.distinct unseen);
      running_visited = rw running (
          All-append (λ u. has u (item.url ∷ s.visited) ≡ true) (urls s.active_tasks)
            (item.url ∷ [])
            (AllVisited-cons item.url s.visited (urls s.active_tasks) i.running_visited)
            (ground (arith, eq_iff item.url item.url), tt));
      waiting = rw running (
          All-map (Waits s.visited (urls s.active_tasks))
            (Waits (item.url ∷ s.visited) (urls s.active_tasks ++ item.url ∷ []))
            (all_items s.retry_queue)
            (λ x w. (
              ground arith,
              ground (
                arith,
                eq_iff item.url x.url,
                has-append x.url (urls s.active_tasks) (item.url ∷ []),
              ),
            ))
            i.waiting);
    }

abbrev pub state_of : Fill → Crawl
state_of (continues s) = s
state_of (leaves s) = s

admit-Inv :
    (cfg : CrawlConfig) (s : Crawl) (item : CrawlQueue) → Inv s → Inv (state_of (admit cfg s item))
unfolding admit
admit-Inv cfg s item i = elim (Bool-cases (at_limit cfg.limit s.total_pages)) [
  | inl full ↦ rw full i
  | inr room ↦ elim (Bool-cases (has item.url s.visited)) [
    | inl seen ↦ rw (room, seen) i
    | inr fresh ↦
        rw (room, fresh) (spawn-Inv s item (extract_domain cfg.parse_host item.url) fresh i)
  ]
]

pop-Inv :
    (cfg : CrawlConfig) (s : Crawl) (xs : List CrawlQueue) → Inv s → Inv (state_of (pop cfg s xs))
unfolding pop
pop-Inv cfg s [] i = i
pop-Inv cfg s (x ∷ xs) i =
    admit-Inv cfg (record s { queue = xs }) x
      (same-Inv s (record s { queue = xs }) refl refl refl i)

pub fill_one-Inv : (cfg : CrawlConfig) (s : Crawl) → Inv s → Inv (state_of (fill_one cfg s))
unfolding fill_one
fill_one-Inv cfg s i = elim (Bool-cases (ltb (length s.active_tasks) cfg.max_concurrent_pages)) [
  | inl room ↦ rw room (pop-Inv cfg s s.queue i)
  | inr full ↦ rw full i
]
