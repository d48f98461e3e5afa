-- ===== src/CrawlEngine/Orchestrator/Bounds.antt =====
-- The limits that every reached state of the crawl respects (orchestrator.rs): retries, depth, pages.
use kodegen_tools_citescrape.Base.{
  All-append, ℕ, ◌+◌, ◌-◌, ◌≤◌, ◌<◌, String, ◌≡◌, refl, sym, ◌∙◌, ap, inl, inr, Bool, false, Option,
  none, some, List, [], ◌∷◌, ◌++◌, arith, All, filter, length, ltb, has, Bool-cases, if◌then◌else◌,
  keys, ltb→lt,
}
use kodegen_tools_citescrape.CrawlEngine.CircuitBreaker.{CircuitBreaker}
use kodegen_tools_citescrape.CrawlEngine.Failure.{CrawlQueue}
use kodegen_tools_citescrape.CrawlEngine.RetryQueue.{extract_domain, ready_domains, drain_ready}
use kodegen_tools_citescrape.CrawlEngine.RetryQueue.Laws.{all_items}
use kodegen_tools_citescrape.CrawlEngine.RetryQueue.Every.{All-take_domains}
use kodegen_tools_citescrape.CrawlEngine.Orchestrator.Invariant.{state_of}
use kodegen_tools_citescrape.CrawlEngine.Orchestrator.{
  CrawlConfig, Task, Crawl, Pc, at_requeue, drain_with, spawn, at_limit, admit, pop, fill_one,
}

-- An item within the configured numbers of retries and links followed.
pub record Fits (cfg : CrawlConfig) (item : CrawlQueue) : Type 0 where
  pub retries : item.retry_count ≤ cfg.max_page_retries
  pub depth : item.depth ≤ cfg.max_depth

abbrev pub TaskFits : CrawlConfig → Task → Type 0
TaskFits cfg t = Fits cfg t.item

-- The tasks that have not counted their page.
abbrev pub uncounted : List Task → ℕ
uncounted [] = 0
uncounted (t ∷ ts) = (if t.counted then 0 else 1) + uncounted ts

-- With a limit, the pages counted and to be counted pass it by less than the concurrency.
abbrev pub Below : Option ℕ → ℕ → ℕ → Type 0
Below none concurrent pages = Unit
Below (some l) concurrent pages = pages ≤ l + concurrent - 1

abbrev pub PagesFit : CrawlConfig → ℕ → List Task → Type 0
PagesFit cfg total tasks = Below cfg.limit cfg.max_concurrent_pages (total + uncounted tasks)

pub below : (o : Option ℕ) (c pages l : ℕ) → Below o c pages → o ≡ some l → pages ≤ l + c - 1
below none c pages l h e = ground arith
below (some k) c pages l h e = ground arith

pub to_below :
    (o : Option ℕ) (c pages : ℕ) → ((l : ℕ) → o ≡ some l → pages ≤ l + c - 1) → Below o c pages
to_below none c pages h = tt
to_below (some l) c pages h = h l refl

pub record Bounded (cfg : CrawlConfig) (s : Crawl) : Type 0 where
  pub queued : All (Fits cfg) s.queue
  pub running : All (TaskFits cfg) s.active_tasks
  pub waiting : All (Fits cfg) (all_items s.retry_queue)
  pub pages : PagesFit cfg s.total_pages s.active_tasks

abbrev pub PcFits : CrawlConfig → Pc → Type 0
PcFits cfg (at_requeue item) = Fits cfg item
PcFits cfg _ = Unit

All-filter :
    (P : CrawlQueue → Type 0) (p : CrawlQueue → Bool) (xs : List CrawlQueue)
    → All P xs
    → All P (filter p xs)
All-filter P p [] h = tt
All-filter P p (x ∷ xs) h = ground (arith, All-filter P p xs h.1)

pub uncounted-append : (xs ys : List Task) → uncounted (xs ++ ys) ≡ uncounted xs + uncounted ys
uncounted-append [] ys = omega arith
uncounted-append (t ∷ ts) ys = omega (arith, uncounted-append ts ys)

uncounted-le-length : (xs : List Task) → uncounted xs ≤ length xs
uncounted-le-length [] = omega arith
uncounted-le-length (t ∷ ts) = ground (arith, uncounted-le-length ts)

pub drain_with-Bounded :
    (cfg : CrawlConfig) (now : ℕ) (s : Crawl) (b : Option CircuitBreaker)
    → Bounded cfg s
    → Bounded cfg (drain_with now s b)
unfolding drain_with drain_ready
drain_with-Bounded cfg now s none v = v
drain_with-Bounded cfg now s (some cb) v =
    let ds = (ready_domains cb now (keys s.retry_queue)).1 in
    let (ready, rest) = All-take_domains (Fits cfg) ds s.retry_queue v.waiting in
    record {
      queued = All-append (Fits cfg) s.queue _ v.queued (All-filter (Fits cfg) _ _ ready);
      running = v.running;
      waiting = rest;
      pages = v.pages;
    }

below_limit : (l total : ℕ) → at_limit (some l) total ≡ false → total < l
below_limit l total h = ground arith

spawn-Bounded :
    (cfg : CrawlConfig) (s : Crawl) (item : CrawlQueue) (d : Option String)
    → at_limit cfg.limit s.total_pages ≡ false
    → length s.active_tasks < cfg.max_concurrent_pages
    → Fits cfg item
    → Bounded cfg s
    → Bounded cfg (spawn s item d)
unfolding spawn
spawn-Bounded cfg s item none room free f v = v
spawn-Bounded cfg s item (some domain) room free f v = record {
  queued = v.queued;
  running = All-append (TaskFits cfg) s.active_tasks _ v.running (f, tt);
  waiting = v.waiting;
  pages = to_below cfg.limit _ _ (λ l e.
      let t : Task = record { item = item; counted = false } in
      let free_now = uncounted-le-length s.active_tasks in
      let left = below_limit l s.total_pages (ap (λ o. at_limit o s.total_pages) (sym e) ∙ room) in
      omega (arith, uncounted-append s.active_tasks (t ∷ []), free, free_now, left));
}

admit-Bounded :
    (cfg : CrawlConfig) (s : Crawl) (item : CrawlQueue)
    → length s.active_tasks < cfg.max_concurrent_pages
    → Fits cfg item
    → Bounded cfg s
    → Bounded cfg (state_of (admit cfg s item))
unfolding admit
admit-Bounded cfg s item free f v = elim (Bool-cases (at_limit cfg.limit s.total_pages)) [
  | inl full ↦ rw full v
  | inr room ↦ elim (Bool-cases (has item.url s.visited)) [
    | inl seen ↦ rw (room, seen) v
    | inr fresh ↦
        let marked = record s { visited = item.url ∷ s.visited } in
        let mv : Bounded cfg marked = record {
          queued = v.queued;
          running = v.running;
          waiting = v.waiting;
          pages = v.pages;
        } in
        rw (room, fresh)
          (spawn-Bounded cfg marked item (extract_domain cfg.parse_host item.url) room free f mv)
  ]
]

pop-Bounded :
    (cfg : CrawlConfig) (s : Crawl) (xs : List CrawlQueue)
    → length s.active_tasks < cfg.max_concurrent_pages
    → All (Fits cfg) xs
    → Bounded cfg s
    → Bounded cfg (state_of (pop cfg s xs))
unfolding pop
pop-Bounded cfg s [] free f v = v
pop-Bounded cfg s (x ∷ xs) free f v =
    admit-Bounded cfg (record s { queue = xs }) x free f.0
      (record { queued = f.1; running = v.running; waiting = v.waiting; pages = v.pages })

pub fill_one-Bounded :
    (cfg : CrawlConfig) (s : Crawl) → Bounded cfg s → Bounded cfg (state_of (fill_one cfg s))
unfolding fill_one
fill_one-Bounded cfg s v =
    elim (Bool-cases (ltb (length s.active_tasks) cfg.max_concurrent_pages)) [
      | inl room ↦ rw room (pop-Bounded cfg s s.queue (ltb→lt _ _ room) v.queued v)
      | inr full ↦ rw full v
    ]
