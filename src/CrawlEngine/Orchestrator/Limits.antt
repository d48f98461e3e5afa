-- ===== src/CrawlEngine/Orchestrator/Limits.antt =====
-- The limits of Bounds hold in every state that a crawl reaches (orchestrator.rs).
use kodegen_tools_citescrape.Base.{
  All-append, All-left, All-right, ℕ, ◌+◌, ◌≤◌, String, ◌≡◌, ap, subst, inl, inr, true, false, not,
  ◌&&◌, Option, none, some, [], ◌∷◌, ◌++◌, arith, All, has, ltb, Bool-cases,
}
use kodegen_tools_citescrape.CrawlEngine.CircuitBreaker.{CircuitBreaker}
use kodegen_tools_citescrape.CrawlEngine.Failure.{CrawlQueue, is_retryable}
use kodegen_tools_citescrape.CrawlEngine.RetryQueue.Every.{All-add}
use kodegen_tools_citescrape.CrawlEngine.Orchestrator.Invariant.{state_of}
use kodegen_tools_citescrape.CrawlEngine.Orchestrator.Bounds.{
  Fits, TaskFits, uncounted, Bounded, PcFits, below, to_below, uncounted-append, drain_with-Bounded,
  fill_one-Bounded,
}
use kodegen_tools_citescrape.CrawlEngine.Orchestrator.{
  CrawlConfig, Task, Crawl, Pc, at_drain, drain_phase, PageResult, success, needs_retry,
  failed_permanent, panicked, failed_retryable, record_on, keep_with, complete, discover, Split,
  finish, Step, drains, fills, waits, idles, completes, requeues, ends, loops, discovers, counts,
  calls, Reach, here, next, start,
}

module _ (cfg : CrawlConfig) where
  record_on-Bounded :
      (now : ℕ) (s : Crawl) (b : Option CircuitBreaker) (d : Option String)
      → Bounded cfg s
      → Bounded cfg (record_on now s b d)
  unfolding record_on
  record_on-Bounded now s (some cb) (some d) v = record {
    queued = v.queued;
    running = v.running;
    waiting = v.waiting;
    pages = v.pages;
  }
  record_on-Bounded now s (some cb) none v = v
  record_on-Bounded now s none d v = v

  keep_with-Bounded :
      (item : CrawlQueue) (s : Crawl) (b : Option CircuitBreaker)
      → Fits cfg item
      → Bounded cfg s
      → Bounded cfg (keep_with cfg item s b)
  unfolding keep_with
  keep_with-Bounded item s none f v = v
  keep_with-Bounded item s (some cb) f v = record {
    queued = v.queued;
    running = v.running;
    waiting = All-add (Fits cfg) cfg.parse_host s.retry_queue item f v.waiting;
    pages = v.pages;
  }

  complete-Bounded :
      (now : ℕ) (item : CrawlQueue) (s : Crawl) (result : PageResult)
      → Fits cfg item
      → Bounded cfg s
      → PcFits cfg (complete cfg now item s result).0
        × Bounded cfg (complete cfg now item s result).1
  unfolding complete
  complete-Bounded now item s success f v = (tt, v)
  complete-Bounded now item s panicked f v = (tt, v)
  complete-Bounded now item s failed_permanent f v = (tt, record_on-Bounded now s _ _ v)
  complete-Bounded now item s needs_retry f v = (tt, keep_with-Bounded item s s.breaker f v)
  complete-Bounded now item s (failed_retryable kind) f v =
      elim (Bool-cases (is_retryable kind && ltb item.retry_count cfg.max_page_retries)) [
        | inl again ↦
            let more : item.retry_count + 1 ≤ cfg.max_page_retries = ground arith in
            let fv : Fits cfg (record item { retry_count = item.retry_count + 1 }) = record {
              retries = more;
              depth = f.depth;
            } in
            rw again (
              fv,
              record {
                queued = v.queued;
                running = v.running;
                waiting = v.waiting;
                pages = v.pages;
              },
            )
        | inr over ↦ rw over (tt, record_on-Bounded now s _ _ v)
      ]

  module _ (s : Crawl) (p : Split) (split : s.active_tasks ≡ p.before ++ p.task ∷ p.after)
      (v : Bounded cfg s) where
    tasks : All (TaskFits cfg) (p.before ++ p.task ∷ p.after)
    tasks = subst (All (TaskFits cfg)) split v.running

    task_fits : Fits cfg p.task.item
    task_fits = (All-right (TaskFits cfg) p.before (p.task ∷ p.after) tasks).0

    before_fit : All (TaskFits cfg) p.before
    before_fit = All-left (TaskFits cfg) p.before (p.task ∷ p.after) tasks

    after_fit : All (TaskFits cfg) p.after
    after_fit = (All-right (TaskFits cfg) p.before (p.task ∷ p.after) tasks).1

    finish-Bounded :
        (now : ℕ) (result : PageResult)
        → PcFits cfg (finish cfg now s p result).0 × Bounded cfg (finish cfg now s p result).1
    unfolding finish
    finish-Bounded now result = complete-Bounded now p.task.item _ result task_fits (record {
      queued = v.queued;
      running = All-append (TaskFits cfg) p.before p.after before_fit after_fit;
      waiting = v.waiting;
      pages = to_below cfg.limit _ _ (λ l e. omega (
        arith,
        below cfg.limit _ _ l v.pages e,
        ap uncounted split,
        uncounted-append p.before (p.task ∷ p.after),
        uncounted-append p.before p.after,
      ));
    })

    counts-Bounded :
        p.task.counted ≡ false
        → Bounded cfg (record s {
          total_pages = s.total_pages + 1;
          active_tasks = p.before ++ record { item = p.task.item; counted = true } ∷ p.after;
        })
    counts-Bounded fresh =
        let done : Task = record { item = p.task.item; counted = true } in
        record {
          queued = v.queued;
          running = All-append (TaskFits cfg) p.before _ before_fit (task_fits, after_fit);
          waiting = v.waiting;
          pages = to_below cfg.limit _ _ (λ l e. ground (
            arith,
            below cfg.limit _ _ l v.pages e,
            ap uncounted split,
            uncounted-append p.before (p.task ∷ p.after),
            uncounted-append p.before (done ∷ p.after),
          ));
        }

    discover-Bounded : (url : String) → Bounded cfg (discover cfg p.task.item url s)
    unfolding discover
    discover-Bounded url =
        let item = p.task.item in
        elim (Bool-cases (ltb item.depth cfg.max_depth && not (has url s.visited))) [
          | inl new ↦
              let deeper : item.depth + 1 ≤ cfg.max_depth = ground arith in
              let link : CrawlQueue = record {
                url = url;
                depth = item.depth + 1;
                retry_count = 0;
              } in
              let fits : Fits cfg link = record { retries = omega arith; depth = deeper } in
              rw new (record {
                queued = All-append (Fits cfg) s.queue (link ∷ []) v.queued (fits, tt);
                running = v.running;
                waiting = v.waiting;
                pages = v.pages;
              })
          | inr old ↦ rw old v
        ]

  step-Bounded :
      {pc : Pc} {s : Crawl} {pc' : Pc} {s' : Crawl}
      → Step cfg pc s pc' s'
      → PcFits cfg pc × Bounded cfg s
      → PcFits cfg pc' × Bounded cfg s'
  unfolding drain_phase
  step-Bounded (drains now s) (f, v) = (tt, drain_with-Bounded cfg now s s.breaker v)
  step-Bounded (fills s s' e) (f, v) =
      (tt, subst (λ r. Bounded cfg (state_of r)) e (fill_one-Bounded cfg s v))
  step-Bounded (waits s s' e) (f, v) =
      (tt, subst (λ r. Bounded cfg (state_of r)) e (fill_one-Bounded cfg s v))
  step-Bounded (idles s e) (f, v) = (tt, v)
  step-Bounded (completes now s p result e) (f, v) = finish-Bounded s p e v now result
  step-Bounded (requeues s item) (f, v) = (
    tt,
    record {
      queued = All-append (Fits cfg) s.queue (item ∷ []) v.queued (f, tt);
      running = v.running;
      waiting = v.waiting;
      pages = v.pages;
    },
  )
  step-Bounded (ends s e) (f, v) = (tt, v)
  step-Bounded (loops s e) (f, v) = (tt, v)
  step-Bounded (discovers pc s p url e) (f, v) = (f, discover-Bounded s p e v url)
  step-Bounded (counts pc s p e c) (f, v) = (f, counts-Bounded s p e v c)
  step-Bounded (calls pc s p cb call e b) (f, v) =
      (f, record { queued = v.queued; running = v.running; waiting = v.waiting; pages = v.pages })

  start-Bounded : (url : String) (b : Option CircuitBreaker) → Bounded cfg (start url b)
  unfolding start
  start-Bounded url b = record {
    queued = (record { retries = omega arith; depth = omega arith }, tt);
    running = tt;
    waiting = tt;
    pages = to_below cfg.limit _ _ (λ l e. omega arith);
  }

  Reach-from_start :
      (url : String) (b : Option CircuitBreaker) {pc : Pc} {s : Crawl}
      → Reach cfg at_drain (start url b) pc s
      → PcFits cfg pc × Bounded cfg s
  Reach-from_start url b here = (tt, start-Bounded url b)
  Reach-from_start url b (next r st) = step-Bounded st (Reach-from_start url b r)

-- In every state that a crawl reaches, each item that is queued, in process or waiting for its
-- circuit has been retried at most `max_page_retries` times and lies at most `max_depth` links
-- from the start; and with a page limit, the pages counted and those that running tasks have yet
-- to count together exceed the limit by less than the number of concurrent pages.
pub Reach-Bounded :
    (cfg : CrawlConfig) (url : String) (b : Option CircuitBreaker) {pc : Pc} {s : Crawl}
    → Reach cfg at_drain (start url b) pc s
    → Bounded cfg s
Reach-Bounded cfg url b r = (Reach-from_start cfg url b r).1
