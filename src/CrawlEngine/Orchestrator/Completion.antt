-- ===== src/CrawlEngine/Orchestrator/Completion.antt =====
-- What a finished page task does to the invariant (orchestrator.rs, the match on `PageResult`).
use kodegen_tools_citescrape.Base.{
  All-map, All-append, All-left, All-right, ℕ, String, ◌≡◌, refl, ap, inl, inr, true, false, ◌&&◌,
  Option, none, some, ◌∷◌, ◌++◌, arith, ltb, has, discard, Distinct, has-discard_ne, str_eq, eq_iff,
  Bool-cases,
}
use kodegen_tools_citescrape.CrawlEngine.CircuitBreaker.{CircuitBreaker}
use kodegen_tools_citescrape.CrawlEngine.Failure.{is_retryable}
use kodegen_tools_citescrape.CrawlEngine.RetryQueue.{add}
use kodegen_tools_citescrape.CrawlEngine.RetryQueue.Laws.{all_items}
use kodegen_tools_citescrape.CrawlEngine.RetryQueue.Every.{All-add}
use kodegen_tools_citescrape.CrawlEngine.Orchestrator.Invariant.{Waits, Inv, same-Inv}
use kodegen_tools_citescrape.CrawlEngine.Orchestrator.Urls.{
  urls, AllVisited, urls-append, has-append, Distinct-middle, AllVisited-discard,
}
use kodegen_tools_citescrape.CrawlEngine.Orchestrator.{
  CrawlConfig, Crawl, PageResult, success, needs_retry, failed_permanent, panicked,
  failed_retryable, record_on, keep_with, complete, Split, finish,
}

-- The state without one running task.
module _ (s : Crawl) (p : Split) (split : s.active_tasks ≡ p.before ++ p.task ∷ p.after)
    (i : Inv s) where
  abbrev pub left : Crawl
  left = record s { active_tasks = p.before ++ p.after }

  left_urls :
      Distinct (urls left.active_tasks) × (has p.task.item.url (urls left.active_tasks) ≡ false)
  left_urls =
      let before = urls-append p.before (p.task ∷ p.after) in
      let after = urls-append p.before p.after in
      rw after (
        Distinct-middle p.task.item.url (urls p.before) (urls p.after)
          (rw (split, before) at i.distinct))

  split_visited : AllVisited s.visited (urls p.before ++ p.task.item.url ∷ urls p.after)
  split_visited = rw (split, urls-append p.before (p.task ∷ p.after)) at i.running_visited

  was_visited : has p.task.item.url s.visited ≡ true
  was_visited =
      (All-right (λ u. has u s.visited ≡ true) (urls p.before) (p.task.item.url ∷ urls p.after)
        split_visited).0

  rest_visited : AllVisited s.visited (urls left.active_tasks)
  rest_visited =
      let seen : String → Type 0 = λ u. has u s.visited ≡ true in
      rw (urls-append p.before p.after) (
        All-append seen (urls p.before) (urls p.after)
          (All-left seen (urls p.before) (p.task.item.url ∷ urls p.after) split_visited)
          (All-right seen (urls p.before) (p.task.item.url ∷ urls p.after) split_visited).1)

  has_left :
      (u : String)
      → has u (urls s.active_tasks) ≡ false
      → (has u (urls left.active_tasks) ≡ false) × (str_eq p.task.item.url u ≡ false)
  has_left u h =
      rw (urls-append p.before p.after, has-append u (urls p.before) (urls p.after))
        (ground (
          arith,
          ap (λ ts. has u (urls ts)) split,
          ap (has u) (urls-append p.before (p.task ∷ p.after)),
          has-append u (urls p.before) (p.task.item.url ∷ urls p.after),
        ))

  pub left-Inv : Inv left
  left-Inv = record {
    distinct = left_urls.0;
    running_visited = rest_visited;
    waiting =
        All-map (Waits s.visited (urls s.active_tasks)) (Waits s.visited (urls left.active_tasks))
          (all_items s.retry_queue) (λ x w. (w.0, (has_left x.url w.1).0)) i.waiting;
  }

  -- The finished item may wait for a retry, or leave the visited set.
  pub kept-Inv :
      (cfg : CrawlConfig)
      → Inv (record left { retry_queue = add cfg.parse_host s.retry_queue p.task.item })
  kept-Inv cfg = record {
    distinct = left_urls.0;
    running_visited = rest_visited;
    waiting =
        All-add (Waits s.visited (urls left.active_tasks)) cfg.parse_host s.retry_queue p.task.item
          (was_visited, left_urls.1) left-Inv.waiting;
  }

  pub dropped-Inv : Inv (record left { visited = discard p.task.item.url s.visited })
  dropped-Inv = record {
    distinct = left_urls.0;
    running_visited =
        AllVisited-discard p.task.item.url s.visited (urls left.active_tasks) left_urls.1
          rest_visited;
    waiting =
        All-map (Waits s.visited (urls s.active_tasks))
          (Waits (discard p.task.item.url s.visited) (urls left.active_tasks))
          (all_items s.retry_queue)
          (λ x w. (
            ground (
              arith,
              eq_iff p.task.item.url x.url,
              has_left x.url,
              has-discard_ne p.task.item.url x.url s.visited,
            ),
            (has_left x.url w.1).0,
          ))
          i.waiting;
  }

record_on-Inv :
    (now : ℕ) (s : Crawl) (b : Option CircuitBreaker) (d : Option String)
    → Inv s
    → Inv (record_on now s b d)
unfolding record_on
record_on-Inv now s (some cb) (some d) i =
    same-Inv s (record_on now s (some cb) (some d)) refl refl refl i
record_on-Inv now s (some cb) none i = i
record_on-Inv now s none d i = i

-- Whatever its result, a finished task leaves the invariant.
pub finish-Inv :
    (cfg : CrawlConfig) (now : ℕ) (s : Crawl) (p : Split) (result : PageResult)
    → s.active_tasks ≡ p.before ++ p.task ∷ p.after
    → Inv s
    → Inv (finish cfg now s p result).1
unfolding finish complete
finish-Inv cfg now s p success e i = left-Inv s p e i
finish-Inv cfg now s p panicked e i = left-Inv s p e i
finish-Inv cfg now s p failed_permanent e i = record_on-Inv now _ _ _ (left-Inv s p e i)
finish-Inv cfg now s p needs_retry e i = keep s.breaker
  where
    keep : (b : Option CircuitBreaker) → Inv (keep_with cfg p.task.item (left s p e i) b)
    keep none = left-Inv s p e i
    keep (some cb) = kept-Inv s p e i cfg
finish-Inv cfg now s p (failed_retryable kind) e i =
    elim (Bool-cases (is_retryable kind && ltb p.task.item.retry_count cfg.max_page_retries)) [
      | inl again ↦ rw again (dropped-Inv s p e i)
      | inr over ↦ rw over (record_on-Inv now _ _ _ (left-Inv s p e i))
    ]
