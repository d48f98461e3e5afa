-- ===== src/CrawlEngine/Orchestrator/Safety.antt =====
-- What holds of every state that the crawl loop reaches (orchestrator.rs), and what becomes of the
-- items that wait for their circuit.
use kodegen_tools_citescrape.Base.{
  ℕ, String, ◌≡◌, refl, sym, ◌∙◌, subst, ap, inl, inr, true, not, ◌&&◌, Option, none, some, List,
  [], ◌∷◌, ◌++◌, length, ltb, has, Bool-cases,
}
use kodegen_tools_citescrape.CrawlEngine.CircuitBreaker.{CircuitBreaker}
use kodegen_tools_citescrape.CrawlEngine.Failure.{CrawlQueue}
use kodegen_tools_citescrape.CrawlEngine.Orchestrator.Invariant.{
  Inv, same-Inv, state_of, fill_one-Inv, drain_phase_lem,
}
use kodegen_tools_citescrape.CrawlEngine.Orchestrator.Completion.{finish-Inv}
use kodegen_tools_citescrape.CrawlEngine.Orchestrator.Urls.{urls}
use kodegen_tools_citescrape.CrawlEngine.Orchestrator.{
  CrawlConfig, Task, Crawl, Pc, at_drain, stopped, drain_with, drain_phase, leaves, pop, fill_one,
  discover, Step, drains, fills, waits, idles, completes, requeues, ends, loops, discovers, counts,
  calls, Reach, here, next, start,
}

-- The URLs of the tasks stay what they are where a task counts its page.
urls-mark :
    (before after : List Task) (task : Task)
    → urls (before ++ record { item = task.item; counted = true } ∷ after)
      ≡ urls (before ++ task ∷ after)
urls-mark [] after task = refl
urls-mark (t ∷ ts) after task = ap (λ us. t.item.url ∷ us) (urls-mark ts after task)

discover-Inv :
    (cfg : CrawlConfig) (item : CrawlQueue) (url : String) (s : Crawl)
    → Inv s
    → Inv (discover cfg item url s)
unfolding discover
discover-Inv cfg item url s i =
    elim (Bool-cases (ltb item.depth cfg.max_depth && not (has url s.visited))) [
      | inl new ↦ rw new (same-Inv s _ refl refl refl i)
      | inr old ↦ rw old i
    ]

step-Inv :
    (cfg : CrawlConfig) {pc : Pc} {s : Crawl} {pc' : Pc} {s' : Crawl}
    → Step cfg pc s pc' s'
    → Inv s
    → Inv s'
step-Inv cfg (drains now s) i = (drain_phase_lem now s i).0
step-Inv cfg (fills s s' e) i = subst (λ f. Inv (state_of f)) e (fill_one-Inv cfg s i)
step-Inv cfg (waits s s' e) i = subst (λ f. Inv (state_of f)) e (fill_one-Inv cfg s i)
step-Inv cfg (idles s e) i = i
step-Inv cfg (completes now s p result e) i = finish-Inv cfg now s p result e i
step-Inv cfg (requeues s item) i = same-Inv s _ refl refl refl i
step-Inv cfg (ends s e) i = i
step-Inv cfg (loops s e) i = i
step-Inv cfg (discovers pc s p url e) i = discover-Inv cfg p.task.item url s i
step-Inv cfg (counts pc s p e c) i =
    same-Inv s _ (urls-mark p.before p.after p.task ∙ ap urls (sym e)) refl refl i
step-Inv cfg (calls pc s p cb call e b) i = same-Inv s _ refl refl refl i

start-Inv : (url : String) (b : Option CircuitBreaker) → Inv (start url b)
unfolding start
start-Inv url b = record { distinct = tt; running_visited = tt; waiting = tt }

-- In every state that a crawl reaches, no URL is being processed by two tasks at once, every URL
-- in process has been marked as visited, and every item that waits for its circuit is of a URL
-- that is still marked and that no task is processing.
pub Reach-Inv :
    (cfg : CrawlConfig) (url : String) (b : Option CircuitBreaker) {pc : Pc} {s : Crawl}
    → Reach cfg at_drain (start url b) pc s
    → Inv s
Reach-Inv cfg url b here = start-Inv url b
Reach-Inv cfg url b (next r st) = step-Inv cfg st (Reach-Inv cfg url b r)

-- In every state that a crawl reaches, the check of the retry queue puts nothing back into the
-- crawl queue, whatever the circuits allow: the items that it takes out are lost.
pub drain_requeues_nothing :
    (cfg : CrawlConfig) (url : String) (b : Option CircuitBreaker) {pc : Pc} {s : Crawl} (now : ℕ)
    → Reach cfg at_drain (start url b) pc s
    → (drain_phase now s).queue ≡ s.queue
drain_requeues_nothing cfg url b {s = s} now r = (drain_phase_lem now s (Reach-Inv cfg url b r)).1

fill_empty :
    (cfg : CrawlConfig) (s : Crawl) (xs : List CrawlQueue) → xs ≡ [] → pop cfg s xs ≡ leaves s
unfolding pop
fill_empty cfg s [] e = refl
fill_empty cfg s (x ∷ xs) e = cc

fill_one_empty : (cfg : CrawlConfig) (s : Crawl) → s.queue ≡ [] → fill_one cfg s ≡ leaves s
unfolding fill_one
fill_one_empty cfg s e = elim (Bool-cases (ltb (length s.active_tasks) cfg.max_concurrent_pages)) [
  | inl room ↦ rw room (fill_empty cfg s s.queue e)
  | inr full ↦ rw full
]

same_pages :
    (now : ℕ) (s : Crawl) (b : Option CircuitBreaker)
    → (drain_with now s b).total_pages ≡ s.total_pages
unfolding drain_with
same_pages now s none = refl
same_pages now s (some cb) = refl

-- Once no item is queued and no task runs, the loop stops at its next turn, without crawling any
-- of the items that wait for their circuit.
pub stops_with_items_waiting :
    (cfg : CrawlConfig) (url : String) (b : Option CircuitBreaker) (s : Crawl) (now : ℕ)
    → Reach cfg at_drain (start url b) at_drain s
    → s.queue ≡ []
    → s.active_tasks ≡ []
    → Reach cfg at_drain s stopped (drain_phase now s)
      × ((drain_phase now s).total_pages ≡ s.total_pages)
unfolding drain_phase
stops_with_items_waiting cfg url b s now r q a =
    let (_, same_queue, same_tasks) = drain_phase_lem now s (Reach-Inv cfg url b r) in
    let d = drain_phase now s in
    (
      next (next (next here (drains now s)) (waits d d (fill_one_empty cfg d (same_queue ∙ q))))
          (idles d (same_tasks ∙ a)),
      same_pages now s s.breaker,
    )
