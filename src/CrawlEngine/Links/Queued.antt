-- ===== src/CrawlEngine/Links/Queued.antt =====
-- Which links a page adds to the crawl queue (page_processor.rs).
use mathlib.Core.List.{append_assoc, append-nil}
use kodegen_tools_citescrape.Base.{
  ℕ, suc, ◌+◌, String, eq_iff, ◌≡◌, refl, sym, ap, ◌∙◌, ◌⊎◌, inl, inr, Bool, true, false, List, [],
  ◌∷◌, ◌++◌, arith, All, Distinct, filter, length, has, ltb, if◌then◌else◌, Bool-cases,
}
use kodegen_tools_citescrape.CrawlEngine.Failure.{CrawlQueue}
use kodegen_tools_citescrape.CrawlEngine.Orchestrator.{CrawlConfig, Crawl, not_visited, discover}
use kodegen_tools_citescrape.CrawlEngine.Links.{batch_loop, new_links, push_links}

abbrev pub link_urls : List CrawlQueue → List String
link_urls [] = []
link_urls (l ∷ ls) = l.url ∷ link_urls ls

-- The links that a batch yields, without the accumulators: those normalized texts that parse and
-- were not seen before in it.
fresh : (String → String) → (String → Bool) → ℕ → List String → List String → List CrawlQueue
fresh norm parses depth [] seen = []
fresh norm parses depth (u ∷ us) seen =
    let link : CrawlQueue = record { url = norm u; depth = depth + 1; retry_count = 0 } in
    let later = fresh norm parses depth us (norm u ∷ seen) in
    let again = fresh norm parses depth us seen in
    if has (norm u) seen then again else if parses (norm u) then link ∷ later else later

batch_loop-fresh :
    (norm : String → String) (parses : String → Bool) (depth : ℕ) (us seen : List String)
    (results : List CrawlQueue)
    → batch_loop norm parses depth us seen results ≡ results ++ fresh norm parses depth us seen
unfolding batch_loop fresh
batch_loop-fresh norm parses depth [] seen results = sym (append-nil results)
batch_loop-fresh norm parses depth (u ∷ us) seen results =
    let link : CrawlQueue = record { url = norm u; depth = depth + 1; retry_count = 0 } in
    ground (
      arith,
      batch_loop-fresh norm parses depth us seen results,
      batch_loop-fresh norm parses depth us (norm u ∷ seen) results,
      batch_loop-fresh norm parses depth us (norm u ∷ seen) (results ++ link ∷ []),
      append_assoc results (link ∷ []) (fresh norm parses depth us (norm u ∷ seen)),
    )

-- A link of the batch: it parses, is one deeper than its page, and was not seen before the batch.
abbrev FreshLink : (String → Bool) → ℕ → List String → CrawlQueue → Type 0
FreshLink parses depth seen l =
    (parses l.url ≡ true) × (l.depth ≡ depth + 1) × (l.retry_count ≡ 0) × (has l.url seen ≡ false)

fresh_links :
    (norm : String → String) (parses : String → Bool) (depth : ℕ) (us seen : List String)
    → All (FreshLink parses depth seen) (fresh norm parses depth us seen)
      × Distinct (link_urls (fresh norm parses depth us seen))
unfolding fresh
fresh_links norm parses depth [] seen = (tt, tt)
fresh_links norm parses depth (u ∷ us) seen = elim (Bool-cases (has (norm u) seen)) [
  | inl again ↦ rw again (fresh_links norm parses depth us seen)
  | inr new ↦
      let (all, distinct) = fresh_links norm parses depth us (norm u ∷ seen) in
      let weaker = unsee (norm u) (fresh norm parses depth us (norm u ∷ seen)) all in
      elim (Bool-cases (parses (norm u))) [
        | inl good ↦
            rw (new, good)
              (
                ((good, refl, refl, new), weaker),
                (absent (norm u) (fresh norm parses depth us (norm u ∷ seen)) all, distinct),
              )
        | inr bad ↦ rw (new, bad) (weaker, distinct)
      ]
]
  where
    unsee :
        (v : String) (ls : List CrawlQueue)
        → All (FreshLink parses depth (v ∷ seen)) ls
        → All (FreshLink parses depth seen) ls
    unsee v [] a = tt
    unsee v (l ∷ ls) a = ((a.0.0, a.0.1, a.0.2, ground (arith, a.0.3)), unsee v ls a.1)

    absent :
        (v : String) (ls : List CrawlQueue)
        → All (FreshLink parses depth (v ∷ seen)) ls
        → has v (link_urls ls) ≡ false
    absent v [] a = refl
    absent v (l ∷ ls) a = ground (arith, eq_iff v l.url, eq_iff l.url v, a.0.3, absent v ls a.1)

-- Where the page's depth is below the limit: the links of a batch parse, are one deeper than the
-- page, have not been retried, and no two of them have the same URL.
abbrev pub BatchLink : (String → Bool) → CrawlQueue → CrawlQueue → Type 0
BatchLink parses item l = (parses l.url ≡ true) × (l.depth ≡ item.depth + 1) × (l.retry_count ≡ 0)

weaken :
    (parses : String → Bool) (item : CrawlQueue) (seen : List String) (ls : List CrawlQueue)
    → All (FreshLink parses item.depth seen) ls
    → All (BatchLink parses item) ls
weaken parses item seen [] a = tt
weaken parses item seen (l ∷ ls) a = ((a.0.0, a.0.1, a.0.2), weaken parses item seen ls a.1)

-- The links of a page have URLs that parse, all different, are one deeper than the page and have
-- not been retried; a page at the depth limit has none.
pub new_links_lem :
    (norm : String → String) (parses : String → Bool) (max_depth : ℕ) (item : CrawlQueue)
    (urls : List String)
    → All (BatchLink parses item) (new_links norm parses max_depth item urls)
      × Distinct (link_urls (new_links norm parses max_depth item urls))
      × ((ltb item.depth max_depth ≡ true) ⊎ (new_links norm parses max_depth item urls ≡ []))
unfolding new_links
new_links_lem norm parses max_depth item urls = elim (Bool-cases (ltb item.depth max_depth)) [
  | inl below ↦
      let (all, distinct) = fresh_links norm parses item.depth urls [] in
      rw (below, batch_loop-fresh norm parses item.depth urls [] [])
        (weaken parses item [] (fresh norm parses item.depth urls []) all, distinct, inl refl)
  | inr limit ↦ rw limit (tt, tt, inr refl)
]

push_links-filter :
    (visited : List String) (ls q : List CrawlQueue) (n : ℕ)
    → push_links visited ls (q, n)
      ≡ (q ++ filter (not_visited visited) ls, n + length (filter (not_visited visited) ls))
unfolding push_links
push_links-filter visited [] q n =
    let same : n + 0 ≡ n = omega arith in rw (append-nil q, same) refl
push_links-filter visited (l ∷ ls) q n = elim (Bool-cases (not_visited visited l)) [
  | inl new ↦
      let rest = length (filter (not_visited visited) ls) in
      let count : n + 1 + rest ≡ n + suc rest = omega arith in
      let moved = append_assoc q (l ∷ []) (filter (not_visited visited) ls) in
      rw new (push_links-filter visited ls (q ++ l ∷ []) (n + 1) ∙ rw (moved, count) refl)
  | inr old ↦ rw old (push_links-filter visited ls q n)
]

-- The links discovered one after the other, as the crawl's steps have it.
abbrev pub discover_all : CrawlConfig → CrawlQueue → List String → Crawl → Crawl
discover_all cfg item [] s = s
discover_all cfg item (u ∷ us) s = discover_all cfg item us (discover cfg item u s)

abbrev Pushed : CrawlConfig → CrawlQueue → Crawl → List CrawlQueue → Type 0
Pushed cfg item s ls =
    (n : ℕ)
    → (discover_all cfg item (link_urls ls) s).queue ≡ (push_links s.visited ls (s.queue, n)).0

discover_one :
    (cfg : CrawlConfig) (item : CrawlQueue) (s : Crawl) (l : CrawlQueue)
    → ltb item.depth cfg.max_depth ≡ true
    → l.depth ≡ item.depth + 1
    → l.retry_count ≡ 0
    → discover cfg item l.url s
      ≡ (if not_visited s.visited l then record s { queue = s.queue ++ l ∷ [] } else s)
unfolding discover
discover_one cfg item s l below d r = rw (below, sym d, sym r) refl

pushed :
    (cfg : CrawlConfig) (item : CrawlQueue) (s : Crawl) (parses : String → Bool)
    (ls : List CrawlQueue)
    → ltb item.depth cfg.max_depth ≡ true
    → All (BatchLink parses item) ls
    → Pushed cfg item s ls
unfolding push_links
pushed cfg item s parses [] below a n = refl
pushed cfg item s parses (l ∷ ls) below a n =
    let one = discover_one cfg item s l below a.0.1 a.0.2 in
    elim (Bool-cases (not_visited s.visited l)) [
      | inl new ↦
          let s' = record s { queue = s.queue ++ l ∷ [] } in
          ap (λ x. (discover_all cfg item (link_urls ls) x).queue) (one ∙ rw new refl)
          ∙ pushed cfg item s' parses ls below a.1 (n + 1)
          ∙ rw new refl
      | inr old ↦
          ap (λ x. (discover_all cfg item (link_urls ls) x).queue) (one ∙ rw old refl)
          ∙ pushed cfg item s parses ls below a.1 n
          ∙ rw old refl
    ]

-- Pushing the links of a page under the lock appends, in their order, those that have not been
-- visited, counts them, and gives the queue that discovering them one after the other gives.
pub push_links_lem :
    (norm : String → String) (parses : String → Bool) (cfg : CrawlConfig) (item : CrawlQueue)
    (urls : List String) (s : Crawl)
    → let links = new_links norm parses cfg.max_depth item urls in
      let not_yet = filter (not_visited s.visited) links in
      (push_links s.visited links (s.queue, 0) ≡ (s.queue ++ not_yet, length not_yet))
      × ((discover_all cfg item (link_urls links) s).queue ≡ s.queue ++ not_yet)
push_links_lem norm parses cfg item urls s =
    let links = new_links norm parses cfg.max_depth item urls in
    let not_yet = filter (not_visited s.visited) links in
    let (all, _, limit) = new_links_lem norm parses cfg.max_depth item urls in
    let zero_first : 0 + length not_yet ≡ length not_yet = omega arith in
    let filtered =
      push_links-filter s.visited links s.queue 0 ∙ ap (λ n. (s.queue ++ not_yet, n)) zero_first in
    (
      filtered,
      elim limit [
        | inl below ↦ pushed cfg item s parses links below all 0 ∙ ap (λ p. p.0) filtered
        | inr none ↦ rw none (sym (append-nil s.queue))
      ],
    )
