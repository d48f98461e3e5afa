-- ===== src/CrawlEngine/Links.antt =====
-- src/crawl_engine/page_processor.rs: the links of a page that join the crawl queue. The filter
-- `extract_valid_urls` has been applied; `normalize_url` and whether `Url::parse` accepts a text
-- are arbitrary functions here.
pub mod Queued
mod Tests
use kodegen_tools_citescrape.Base.{
  ℕ, ◌+◌, String, Bool, true, false, not, ◌&&◌, List, [], ◌∷◌, ◌++◌, has, ltb, if◌then◌else◌,
}
use kodegen_tools_citescrape.CrawlEngine.Failure.{CrawlQueue}
use kodegen_tools_citescrape.CrawlEngine.Orchestrator.{not_visited}

-- The loop over the filtered links: those left, `seen_in_batch`, `results`.
unfoldable pub batch_loop :
    (String → String)
    → (String → Bool)
    → ℕ
    → List String
    → List String
    → List CrawlQueue
    → List CrawlQueue
batch_loop normalize_url parses depth [] seen_in_batch results = results
batch_loop normalize_url parses depth (link_url ∷ links) seen_in_batch results =
    let normalized_url = normalize_url link_url in
    let link : CrawlQueue = record { url = normalized_url; depth = depth + 1; retry_count = 0 } in
    let seen = normalized_url ∷ seen_in_batch in
    let duplicate = batch_loop normalize_url parses depth links seen_in_batch results in
    let pushed = batch_loop normalize_url parses depth links seen (results ++ link ∷ []) in
    let refused = batch_loop normalize_url parses depth links seen results in
    if has normalized_url seen_in_batch
    then duplicate
    else if parses normalized_url
    then pushed
    else refused

unfoldable pub new_links :
    (String → String) → (String → Bool) → ℕ → CrawlQueue → List String → List CrawlQueue
unfolding batch_loop
new_links normalize_url parses max_depth item filtered_urls =
    if ltb item.depth max_depth
    then batch_loop normalize_url parses item.depth filtered_urls [] []
    else []

-- The push under the queue's lock, and `actually_queued`.
unfoldable pub push_links :
    List String → List CrawlQueue → List CrawlQueue × ℕ → List CrawlQueue × ℕ
push_links visited [] (q, actually_queued) = (q, actually_queued)
push_links visited (new_link ∷ links) (q, actually_queued) =
    let pushed = push_links visited links (q ++ new_link ∷ [], actually_queued + 1) in
    let skipped = push_links visited links (q, actually_queued) in
    if not_visited visited new_link then pushed else skipped
