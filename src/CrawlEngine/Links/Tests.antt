-- ===== src/CrawlEngine/Links/Tests.antt =====
-- The links of a page (page_processor.rs) on concrete links.
use kodegen_tools_citescrape.Base.{String, ◌≡◌, refl, Bool, none, some, List, [], ◌∷◌, str_eq, not}
use kodegen_tools_citescrape.CrawlEngine.Failure.{CrawlQueue}
use kodegen_tools_citescrape.CrawlEngine.Orchestrator.{CrawlConfig, Crawl}
use kodegen_tools_citescrape.CrawlEngine.Links.{new_links, batch_loop}
use kodegen_tools_citescrape.CrawlEngine.Links.Queued.{link_urls}

abbrev page : CrawlQueue
page = record { url = "http://a/"; depth = 0; retry_count = 1 }

abbrev links : List String
links = "http://a/x" ∷ "http://a/y" ∷ "http://a/x" ∷ "bad" ∷ []

abbrev parses : String → Bool
parses url = not (str_eq url "bad")

abbrev config : CrawlConfig
config = record {
  max_depth = 2;
  max_page_retries = 3;
  limit = none;
  max_concurrent_pages = 4;
  parse_host = λ url. some (some "a");
}

abbrev crawl : Crawl
crawl = record {
  queue = [];
  visited = "http://a/x" ∷ [];
  breaker = none;
  retry_queue = [];
  total_pages = 0;
  active_tasks = [];
}

two_links :
    link_urls (new_links (λ url. url) parses 2 page links) ≡ "http://a/x" ∷ "http://a/y" ∷ []
unfolding new_links batch_loop
two_links = refl
