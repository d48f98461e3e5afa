-- ===== src/CrawlEngine/Crawler/Domains.antt =====
-- The list of allowed domains in the filter of links (crawler.rs).
use kodegen_tools_citescrape.Base.{
  ℕ, ◌≡◌, refl, inl, inr, ◌&&◌, Option, none, some, List, arith, same_text, same_text-eq,
  Bool-cases,
}
use kodegen_tools_citescrape.CrawlEngine.Crawler.{
  ImUrl, CrawlConfig, host_of, domain_allowed, excluded, visit_parsed, both_parsed,
  should_visit_url,
}

abbrev pub unrestricted : CrawlConfig → CrawlConfig
unrestricted config = record config { allowed_domains = none }

visit_parsed-allowed :
    (config : CrawlConfig) (url : List ℕ) (u s : ImUrl)
    → visit_parsed config url u s ≡ (
        visit_parsed (unrestricted config) url u s
        && domain_allowed config.allowed_domains (host_of s))
unfolding visit_parsed domain_allowed excluded
visit_parsed-allowed config url u s = elim (Bool-cases (same_text (host_of u) (host_of s))) [
  | inl same ↦ rw (same_text-eq (host_of u) (host_of s) same) (ground arith)
  | inr other ↦ rw other (ground arith)
]

-- The list of allowed domains admits no URL that would not be followed without it: it lets all of
-- those through where the host of the start URL passes it, and otherwise the crawl follows no URL.
pub allowed_domains_admit_nothing :
    (parse : List ℕ → Option ImUrl) (config : CrawlConfig) (s : ImUrl) (url : List ℕ)
    → parse config.start_url ≡ some s
    → should_visit_url parse config url ≡ (
        should_visit_url parse (unrestricted config) url
        && domain_allowed config.allowed_domains (host_of s))
unfolding should_visit_url both_parsed
allowed_domains_admit_nothing parse config s url e = rw e (go (parse url))
  where
    go :
        (o : Option ImUrl)
        → both_parsed config url o (some s) ≡ (
            both_parsed (unrestricted config) url o (some s)
            && domain_allowed config.allowed_domains (host_of s))
    go none = refl
    go (some u) = visit_parsed-allowed config url u s
