-- ===== src/CrawlEngine/Crawler/Tests.antt =====
-- The filter of links (crawler.rs) on three URLs.
use kodegen_tools_citescrape.Base.{
  ℕ, ◌≡◌, ◌↔◌, refl, true, ◌&&◌, Option, none, some, List, [], ◌∷◌, codes, same_text, ends_with,
  starts_with, if◌then◌else◌,
}
use kodegen_tools_citescrape.ContentSaver.Htmd.Strip.{trim_end_matches}
use kodegen_tools_citescrape.CrawlEngine.Crawler.{
  ImUrl, CrawlConfig, any_domain, domain_allowed, norm_path, path_allowed, excluded, visit_parsed,
  both_parsed, should_visit_url, extract_valid_urls,
}
use kodegen_tools_citescrape.CrawlEngine.Crawler.Scope.{Visited, should_visit_url_iff}
use kodegen_tools_citescrape.CrawlEngine.Crawler.Domains.{
  unrestricted, allowed_domains_admit_nothing,
}

abbrev page : List ℕ → ImUrl
page path = record { scheme = codes "https"; host = some (codes "a.org"); path = path }

abbrev start : List ℕ
start = codes "https://a.org/docs/"

abbrev child : List ℕ
child = codes "https://a.org/docs/x"

abbrev sibling : List ℕ
sibling = codes "https://a.org/docsets"

abbrev parse : List ℕ → Option ImUrl
parse url =
    if same_text url start
    then some (page (codes "/docs/"))
    else if same_text url child
    then some (page (codes "/docs/x"))
    else if same_text url sibling
    then some (page (codes "/docsets"))
    else none

abbrev config : CrawlConfig
config = record {
  start_url = start;
  allowed_domains = some (codes "b.org" ∷ []);
  excluded_patterns = none;
  excluded_patterns_compiled = [];
}

-- Only the child of the start path is followed, and not even that where its host is not listed.
followed :
    extract_valid_urls parse (unrestricted config) (sibling ∷ child ∷ codes "x" ∷ []) ≡ child ∷ []
unfolding extract_valid_urls should_visit_url both_parsed visit_parsed domain_allowed path_allowed
    norm_path trim_end_matches starts_with excluded
followed = refl

not_listed : extract_valid_urls parse config (sibling ∷ child ∷ []) ≡ []
unfolding extract_valid_urls should_visit_url both_parsed visit_parsed domain_allowed any_domain
    ends_with
not_listed = refl

should_visit_url_iff_example : (should_visit_url parse (unrestricted config) child ≡ true) ↔ (
    (u : ImUrl) × (s : ImUrl) × (parse child ≡ some u)
    × (parse start ≡ some s)
    × Visited (unrestricted config) child u s)
should_visit_url_iff_example = should_visit_url_iff parse (unrestricted config) child

allowed_domains_admit_nothing_example : should_visit_url parse config child ≡ (
    should_visit_url parse (unrestricted config) child
    && domain_allowed (some (codes "b.org" ∷ [])) (codes "a.org"))
allowed_domains_admit_nothing_example =
    allowed_domains_admit_nothing parse config (page (codes "/docs/")) child refl
