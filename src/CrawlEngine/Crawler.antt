-- ===== src/CrawlEngine/Crawler.antt =====
-- src/crawl_engine/crawler.rs: which links of a page the crawl follows. A text is the list of its
-- code points. `ImUrl::parse`, which calls the crate url, is an arbitrary function to the parts of
-- the URL that the code reads, and a compiled pattern is an arbitrary test.
pub mod Scope
pub mod Domains
mod Tests
use kodegen_tools_citescrape.Base.{
  ℕ, Bool, true, false, not, ◌&&◌, ◌||◌, Option, none, some, List, [], ◌∷◌, ◌++◌, codes, filter,
  length, starts_with, contains, same_text, ends_with, ◌==◌, if◌then◌else◌,
}
use kodegen_tools_citescrape.ContentSaver.Htmd.Strip.{trim_end_matches}

pub record ImUrl : Type 0 where
  pub scheme : List ℕ
  pub host : Option (List ℕ)
  pub path : List ℕ

-- The part of `CrawlConfig` that is read.
pub record CrawlConfig : Type 0 where
  pub start_url : List ℕ
  pub allowed_domains : Option (List (List ℕ))
  pub excluded_patterns : Option (List (List ℕ))
  pub excluded_patterns_compiled : List (List ℕ → Bool)

-- `host().unwrap_or_default()`.
abbrev pub host_of : ImUrl → List ℕ
host_of u = elim u.host [ none ↦ [] | some h ↦ h ]

unfoldable pub any_domain : List ℕ → List (List ℕ) → Bool
unfolding ends_with
any_domain url_host [] = false
any_domain url_host (domain ∷ domains) =
    same_text url_host domain || ends_with url_host (46 ∷ domain) || any_domain url_host domains

-- The check of the list of allowed domains, where it is configured.
unfoldable pub domain_allowed : Option (List (List ℕ)) → List ℕ → Bool
unfolding any_domain
domain_allowed none url_host = true
domain_allowed (some domains) url_host = (length domains == 0) || any_domain url_host domains

unfoldable pub norm_path : List ℕ → List ℕ
unfolding trim_end_matches
norm_path = trim_end_matches (λ c. c == 47)

unfoldable pub path_allowed : List ℕ → List ℕ → Bool
unfolding norm_path starts_with
path_allowed start_path url_path =
    let norm_url_path = norm_path url_path in
    let norm_start_path = norm_path start_path in
    (length norm_start_path == 0)
    || same_text norm_start_path (codes "/")
    || same_text norm_url_path norm_start_path
    || starts_with norm_url_path (norm_start_path ++ codes "/")

abbrev pub any_matches : List (List ℕ → Bool) → List ℕ → Bool
any_matches [] url = false
any_matches (regex ∷ regexes) url = regex url || any_matches regexes url

abbrev pub any_contained : List (List ℕ) → List ℕ → Bool
any_contained [] url = false
any_contained (pattern_ ∷ patterns) url = contains url pattern_ || any_contained patterns url

abbrev pub patterns_of : Option (List (List ℕ)) → List (List ℕ)
patterns_of none = []
patterns_of (some patterns) = patterns

-- The checks of the excluded patterns.
unfoldable pub excluded : CrawlConfig → List ℕ → Bool
excluded config url =
    any_matches config.excluded_patterns_compiled url
    || any_contained (patterns_of config.excluded_patterns) url

-- The checks once both URLs are parsed.
unfoldable pub visit_parsed : CrawlConfig → List ℕ → ImUrl → ImUrl → Bool
unfolding domain_allowed path_allowed excluded
visit_parsed config url parsed_url start_url =
    if not (same_text parsed_url.scheme start_url.scheme)
    then false
    else if not (same_text (host_of parsed_url) (host_of start_url))
    then false
    else if not (domain_allowed config.allowed_domains (host_of parsed_url))
    then false
    else if not (path_allowed start_url.path parsed_url.path)
    then false
    else not (excluded config url)

both_parsed : CrawlConfig → List ℕ → Option ImUrl → Option ImUrl → Bool
unfolding visit_parsed
both_parsed config url none start_url = false
both_parsed config url (some parsed_url) none = false
both_parsed config url (some parsed_url) (some start_url) =
    visit_parsed config url parsed_url start_url

module _ (parse : List ℕ → Option ImUrl) (config : CrawlConfig) where
  unfoldable pub should_visit_url : List ℕ → Bool
  unfolding both_parsed
  should_visit_url url = both_parsed config url (parse url) (parse config.start_url)

  unfoldable pub extract_valid_urls : List (List ℕ) → List (List ℕ)
  unfolding should_visit_url
  extract_valid_urls links = filter should_visit_url links
