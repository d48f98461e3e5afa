-- ===== src/CrawlEngine/CrawlRateLimiter.antt =====
-- src/crawl_engine/rate_limiter.rs: `CrawlRateLimiter`, which keeps a token bucket for each domain, and
-- the domain that it takes from a URL. A URL is the list of its code points; `to_lowercase` is an
-- arbitrary function to the text of a key. A rate is given in thousandths of a request per second.
pub mod Isolation
pub mod Hosts
mod Tests
use kodegen_tools_citescrape.Base.{
  ℕ, zero, suc, String, str_eq, Bool, true, false, not, ◌&&◌, ◌||◌, Option, none, some, List, [],
  ◌∷◌, Map, lookup, insert, length, codes, starts_with, leb, ltb, ◌==◌, if◌then◌else◌,
}
use kodegen_tools_citescrape.CrawlEngine.RateLimiter.{
  RateLimitDecision, allow, DomainRateLimiter, new, try_consume_token,
}

-- The text after the first `://`.
unfoldable pub after_scheme : List ℕ → Option (List ℕ)
unfolding starts_with
after_scheme [] = none
after_scheme (c ∷ cs) =
    let later = after_scheme cs in
    if starts_with (c ∷ cs) (codes "://") then some (skip_two cs) else later
  where
    skip_two : List ℕ → List ℕ
    skip_two (a ∷ b ∷ rest) = rest
    skip_two _ = []

abbrev pub ends_host : ℕ → Bool
ends_host c = (c == 47) || (c == 63) || (c == 35) || (c == 58)

-- The text before the first `/`, `?`, `#` or `:`.
unfoldable pub host : List ℕ → List ℕ
host [] = []
host (c ∷ cs) = let rest = host cs in if ends_host c then [] else c ∷ rest

abbrev pub skip : ℕ → List ℕ → List ℕ
skip zero cs = cs
skip (suc n) [] = []
skip (suc n) (c ∷ cs) = skip n cs

unfoldable pub strip_www : List ℕ → List ℕ
unfolding starts_with
strip_www domain =
    if starts_with domain (codes "www.") && ltb 4 (length domain) then skip 4 domain else domain

domain_in : List ℕ → Option (List ℕ) → List ℕ
domain_in url none = host url
domain_in url (some rest) = host rest

-- `rate_limiter::extract_domain`.
unfoldable pub extract_domain : (List ℕ → String) → List ℕ → Option String
unfolding domain_in after_scheme host strip_www
extract_domain to_lowercase url = some (to_lowercase (strip_www (domain_in url (after_scheme url))))

abbrev pub Limiters : Type 0
Limiters = Map DomainRateLimiter

-- `entry(domain).or_insert_with(…)`.
unfoldable pub limiter_for : ℕ → ℕ → Option DomainRateLimiter → DomainRateLimiter
limiter_for rate created none = new rate created
limiter_for rate created (some limiter) = limiter

-- `check_domain`: the limiter, made anew at `created` where there is none, decides at `now`.
unfoldable pub check_domain : String → ℕ → ℕ → ℕ → Limiters → Limiters × RateLimitDecision
unfolding limiter_for
check_domain domain rate created now cache =
    let limiter = limiter_for rate created (lookup domain cache) in
    let (limiter', decision) = try_consume_token limiter now in
    (insert domain limiter' cache, decision)

check_found : Option String → ℕ → ℕ → ℕ → Limiters → Limiters × RateLimitDecision
unfolding check_domain
check_found none rate created now cache = (cache, allow)
check_found (some domain) rate created now cache =
    if not (str_eq domain "") then check_domain domain rate created now cache else (cache, allow)

-- `check`.
unfoldable pub check :
    (List ℕ → String) → List ℕ → ℕ → ℕ → ℕ → Limiters → Limiters × RateLimitDecision
unfolding extract_domain check_found
check to_lowercase url rate created now cache =
    if leb rate 0
    then (cache, allow)
    else check_found (extract_domain to_lowercase url) rate created now cache

unfoldable pub clear : Limiters → Limiters
clear cache = []

unfoldable pub tracked_count : Limiters → ℕ
tracked_count cache = length cache
