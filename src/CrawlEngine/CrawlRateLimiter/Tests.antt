-- ===== src/CrawlEngine/CrawlRateLimiter/Tests.antt =====
-- The limiters of all domains (rate_limiter.rs) on concrete requests.
use kodegen_tools_citescrape.Base.{ℕ, String, ◌≡◌, none, List, [], ◌∷◌, lookup}
use kodegen_tools_citescrape.CrawlEngine.CrawlRateLimiter.Isolation.{
  Check, decisions_for, alone, domains_are_isolated,
}

-- Stands for the lower case of a host.
abbrev lower : List ℕ → String
lower [] = ""
lower (c ∷ cs) = "host"

abbrev checks : List Check
checks =
    record { domain = "a"; rate = 1000; created = 0; now = 1 }
    ∷ record { domain = "b"; rate = 1000; created = 2; now = 3 }
    ∷ record { domain = "a"; rate = 1000; created = 4; now = 5 }
    ∷ []

domains_are_isolated_example : decisions_for "a" checks [] ≡ alone "a" checks none
unfolding lookup
domains_are_isolated_example = domains_are_isolated "a" checks []
