-- ===== src/CrawlEngine/CrawlRateLimiter/Hosts.antt =====
-- Which domain a URL is counted for (rate_limiter.rs, `extract_domain`).
use kodegen_tools_citescrape.Base.{
  ℕ, String, ◌≡◌, refl, ap, true, false, some, List, [], ◌∷◌, ◌++◌, arith, codes, starts_with, ◌==◌,
}
use kodegen_tools_citescrape.CrawlEngine.CrawlRateLimiter.{
  after_scheme, ends_host, host, strip_www, domain_in, extract_domain,
}

-- No character of the text ends a host.
abbrev pub Plain : List ℕ → Type 0
Plain [] = Unit
Plain (c ∷ cs) = (ends_host c ≡ false) × Plain cs

-- Nothing, or something that starts with a character that ends a host.
abbrev pub HostEnd : List ℕ → Type 0
HostEnd [] = Unit
HostEnd (c ∷ cs) = ends_host c ≡ true

host-append : (h rest : List ℕ) → Plain h → HostEnd rest → host (h ++ rest) ≡ h
unfolding host
host-append [] [] p e = refl
host-append [] (c ∷ cs) p e = rw e refl
host-append (c ∷ cs) rest p e = rw (p.0, host-append cs rest p.1 e) refl

after_scheme-append :
    (scheme rest : List ℕ)
    → Plain scheme
    → after_scheme (scheme ++ (codes "://" ++ rest)) ≡ some rest
unfolding after_scheme starts_with
after_scheme-append [] rest p = refl
after_scheme-append (c ∷ cs) rest p =
    let no_colon : (c == 58) ≡ false = ground (arith, p.0) in
    rw no_colon (after_scheme-append cs rest p.1)

-- A URL of a scheme, a host and anything that starts with a slash, a question mark, a hash or a
-- colon is counted for its host, without a leading `www.` and in lower case: neither the scheme
-- nor what follows the host matters.
pub extract_domain_lem :
    (to_lowercase : List ℕ → String) (scheme h rest : List ℕ)
    → Plain scheme
    → Plain h
    → HostEnd rest
    → extract_domain to_lowercase (scheme ++ (codes "://" ++ (h ++ rest)))
      ≡ some (to_lowercase (strip_www h))
unfolding extract_domain domain_in
extract_domain_lem to_lowercase scheme h rest p q e =
    rw (after_scheme-append scheme (h ++ rest) p)
      (ap (λ x. some (to_lowercase (strip_www x))) (host-append h rest q e))
