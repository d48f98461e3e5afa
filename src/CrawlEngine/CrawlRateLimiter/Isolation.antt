-- ===== src/CrawlEngine/CrawlRateLimiter/Isolation.antt =====
-- The limiters of different domains do not affect each other (rate_limiter.rs, `CrawlRateLimiter`).
use kodegen_tools_citescrape.Base.{
  ℕ, String, str_eq, eq_iff, ◌≡◌, refl, ap, ◌∙◌, inl, inr, Option, some, List, [], ◌∷◌, arith,
  lookup, insert, lookup-insert, if◌then◌else◌, Bool-cases,
}
use kodegen_tools_citescrape.CrawlEngine.RateLimiter.{
  RateLimitDecision, DomainRateLimiter, try_consume_token,
}
use kodegen_tools_citescrape.CrawlEngine.CrawlRateLimiter.{Limiters, limiter_for, check_domain}

pub record Check : Type 0 where
  pub domain : String
  pub rate : ℕ
  pub created : ℕ
  pub now : ℕ

-- The decisions for one domain among those of a sequence of checks.
unfoldable pub decisions_for : String → List Check → Limiters → List RateLimitDecision
unfolding check_domain
decisions_for d [] cache = []
decisions_for d (c ∷ cs) cache =
    let (cache', decision) = check_domain c.domain c.rate c.created c.now cache in
    if str_eq c.domain d then decision ∷ decisions_for d cs cache' else decisions_for d cs cache'

-- The decisions of a domain's own limiter on the checks that are for it.
unfoldable pub alone : String → List Check → Option DomainRateLimiter → List RateLimitDecision
unfolding limiter_for
alone d [] limiter = []
alone d (c ∷ cs) limiter =
    let (limiter', decision) = try_consume_token (limiter_for c.rate c.created limiter) c.now in
    let next = decision ∷ alone d cs (some limiter') in
    let same = alone d cs limiter in if str_eq c.domain d then next else same

isolated :
    (d : String) (cs : List Check) (cache : Limiters) (o : Option DomainRateLimiter)
    → lookup d cache ≡ o
    → decisions_for d cs cache ≡ alone d cs o
unfolding decisions_for alone check_domain
isolated d [] cache o e = refl
isolated d (c ∷ cs) cache o e = elim (Bool-cases (str_eq c.domain d)) [
  | inl same ↦
      let at_d : c.domain ≡ d = ground (arith, eq_iff c.domain d) in
      let limiter = limiter_for c.rate c.created (lookup c.domain cache) in
      let found : lookup c.domain cache ≡ o = ap (λ x. lookup x cache) at_d ∙ e in
      let limiter' = (try_consume_token limiter c.now).0 in
      let stored : lookup d (insert c.domain limiter' cache) ≡ some limiter' =
        ground (arith, lookup-insert c.domain d limiter' cache) in
      rw same (
        ap (λ ds. (try_consume_token limiter c.now).1 ∷ ds)
          (isolated d cs (insert c.domain limiter' cache) (some limiter') stored)
        ∙ ap
            (λ x.
              let (l, decision) = try_consume_token (limiter_for c.rate c.created x) c.now in
              decision ∷ alone d cs (some l))
            found)
  | inr other ↦
      let limiter = limiter_for c.rate c.created (lookup c.domain cache) in
      let limiter' = (try_consume_token limiter c.now).0 in
      let kept : lookup d (insert c.domain limiter' cache) ≡ o =
        ground (arith, lookup-insert c.domain d limiter' cache, e) in
      rw other (isolated d cs (insert c.domain limiter' cache) o kept)
]

-- In any sequence of checks, the decisions for a domain are those that its own limiter makes on
-- the checks for that domain: the requests to other domains neither use up nor refill its tokens.
pub domains_are_isolated :
    (d : String) (cs : List Check) (cache : Limiters)
    → decisions_for d cs cache ≡ alone d cs (lookup d cache)
domains_are_isolated d cs cache = isolated d cs cache (lookup d cache) refl
