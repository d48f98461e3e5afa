-- ===== src/CrawlEngine/RetryQueue/Recovery.antt =====
-- Which domains a drain releases (retry_queue.rs with circuit_breaker.rs).
use kodegen_tools_citescrape.Base.{
  ℕ, String, ◌≡◌, refl, ap, ◌∙◌, fun_ext, inl, inr, Bool, false, ◌&&◌, none, List, [], ◌∷◌, arith,
  filter, has, if◌then◌else◌, str_eq, eq_iff, Bool-cases, lookup, insert, remove, keys,
  lookup-insert, lookup-remove_self, lookup-remove_ne,
}
use kodegen_tools_citescrape.CrawlEngine.CircuitBreaker.{
  DomainHealth, CircuitBreaker, should_attempt, attempt, entry,
}
use kodegen_tools_citescrape.CrawlEngine.RetryQueue.{
  Items, pending, ready_domains, take_domains, drain_ready,
}

attempt_again :
    (timeout now : ℕ) (h : DomainHealth)
    → (attempt timeout now (attempt timeout now h).0).1 ≡ (attempt timeout now h).1
unfolding attempt
attempt_again timeout now h = ground arith

entry-insert :
    (cb : CircuitBreaker) (d j : String) (h : DomainHealth)
    → entry (record cb { domains = insert d h cb.domains }) j
      ≡ (if str_eq d j then h else entry cb j)
unfolding entry
entry-insert cb d j h = ground (arith, lookup-insert d j h cb.domains)

-- Asking for one domain does not change the answer for any, at the same instant.
should_attempt_stable :
    (cb : CircuitBreaker) (d j : String) (now : ℕ)
    → (should_attempt (should_attempt cb d now).0 j now).1 ≡ (should_attempt cb j now).1
unfolding should_attempt
should_attempt_stable cb d j now =
    let asked = (attempt cb.half_open_timeout now (entry cb d)).0 in
    elim (Bool-cases (str_eq d j)) [
      | inl hit ↦
          rw (entry-insert cb d j asked, hit)
            (rw (← (eq_iff d j).0 hit) (attempt_again cb.half_open_timeout now (entry cb d)))
      | inr miss ↦ rw (entry-insert cb d j asked, miss)
    ]

abbrev allows : CircuitBreaker → ℕ → String → Bool
allows cb now domain = (should_attempt cb domain now).1

ready_domains-filter :
    (cb : CircuitBreaker) (now : ℕ) (domains : List String)
    → (ready_domains cb now domains).1 ≡ filter (allows cb now) domains
unfolding ready_domains
ready_domains-filter cb now [] = refl
ready_domains-filter cb now (d ∷ ds) =
    let same =
      ready_domains-filter (should_attempt cb d now).0 now ds
      ∙ ap (λ p. filter p ds) (fun_ext (λ x. should_attempt_stable cb d x now)) in
    rw same

lookup-take_domains :
    (d : String) (ds : List String) (items : Items)
    → lookup d (take_domains ds items).1 ≡ (if has d ds then none else lookup d items)
unfolding take_domains
lookup-take_domains d [] items = refl
lookup-take_domains d (x ∷ xs) items = elim (Bool-cases (str_eq x d)) [
  | inl hit ↦
      rw ((eq_iff x d).0 hit, (eq_iff d d).1 refl)
        (ground (arith, lookup-take_domains d xs (remove d items), lookup-remove_self d items))
  | inr miss ↦
      ground
        (arith, eq_iff x d, lookup-take_domains d xs (remove x items), lookup-remove_ne x d items)
]

has-filter :
    (p : String → Bool) (d : String) (ks : List String) → has d (filter p ks) ≡ (p d && has d ks)
has-filter p d [] = ground arith
has-filter p d (k ∷ ks) = elim (Bool-cases (str_eq k d)) [
  | inl hit ↦ rw ((eq_iff k d).0 hit) (ground (arith, has-filter p d ks, (eq_iff d d).1 refl))
  | inr miss ↦ ground (arith, has-filter p d ks)
]

lookup-none : (d : String) (items : Items) → has d (keys items) ≡ false → lookup d items ≡ none
unfolding lookup
lookup-none d [] h = refl
lookup-none d ((k, xs) ∷ items) h = ground (arith, lookup-none d items)

-- A drain empties exactly the domains whose circuit lets a request through at that instant, and
-- leaves the items of every other domain waiting.
pub drain_ready-pending :
    (cb : CircuitBreaker) (now : ℕ) (items : Items) (d : String)
    → let (cb', ready, rest) = drain_ready cb now items in
      pending d rest ≡ (if (should_attempt cb d now).1 then [] else pending d items)
unfolding drain_ready
drain_ready-pending cb now items d = ground (
  arith,
  lookup-take_domains d (ready_domains cb now (keys items)).1 items,
  ready_domains-filter cb now (keys items),
  has-filter (allows cb now) d (keys items),
  lookup-none d items,
)
