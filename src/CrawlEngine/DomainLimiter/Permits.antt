-- ===== src/CrawlEngine/DomainLimiter/Permits.antt =====
-- How many requests of a domain hold a permit at once (domain_limiter.rs).
use kodegen_tools_citescrape.Base.{
  ℕ, ◌≤◌, ◌≡◌, refl, inl, inr, String, str_eq, eq_iff, true, none, some, List, [], ◌∷◌, All, arith,
  ltb, ◌==◌, Bool-cases, Option-cases,
}
use kodegen_tools_citescrape.CrawlEngine.DomainLimiter.{
  LruCache, max_domain_semaphores, Request, Limited, Reach, start,
}
use kodegen_tools_citescrape.CrawlEngine.DomainLimiter.Invariant.{
  holding, running, Known, Inv, start-Inv, Reach-Inv,
}

module _ {C : Type 0} (lru : LruCache C) (max_per_domain : ℕ) where
  running-le :
      (domain : String) (id : ℕ) (c : C) (rs : List Request)
      → lru.peek domain c ≡ some id
      → All (Known lru max_per_domain c) rs
      → running domain rs ≤ holding id rs
  running-le domain id c [] e h = omega arith
  running-le domain id c (r ∷ rs) e h = elim (Bool-cases (str_eq r.domain domain)) [
    | inl same ↦
        let m = (eq_iff r.domain domain).0 same in
        let its : r.semaphore ≡ id = cc (h.0) in
        let hit : (r.semaphore == id) ≡ true = ground arith in
        rw (same, hit) (omega (arith, running-le domain id c rs e h.1))
    | inr other ↦ rw other (ground (arith, running-le domain id c rs e h.1))
  ]

  running-none :
      (domain : String) (c : C) (rs : List Request)
      → lru.peek domain c ≡ none
      → All (Known lru max_per_domain c) rs
      → running domain rs ≡ 0
  running-none domain c [] e h = refl
  running-none domain c (r ∷ rs) e h = elim (Bool-cases (str_eq r.domain domain)) [
    | inl same ↦ let m = (eq_iff r.domain domain).0 same in absurd (cc (h.0))
    | inr other ↦ rw other (running-none domain c rs e h.1)
  ]

  holding-le :
      {s : Limited C} → Inv lru max_per_domain s → (id : ℕ) → holding id s.held ≤ max_per_domain
  holding-le {s} i id = elim (Bool-cases (ltb id s.limiter.created)) [
    | inl old ↦ omega (arith, i.sum id (ground arith))
    | inr none_yet ↦ omega (arith, i.fresh id (ground arith))
  ]

-- In every state that calls, drops and cancellations in any order lead to, the map is within its
-- capacity and no semaphore has more permits out than a domain may have.
pub semaphore_bound :
    {C : Type 0} (lru : LruCache C) (max_per_domain : ℕ) {s : Limited C}
    → lru.cap ≡ max_domain_semaphores
    → Reach lru (start lru max_per_domain) s
    → (id : ℕ)
    → (lru.size s.limiter.domain_semaphores ≤ max_domain_semaphores)
      × (holding id s.held ≤ max_per_domain)
semaphore_bound lru max_per_domain cap r id =
    let i = Reach-Inv lru max_per_domain r (start-Inv lru max_per_domain) in
    (omega (arith, i.bounded), holding-le lru max_per_domain i id)

-- In a reached state that has created no more semaphores than the map can hold, so that none was
-- evicted, no domain has more requests running than it may have.
pub running_bound :
    {C : Type 0} (lru : LruCache C) (max_per_domain : ℕ) {s : Limited C}
    → lru.cap ≡ max_domain_semaphores
    → Reach lru (start lru max_per_domain) s
    → s.limiter.created ≤ max_domain_semaphores
    → (domain : String) → running domain s.held ≤ max_per_domain
running_bound lru max_per_domain {s} cap r few domain =
    let i = Reach-Inv lru max_per_domain r (start-Inv lru max_per_domain) in
    let c = s.limiter.domain_semaphores in
    let known = i.held_known (omega arith) in
    elim (Option-cases (lru.peek domain c)) [
      | inl missing ↦ omega (arith, running-none lru max_per_domain domain c s.held missing known)
      | inr (id, found) ↦ omega (
        arith,
        running-le lru max_per_domain domain id c s.held found known,
        holding-le lru max_per_domain i id,
      )
    ]
