-- ===== src/CrawlEngine/DomainLimiter/Invariant.antt =====
-- The permits and the map of the limiter (domain_limiter.rs) in the states that calls lead to.
use kodegen_tools_citescrape.Base.{
  ℕ, suc, ◌+◌, ◌≤◌, ◌<◌, ◌≡◌, ◌≢◌, refl, sym, ap, subst, ◌∙◌, inl, inr, String, str_eq, eq_iff,
  none, some, List, [], ◌∷◌, ◌++◌, All, All-append, All-left, All-right, All-map, arith, ltb, ◌==◌,
  if◌then◌else◌, Bool-cases, Option-cases,
}
use kodegen_tools_citescrape.CrawlEngine.DomainLimiter.{
  LruCache, Request, Limited, new, create, get_or_create, find_semaphore, acquire, grant, give_back,
  Step, calls, gets, drops, cancels, Reach, here, next, start,
}

-- The permits held of a semaphore, and those held for a domain.
abbrev pub holding : ℕ → List Request → ℕ
holding id [] = 0
holding id (r ∷ rs) = if r.semaphore == id then suc (holding id rs) else holding id rs

abbrev pub running : String → List Request → ℕ
running domain [] = 0
running domain (r ∷ rs) =
    if str_eq r.domain domain then suc (running domain rs) else running domain rs

holding-append :
    (id : ℕ) (xs ys : List Request) → holding id (xs ++ ys) ≡ holding id xs + holding id ys
holding-append id [] ys = omega arith
holding-append id (x ∷ xs) ys = ground (arith, holding-append id xs ys)

-- What holds of the elements around one, and of it.
cut :
    (P : Request → Type 0) (before : List Request) (r : Request) (after : List Request)
    → {rs : List Request} → rs ≡ before ++ r ∷ after
    → All P rs
    → P r × All P (before ++ after)
cut P before r after {rs} e a =
    let split : All P (before ++ r ∷ after) = subst (All P) e a in
    let (its, later) = All-right P before (r ∷ after) split in
    (its, All-append P before after (All-left P before (r ∷ after) split) later)

module _ {C : Type 0} (lru : LruCache C) (max_per_domain : ℕ) where
  abbrev pub Known : C → Request → Type 0
  Known c r = lru.peek r.domain c ≡ some r.semaphore

  pub record Inv (s : Limited C) : Type 0 where
    pub limit : s.limiter.max_per_domain ≡ max_per_domain
    pub sum :
        (id : ℕ)
        → id < s.limiter.created
        → holding id s.held + s.limiter.permits id ≡ max_per_domain
    pub fresh : (id : ℕ) → s.limiter.created ≤ id → holding id s.held ≡ 0
    pub asked : All (λ r. r.semaphore < s.limiter.created) s.waiting
    pub stored :
        (domain : String) (id : ℕ)
        → lru.peek domain s.limiter.domain_semaphores ≡ some id
        → id < s.limiter.created
    pub bounded : lru.size s.limiter.domain_semaphores ≤ lru.cap
    pub sized :
        s.limiter.created ≤ lru.cap → lru.size s.limiter.domain_semaphores ≡ s.limiter.created
    pub waiting_known :
        s.limiter.created ≤ lru.cap → All (Known s.limiter.domain_semaphores) s.waiting
    pub held_known : s.limiter.created ≤ lru.cap → All (Known s.limiter.domain_semaphores) s.held

  pub start-Inv : Inv (start lru max_per_domain)
  unfolding new
  start-Inv = record {
    limit = refl;
    sum = λ id h. absurd (omega (arith, h));
    fresh = λ id h. refl;
    asked = tt;
    stored = λ domain id h. cc (lru.peek-empty domain);
    bounded = rw lru.size-empty (omega arith);
    sized = λ h. lru.size-empty;
    waiting_known = λ h. tt;
    held_known = λ h. tt;
  }

  grant-Inv :
      (before : List Request) (r : Request) (after : List Request) (s : Limited C)
      → s.waiting ≡ before ++ r ∷ after
      → Inv s
      → Inv (grant before r after s)
  unfolding grant
  grant-Inv before r after s e i = elim (Bool-cases (ltb 0 (s.limiter.permits r.semaphore))) [
    | inr empty ↦ rw empty i
    | inl left ↦
        let (its, rest) = cut (λ q. q.semaphore < s.limiter.created) before r after e i.asked in
        rw left (record {
          limit = i.limit;
          sum = λ id h. grind (arith, holding-append id s.held (r ∷ []), i.sum id h);
          fresh = λ id h. ground (arith, holding-append id s.held (r ∷ []), i.fresh id h);
          asked = rest;
          stored = i.stored;
          bounded = i.bounded;
          sized = i.sized;
          waiting_known =
              λ h. (cut (Known s.limiter.domain_semaphores) before r after e (i.waiting_known h)).1;
          held_known = λ h.
              All-append (Known s.limiter.domain_semaphores) s.held (r ∷ []) (i.held_known h) (
                (cut (Known s.limiter.domain_semaphores) before r after e (i.waiting_known h)).0,
                tt,
              );
        })
  ]

  give_back-Inv :
      (before : List Request) (r : Request) (after : List Request) (s : Limited C)
      → s.held ≡ before ++ r ∷ after
      → Inv s
      → Inv (give_back before r after s)
  unfolding give_back
  give_back-Inv before r after s e i =
      let count : (id : ℕ) → holding id s.held ≡ holding id (before ++ r ∷ after) =
        λ id. ap (holding id) e in
      record {
        limit = i.limit;
        sum = λ id h. grind (
          arith,
          count id,
          holding-append id before (r ∷ after),
          holding-append id before after,
          i.sum id h,
        );
        fresh = λ id h. ground (
          arith,
          count id,
          holding-append id before (r ∷ after),
          holding-append id before after,
          i.fresh id h,
        );
        asked = i.asked;
        stored = i.stored;
        bounded = i.bounded;
        sized = i.sized;
        waiting_known = i.waiting_known;
        held_known =
            λ h. (cut (Known s.limiter.domain_semaphores) before r after e (i.held_known h)).1;
      }

  cancel-Inv :
      (before : List Request) (r : Request) (after : List Request) (s : Limited C)
      → s.waiting ≡ before ++ r ∷ after
      → Inv s
      → Inv (record s { waiting = before ++ after })
  cancel-Inv before r after s e i = record {
    limit = i.limit;
    sum = i.sum;
    fresh = i.fresh;
    asked = (cut (λ q. q.semaphore < s.limiter.created) before r after e i.asked).1;
    stored = i.stored;
    bounded = i.bounded;
    sized = i.sized;
    waiting_known =
        λ h. (cut (Known s.limiter.domain_semaphores) before r after e (i.waiting_known h)).1;
    held_known = i.held_known;
  }

  -- The map has the semaphore: the calls that wait, and the map's order, change.
  found-Inv :
      (domain : String) (id : ℕ) (s : Limited C)
      → lru.peek domain s.limiter.domain_semaphores ≡ some id
      → Inv s
      → Inv (acquire lru domain s)
  unfolding acquire find_semaphore get_or_create
  found-Inv domain id s e i =
      let cache = (lru.get domain s.limiter.domain_semaphores).1 in
      let same : (j : String) → lru.peek j cache ≡ lru.peek j s.limiter.domain_semaphores =
        λ j. lru.peek-get j domain s.limiter.domain_semaphores in
      let size : lru.size cache ≡ lru.size s.limiter.domain_semaphores =
        lru.size-get domain s.limiter.domain_semaphores in
      rw (lru.get_value domain s.limiter.domain_semaphores, e)
        (record {
          limit = i.limit;
          sum = i.sum;
          fresh = i.fresh;
          asked =
              All-append (λ q. q.semaphore < s.limiter.created) s.waiting _ i.asked
                (i.stored domain id e, tt);
          stored = λ j id' h. i.stored j id' (sym (same j) ∙ h);
          bounded = rw size i.bounded;
          sized = λ h. size ∙ i.sized h;
          waiting_known = λ h.
              All-append (Known cache) s.waiting _
                (All-map (Known s.limiter.domain_semaphores) (Known cache) s.waiting
                  (λ q k. same q.domain ∙ k) (i.waiting_known h))
                (same domain ∙ e, tt);
          held_known = λ h.
              All-map (Known s.limiter.domain_semaphores) (Known cache) s.held
                (λ q k. same q.domain ∙ k) (i.held_known h);
        })

  missed-Inv :
      (domain : String) (s : Limited C)
      → lru.peek domain s.limiter.domain_semaphores ≡ none
      → Inv s
      → Inv (acquire lru domain s)
  unfolding acquire find_semaphore get_or_create create
  missed-Inv domain s e i =
      let old = s.limiter.domain_semaphores in
      let cache = (lru.get domain old).1 in
      let id = s.limiter.created in
      let same : (j : String) → lru.peek j cache ≡ lru.peek j old =
        λ j. lru.peek-get j domain old in
      let size : lru.size cache ≡ lru.size old = lru.size-get domain old in
      let absent : lru.peek domain cache ≡ none = same domain ∙ e in
      let still : id + 1 ≤ lru.cap
          → (q : Request) → Known old q
          → Known (lru.put domain id cache) q =
        λ h q k.
          let other : q.domain ≢ domain = λ m. cc in
          let free : lru.size cache < lru.cap = omega (arith, size, i.sized (omega arith)) in
          lru.peek-put_other q.domain domain id cache free other ∙ same q.domain ∙ k in
      rw (lru.get_value domain old, e)
        (record {
          limit = i.limit;
          sum = λ j h. grind (arith, i.fresh j, i.sum j, i.limit);
          fresh = λ j h. i.fresh j (omega arith);
          asked =
              All-append (λ q. q.semaphore < id + 1) s.waiting _
                (All-map (λ q. q.semaphore < id) (λ q. q.semaphore < id + 1) s.waiting
                  (λ q h. omega arith) i.asked)
                (omega arith, tt);
          stored = λ j id' h. elim (Bool-cases (str_eq j domain)) [
            | inl same_key ↦
                let new_one : lru.peek j (lru.put domain id cache) ≡ some id =
                  subst (λ d. lru.peek d (lru.put domain id cache) ≡ some id)
                    (sym ((eq_iff j domain).0 same_key)) (lru.peek-put_same domain id cache) in
                let both : id ≡ id' = cc in omega arith
            | inr other ↦
                let apart : j ≢ domain = λ m. cc ((eq_iff j domain).1 m) in
                let found = lru.peek-put_old j domain id id' cache apart h in
                let below = i.stored j id' (sym (same j) ∙ found) in omega arith
          ];
          bounded = lru.size-put-le domain id cache (rw size i.bounded);
          sized = λ h.
              let before = i.sized (omega arith) in
              let grown = lru.size-put domain id cache absent (omega (arith, size, before)) in
              omega (arith, size, before, grown);
          waiting_known = λ h.
              All-append (Known (lru.put domain id cache)) s.waiting _
                (All-map (Known old) (Known (lru.put domain id cache)) s.waiting (still h)
                  (i.waiting_known (omega arith)))
                (lru.peek-put_same domain id cache, tt);
          held_known = λ h.
              All-map (Known old) (Known (lru.put domain id cache)) s.held (still h)
                (i.held_known (omega arith));
        })

  step-Inv : {s t : Limited C} → Step lru s t → Inv s → Inv t
  step-Inv (calls domain s) i = elim (Option-cases (lru.peek domain s.limiter.domain_semaphores)) [
    | inl missed ↦ missed-Inv domain s missed i
    | inr (id, found) ↦ found-Inv domain id s found i
  ]
  step-Inv (gets before r after s e) i = grant-Inv before r after s e i
  step-Inv (drops before r after s e) i = give_back-Inv before r after s e i
  step-Inv (cancels before r after s e) i = cancel-Inv before r after s e i

  pub Reach-Inv : {s t : Limited C} → Reach lru s t → Inv s → Inv t
  Reach-Inv here i = i
  Reach-Inv (next r step) i = step-Inv step (Reach-Inv r i)
  -- The requests of a domain whose semaphore is the one in the map.
