-- ===== src/CrawlEngine/DomainLimiter.antt =====
-- src/crawl_engine/domain_limiter.rs: the limit on concurrent requests of each domain. The map is
-- the LruCache of the crate lru, given by its operations and laws. A semaphore is its number; the
-- permits that the semaphores have left, also those that the map has evicted, are a function of it.
pub mod Invariant
pub mod Permits
mod Tests
use kodegen_tools_citescrape.Base.{
  ℕ, ◌+◌, ◌-◌, ◌≤◌, ◌<◌, ◌≡◌, ◌≢◌, String, Option, none, some, List, [], ◌∷◌, ◌++◌, ltb, ◌==◌,
  if◌then◌else◌,
}

-- A map of at most `cap` entries: `get` marks the entry as used, and `put`, of a key that is not
-- there, may evict another entry when the map is full.
pub record LruCache (C : Type 0) : Type 0 where
  pub cap : ℕ
  pub empty : C
  pub get : String → C → Option ℕ × C
  pub put : String → ℕ → C → C
  pub peek : String → C → Option ℕ
  pub size : C → ℕ
  pub peek-empty : (k : String) → peek k empty ≡ none
  pub size-empty : size empty ≡ 0
  pub get_value : (k : String) (c : C) → (get k c).0 ≡ peek k c
  pub peek-get : (j k : String) (c : C) → peek j (get k c).1 ≡ peek j c
  pub size-get : (k : String) (c : C) → size (get k c).1 ≡ size c
  pub peek-put_same : (k : String) (v : ℕ) (c : C) → peek k (put k v c) ≡ some v
  pub peek-put_other :
      (j k : String) (v : ℕ) (c : C) → size c < cap → j ≢ k → peek j (put k v c) ≡ peek j c
  pub peek-put_old :
      (j k : String) (v w : ℕ) (c : C) → j ≢ k → peek j (put k v c) ≡ some w → peek j c ≡ some w
  pub size-put :
      (k : String) (v : ℕ) (c : C) → peek k c ≡ none → size c < cap → size (put k v c) ≡ size c + 1
  pub size-put-le : (k : String) (v : ℕ) (c : C) → size c ≤ cap → size (put k v c) ≤ cap

-- `MAX_DOMAIN_SEMAPHORES`.
abbrev pub max_domain_semaphores : ℕ
max_domain_semaphores = 1000

pub record DomainLimiter (C : Type 0) : Type 0 where
  pub domain_semaphores : C
  pub max_per_domain : ℕ
  pub created : ℕ  -- semaphores so far
  pub permits : ℕ → ℕ

-- A call of `acquire` past its locked section, or the permit that it returned.
pub record Request : Type 0 where
  pub domain : String
  pub semaphore : ℕ

-- The limiter with the calls that wait for a permit, and the permits that are held.
pub record Limited (C : Type 0) : Type 0 where
  pub limiter : DomainLimiter C
  pub waiting : List Request
  pub held : List Request

module _ {C : Type 0} (lru : LruCache C) where
  unfoldable pub new : ℕ → DomainLimiter C
  new max_per_domain = record {
    domain_semaphores = lru.empty;
    max_per_domain = max_per_domain;
    created = 0;
    permits = λ i. 0;
  }

  -- A new semaphore with all its permits, put into the map.
  unfoldable pub create : String → DomainLimiter C → DomainLimiter C × ℕ
  create domain l = (
    record l {
      domain_semaphores = lru.put domain l.created l.domain_semaphores;
      created = l.created + 1;
      permits = λ i. if i == l.created then l.max_per_domain else l.permits i;
    },
    l.created,
  )

  get_or_create : String → Option ℕ → DomainLimiter C → DomainLimiter C × ℕ
  unfolding create
  get_or_create domain none l = create domain l
  get_or_create domain (some id) l = (l, id)

  -- The locked section of `acquire`.
  unfoldable pub find_semaphore : String → DomainLimiter C → DomainLimiter C × ℕ
  unfolding get_or_create
  find_semaphore domain l =
      let (found, cache) = lru.get domain l.domain_semaphores in
      get_or_create domain found (record l { domain_semaphores = cache })

  -- A call of `acquire` up to its await.
  unfoldable pub acquire : String → Limited C → Limited C
  unfolding find_semaphore
  acquire domain s =
      let (limiter, id) = find_semaphore domain s.limiter in
      record s {
        limiter = limiter;
        waiting = s.waiting ++ record { domain = domain; semaphore = id } ∷ [];
      }

module _ {C : Type 0} where
  abbrev pub set_permits : ℕ → ℕ → DomainLimiter C → DomainLimiter C
  set_permits id n l = record l { permits = λ i. if i == id then n else l.permits i }

  -- A waiting call gets a permit of its semaphore, if one is left.
  unfoldable pub grant : List Request → Request → List Request → Limited C → Limited C
  grant before r after s =
      let left = s.limiter.permits r.semaphore in
      if ltb 0 left
      then record s {
        limiter = set_permits r.semaphore (left - 1) s.limiter;
        waiting = before ++ after;
        held = s.held ++ r ∷ [];
      }
      else s

  -- The drop of a permit.
  unfoldable pub give_back : List Request → Request → List Request → Limited C → Limited C
  give_back before r after s = record s {
    limiter = set_permits r.semaphore (s.limiter.permits r.semaphore + 1) s.limiter;
    held = before ++ after;
  }

module _ {C : Type 0} (lru : LruCache C) where
  -- What the tasks do; a call can also be dropped while it waits.
  pub data Step : Limited C → Limited C → Type 0 where
    calls : (domain : String) (s : Limited C) → Step s (acquire lru domain s)
    gets :
        (before : List Request) (r : Request) (after : List Request) (s : Limited C)
        → s.waiting ≡ before ++ r ∷ after
        → Step s (grant before r after s)
    drops :
        (before : List Request) (r : Request) (after : List Request) (s : Limited C)
        → s.held ≡ before ++ r ∷ after
        → Step s (give_back before r after s)
    cancels :
        (before : List Request) (r : Request) (after : List Request) (s : Limited C)
        → s.waiting ≡ before ++ r ∷ after
        → Step s (record s { waiting = before ++ after })

  pub data Reach (s : Limited C) : Limited C → Type 0 where
    here : Reach s s
    next : {t u : Limited C} → Reach s t → Step t u → Reach s u

  abbrev pub start : ℕ → Limited C
  start max_per_domain = record { limiter = new lru max_per_domain; waiting = []; held = [] }
