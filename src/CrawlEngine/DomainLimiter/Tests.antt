-- ===== src/CrawlEngine/DomainLimiter/Tests.antt =====
-- The limiter (domain_limiter.rs) over a list of entries, the one used last in front.
use kodegen_tools_citescrape.Base.{
  ℕ, suc, ◌+◌, ◌≤◌, ◌<◌, ◌≡◌, ◌≢◌, refl, inl, inr, String, str_eq, eq_iff, Option, none, some, List,
  [], ◌∷◌, arith, length, ltb, if◌then◌else◌, Bool-cases,
}
use kodegen_tools_citescrape.CrawlEngine.DomainLimiter.{
  LruCache, max_domain_semaphores, Request, Limited, new, create, get_or_create, find_semaphore,
  acquire, grant, calls, gets, Reach, here, next, start,
}
use kodegen_tools_citescrape.CrawlEngine.DomainLimiter.Invariant.{holding, running}
use kodegen_tools_citescrape.CrawlEngine.DomainLimiter.Permits.{semaphore_bound, running_bound}

abbrev Entries : Type 0
Entries = List (String × ℕ)

abbrev find : String → Entries → Option ℕ
find k [] = none
find k ((j, v) ∷ c) = if str_eq j k then some v else find k c

abbrev drop_first : String → Entries → Entries
drop_first k [] = []
drop_first k ((j, v) ∷ c) = if str_eq j k then c else (j, v) ∷ drop_first k c

abbrev drop_last : Entries → Entries
drop_last [] = []
drop_last (e ∷ []) = []
drop_last (e ∷ e' ∷ c) = e ∷ drop_last (e' ∷ c)

abbrev to_front : String → Option ℕ → Entries → Entries
to_front k none c = c
to_front k (some v) c = (k, v) ∷ drop_first k c

abbrev put_in : ℕ → String → ℕ → Option ℕ → Entries → Entries
put_in cap k v (some old) c = (k, v) ∷ drop_first k c
put_in cap k v none c = (k, v) ∷ (if ltb (length c) cap then c else drop_last c)

find-drop_first : (j k : String) (c : Entries) → j ≢ k → find j (drop_first k c) ≡ find j c
find-drop_first j k [] n = refl
find-drop_first j k ((i, v) ∷ c) n = ground (arith, eq_iff i j, eq_iff i k, find-drop_first j k c n)

length-drop_first :
    (k : String) (v : ℕ) (c : Entries) → find k c ≡ some v → length (drop_first k c) + 1 ≡ length c
length-drop_first k v [] e = cc
length-drop_first k v ((i, w) ∷ c) e = ground (arith, length-drop_first k v c)

find-drop_last :
    (j : String) (w : ℕ) (c : Entries) → find j (drop_last c) ≡ some w → find j c ≡ some w
find-drop_last j w [] e = e
find-drop_last j w (x ∷ []) e = cc
find-drop_last j w (x ∷ y ∷ c) e = ground (arith, find-drop_last j w (y ∷ c))

length-drop_last : (c : Entries) → 0 < length c → length (drop_last c) + 1 ≡ length c
length-drop_last [] h = absurd (omega arith)
length-drop_last (x ∷ []) h = refl
length-drop_last (x ∷ y ∷ c) h = omega (arith, length-drop_last (y ∷ c) (omega arith))

find-to_front :
    (j k : String) (c : Entries) (o : Option ℕ) → find k c ≡ o → find j (to_front k o c) ≡ find j c
find-to_front j k c none e = refl
find-to_front j k c (some v) e = elim (Bool-cases (str_eq k j)) [
  | inl same ↦ ground (arith, eq_iff k j)
  | inr other ↦ ground (arith, eq_iff k j, find-drop_first j k c)
]

length-to_front :
    (k : String) (c : Entries) (o : Option ℕ) → find k c ≡ o → length (to_front k o c) ≡ length c
length-to_front k c none e = refl
length-to_front k c (some v) e = omega (arith, length-drop_first k v c e)

find-put_same :
    (cap : ℕ) (k : String) (v : ℕ) (o : Option ℕ) (c : Entries)
    → find k (put_in cap k v o c) ≡ some v
find-put_same cap k v none c = ground (arith, eq_iff k k)
find-put_same cap k v (some old) c = ground (arith, eq_iff k k)

find-put_other :
    (cap : ℕ) (j k : String) (v : ℕ) (o : Option ℕ) (c : Entries)
    → length c < cap
    → j ≢ k
    → find j (put_in cap k v o c) ≡ find j c
find-put_other cap j k v none c h n = ground (arith, eq_iff k j)
find-put_other cap j k v (some old) c h n = ground (arith, eq_iff k j, find-drop_first j k c n)

find-put_old :
    (cap : ℕ) (j k : String) (v w : ℕ) (o : Option ℕ) (c : Entries)
    → j ≢ k
    → find j (put_in cap k v o c) ≡ some w
    → find j c ≡ some w
find-put_old cap j k v w none c n e = ground (arith, eq_iff k j, find-drop_last j w c)
find-put_old cap j k v w (some old) c n e = ground (arith, eq_iff k j, find-drop_first j k c n)

length-put_new :
    (cap : ℕ) (k : String) (v : ℕ) (o : Option ℕ) (c : Entries)
    → o ≡ none
    → length c < cap
    → length (put_in cap k v o c) ≡ length c + 1
length-put_new cap k v none c e h = ground arith
length-put_new cap k v (some old) c e h = cc

length-put :
    (cap : ℕ) (k : String) (v : ℕ) (o : Option ℕ) (c : Entries)
    → find k c ≡ o
    → 0 < cap
    → length c ≤ cap
    → length (put_in cap k v o c) ≤ cap
length-put cap k v none c e p h = elim (Bool-cases (ltb (length c) cap)) [
  | inl room ↦ rw room (ground arith)
  | inr full ↦ rw full (ground (arith, length-drop_last c))
]
length-put cap k v (some old) c e p h = omega (arith, length-drop_first k old c e)

-- A map of at least one entry.
abbrev entries : (n : ℕ) → LruCache Entries
entries n = record {
  cap = suc n;
  empty = [];
  get = λ k c. (find k c, to_front k (find k c) c);
  put = λ k v c. put_in (suc n) k v (find k c) c;
  peek = find;
  size = length;
  peek-empty = λ k. refl;
  size-empty = refl;
  get_value = λ k c. refl;
  peek-get = λ j k c. find-to_front j k c (find k c) refl;
  size-get = λ k c. length-to_front k c (find k c) refl;
  peek-put_same = λ k v c. find-put_same (suc n) k v (find k c) c;
  peek-put_other = λ j k v c h m. find-put_other (suc n) j k v (find k c) c h m;
  peek-put_old = λ j k v w c m e. find-put_old (suc n) j k v w (find k c) c m e;
  size-put = λ k v c e h. length-put_new (suc n) k v (find k c) c e h;
  size-put-le = λ k v c h. length-put (suc n) k v (find k c) c refl (omega arith) h;
}

abbrev request : String → ℕ → Request
request domain id = record { domain = domain; semaphore = id }

abbrev asked : Limited Entries
asked = acquire (entries 999) "a" (start (entries 999) 1)

asked_waiting : asked.waiting ≡ request "a" 0 ∷ []
unfolding acquire find_semaphore get_or_create create new
asked_waiting = refl

abbrev granted : Limited Entries
granted = grant [] (request "a" 0) [] asked

run : Reach (entries 999) (start (entries 999) 1) granted
run =
    next (next here (calls "a" (start (entries 999) 1)))
      (gets [] (request "a" 0) [] asked asked_waiting)

granted_lem : (granted.limiter.created ≤ max_domain_semaphores) × (running "a" granted.held ≡ 1)
unfolding grant acquire find_semaphore get_or_create create new
granted_lem = (omega arith, refl)

semaphore_bound_example :
    (length granted.limiter.domain_semaphores ≤ max_domain_semaphores)
    × (holding 0 granted.held ≤ 1)
semaphore_bound_example = semaphore_bound (entries 999) 1 refl run 0

running_bound_example : running "a" granted.held ≤ 1
running_bound_example = running_bound (entries 999) 1 refl run granted_lem.0 "a"

-- With room for one domain, the limit of one request is lost once another domain came between.
abbrev tiny : LruCache Entries
tiny = entries 0

limit_lost :
    let s = grant [] (request "a" 0) [] (acquire tiny "a" (start tiny 1)) in
    let t = acquire tiny "a" (acquire tiny "b" s) in
    running "a" (grant (request "b" 1 ∷ []) (request "a" 2) [] t).held ≡ 2
unfolding grant acquire find_semaphore get_or_create create new
limit_lost = refl
