-- ===== src/InlineCss/DomainQueue/Worker.antt =====
-- What the worker of domain_queue.rs answers: no resource is downloaded twice once its response is
-- in the cache, and all answers for it agree.
use kodegen_tools_citescrape.Base.{
  ℕ, ◌+◌, ◌≤◌, String, str_eq, eq_iff, ◌≡◌, refl, ◌⊎◌, inl, inr, Bool, true, false, ◌&&◌, Option,
  none, some, List, [], ◌∷◌, arith, lookup, insert, lookup-insert_self, lookup-insert,
  if◌then◌else◌, Bool-cases, Option-cases,
}
use kodegen_tools_citescrape.InlineCss.DomainQueue.{
  CachedResponse, success, error, request_failed, http_error, DownloadResult, ok, err, Fetch,
  unreachable, responds, Cache, is_error, is_success, read_body, download_bytes, Answer,
  answer_from, serve, Request, worker_loop,
}

-- The answer is the cached response, whether it came from the cache or not.
abbrev pub Agrees : CachedResponse → DownloadResult → Type 0
Agrees (success bytes) r = r ≡ ok bytes
Agrees (error status) r =
    (url : String) × (from_cache : Bool) × (r ≡ err (http_error url status from_cache))

abbrev pub AgreesWith : Option CachedResponse → DownloadResult → Type 0
AgreesWith none r = r ≡ err request_failed
AgreesWith (some c) r = Agrees c r

-- What one request does to the cache.
record Served (k : String) (a : Answer) (cache : Cache) : Type 0 where
  kept : (j : String) (c : CachedResponse) → lookup j cache ≡ some c → lookup j a.cache ≡ some c
  agrees : AgreesWith (lookup k a.cache) a.result
  cached : (c : CachedResponse) → lookup k cache ≡ some c → a.downloaded ≡ false

keeps :
    (k j : String) (c d : CachedResponse) (cache : Cache)
    → lookup k cache ≡ none
    → lookup j cache ≡ some c
    → lookup j (insert k d cache) ≡ some c
keeps k j c d cache absent held = ground (arith, eq_iff k j, lookup-insert k j d cache)

served :
    (k url : String) (fetch : Fetch) (cache : Cache) (o : Option CachedResponse)
    → lookup k cache ≡ o
    → Served k (answer_from k url fetch cache o) cache
unfolding answer_from download_bytes read_body
served k url fetch cache (some (success bytes)) l = record {
  kept = λ j c h. h;
  agrees = rw l refl;
  cached = λ c h. refl;
}
served k url fetch cache (some (error status)) l = record {
  kept = λ j c h. h;
  agrees = rw l (url, true, refl);
  cached = λ c h. refl;
}
served k url unreachable cache none l = record {
  kept = λ j c h. h;
  agrees = rw l refl;
  cached = λ c h. absurd (ground (arith, h, l));
}
served k url (responds status body) cache none l = elim (Bool-cases (is_error status)) [
  | inl fails ↦ rw fails (record {
    kept = λ j c h. keeps k j c (error status) cache l h;
    agrees = rw (lookup-insert_self k (error status) cache) (url, false, refl);
    cached = λ c h. absurd (ground (arith, h, l));
  })
  | inr fine ↦ elim (Bool-cases (is_success status)) [
    | inl good ↦ rw (fine, good) (with_body body)
    | inr other ↦
        rw (fine, other)
          (record {
            kept = λ j c h. h;
            agrees = rw l refl;
            cached = λ c h. absurd (ground (arith, h, l));
          })
  ]
]
  where
    with_body :
        (b : Option (List ℕ))
        → Served k
            (record {
              result = (read_body k b cache).0;
              cache = (read_body k b cache).1;
              downloaded = true;
            })
            cache
    with_body none = record {
      kept = λ j c h. h;
      agrees = rw l refl;
      cached = λ c h. absurd (ground (arith, h, l));
    }
    with_body (some bytes) = record {
      kept = λ j c h. keeps k j c (success bytes) cache l h;
      agrees = rw (lookup-insert_self k (success bytes) cache) refl;
      cached = λ c h. absurd (ground (arith, h, l));
    }

-- The cache after the requests.
abbrev pub cache_after : List Answer → Cache → Cache
cache_after [] cache = cache
cache_after (a ∷ as_) cache = cache_after as_ a.cache

abbrev is_cached : Option CachedResponse → Bool
is_cached none = false
is_cached (some c) = true

-- The requests for a key whose download left a response in the cache.
abbrev pub downloads_cached : (String → String) → String → List Request → List Answer → ℕ
downloads_cached key k [] as_ = 0
downloads_cached key k (r ∷ rs) [] = 0
downloads_cached key k (r ∷ rs) (a ∷ as_) =
    (if str_eq (key r.url) k && a.downloaded && is_cached (lookup k a.cache) then 1 else 0)
    + downloads_cached key k rs as_

-- Every answer agrees with what the cache holds for its request at last; where it then holds
-- nothing, the request failed.
abbrev pub AllAgree : (String → String) → List Request → List Answer → Cache → Type 0
AllAgree key [] as_ cache = Unit
AllAgree key (r ∷ rs) [] cache = Unit
AllAgree key (r ∷ rs) (a ∷ as_) cache =
    ((a.result ≡ err request_failed) ⊎ AgreesWith (lookup (key r.url) cache) a.result)
    × AllAgree key rs as_ cache

serve-Served :
    (k url : String) (fetch : Fetch) (cache : Cache) → Served k (serve k url fetch cache) cache
unfolding serve
serve-Served k url fetch cache = served k url fetch cache (lookup k cache) refl

cache_after-keeps :
    (key : String → String) (rs : List Request) (cache : Cache) (j : String) (c : CachedResponse)
    → lookup j cache ≡ some c
    → lookup j (cache_after (worker_loop key rs cache) cache) ≡ some c
unfolding worker_loop
cache_after-keeps key [] cache j c h = h
cache_after-keeps key (r ∷ rs) cache j c h =
    cache_after-keeps key rs _ j c ((serve-Served (key r.url) r.url r.fetch cache).kept j c h)

agrees_last :
    (result : DownloadResult) (o last : Option CachedResponse)
    → AgreesWith o result
    → ((c : CachedResponse) → o ≡ some c → last ≡ some c)
    → (result ≡ err request_failed) ⊎ AgreesWith last result
agrees_last result none last a h = inl a
agrees_last result (some c) last a h = inr (rw (h c refl) a)

-- Each answer of the worker is the response that the cache holds in the end for the key of its
-- URL, whether it was downloaded or came from the cache, or else a failure of the request itself.
pub worker_loop-AllAgree :
    (key : String → String) (rs : List Request) (cache : Cache)
    → AllAgree key rs (worker_loop key rs cache) (cache_after (worker_loop key rs cache) cache)
unfolding worker_loop
worker_loop-AllAgree key [] cache = tt
worker_loop-AllAgree key (r ∷ rs) cache =
    let k = key r.url in
    let a = serve k r.url r.fetch cache in
    (
      agrees_last a.result (lookup k a.cache) _ (serve-Served k r.url r.fetch cache).agrees
          (cache_after-keeps key rs a.cache k),
      worker_loop-AllAgree key rs a.cache,
    )

none_when_cached :
    (key : String → String) (k : String) (rs : List Request) (cache : Cache) (c : CachedResponse)
    → lookup k cache ≡ some c
    → downloads_cached key k rs (worker_loop key rs cache) ≡ 0
unfolding worker_loop
none_when_cached key k [] cache c h = refl
none_when_cached key k (r ∷ rs) cache c h =
    let f = serve-Served (key r.url) r.url r.fetch cache in
    let rest = none_when_cached key k rs _ c (f.kept k c h) in
    elim (Bool-cases (str_eq (key r.url) k)) [
      | inl same ↦
          let held : lookup (key r.url) cache ≡ some c = ground (arith, eq_iff (key r.url) k, h) in
          rw (same, f.cached c held) (omega (arith, rest))
      | inr other ↦ rw other (omega (arith, rest))
    ]

-- Whatever the requests and the network's answers, at most one download of a cache key yields a
-- response for the cache; once there is one, the key is not downloaded again.
pub downloads_cached_once :
    (key : String → String) (k : String) (rs : List Request) (cache : Cache)
    → downloads_cached key k rs (worker_loop key rs cache) ≤ 1
unfolding worker_loop
downloads_cached_once key k [] cache = omega arith
downloads_cached_once key k (r ∷ rs) cache =
    let a = serve (key r.url) r.url r.fetch cache in
    elim (Bool-cases (str_eq (key r.url) k && a.downloaded && is_cached (lookup k a.cache))) [
      | inr not_now ↦ rw not_now (omega (arith, downloads_cached_once key k rs a.cache))
      | inl first ↦ elim (Option-cases (lookup k a.cache)) [
        | inl nothing ↦ absurd (ground (arith, first, nothing))
        | inr (c, held) ↦
            let rest = none_when_cached key k rs a.cache c held in rw first (omega (arith, rest))
      ]
    ]
