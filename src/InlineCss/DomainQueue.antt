-- ===== src/InlineCss/DomainQueue.antt =====
-- src/inline_css/domain_queue.rs: the worker that downloads the resources of a domain one at a time,
-- with the response cache that all pages share. The crate url and the network are parameters: what
-- `Url::parse` yields and how a `Url` prints, and for each request the outcome that the network
-- would have at its turn. The wait for the rate limiter and log output are left out.
pub mod Keys
pub mod Worker
mod Tests
use kodegen_tools_citescrape.Base.{
  ℕ, ◌+◌, String, str_eq, Bool, true, false, ◌&&◌, ◌||◌, Option, none, some, List, [], ◌∷◌, Map,
  lookup, insert, length, leb, ltb, ◌==◌, if◌then◌else◌,
}

-- A parsed URL: the parts that the normalization looks at, and all the others.
pub record Url (R : Type 0) : Type 0 where
  pub scheme : String
  pub port : Option ℕ
  pub path : List ℕ
  pub others : R

-- `path.trim_end_matches('/')`.
unfoldable pub trim_end_slashes : List ℕ → List ℕ
trim_end_slashes [] = []
trim_end_slashes (c ∷ cs) =
    let rest = trim_end_slashes cs in if (c == 47) && (length rest == 0) then [] else c ∷ rest

unfoldable pub ends_with_slash : List ℕ → Bool
ends_with_slash [] = false
ends_with_slash (c ∷ []) = c == 47
ends_with_slash (c ∷ d ∷ cs) = ends_with_slash (d ∷ cs)

unfoldable pub default_port : String → Option ℕ → Option ℕ
default_port scheme none = none
default_port scheme (some port) =
    if (str_eq scheme "http" && (port == 80)) || (str_eq scheme "https" && (port == 443))
    then none
    else some port

-- The changes that `normalize_url_for_cache` makes to the parsed URL; `set_path` gives the path
-- that the URL has after a path was set.
unfoldable pub normalize : {R : Type 0} → (List ℕ → List ℕ) → Url R → Url R
normalize set_path parsed = record parsed {
  port = default_port parsed.scheme parsed.port;
  path =
      if ltb 1 (length parsed.path) && ends_with_slash parsed.path
      then set_path (trim_end_slashes parsed.path)
      else parsed.path;
}

printed : {R : Type 0} → (List ℕ → List ℕ) → (Url R → String) → String → Option (Url R) → String
unfolding normalize
printed set_path to_string url none = url
printed set_path to_string url (some parsed) = to_string (normalize set_path parsed)

unfoldable pub normalize_url_for_cache :
    {R : Type 0}
    → (List ℕ → List ℕ)
    → (String → Option (Url R))
    → (Url R → String)
    → String
    → String
unfolding printed
normalize_url_for_cache set_path parse to_string url = printed set_path to_string url (parse url)

pub data CachedResponse : Type 0 where
  success : List ℕ → CachedResponse
  error : ℕ → CachedResponse

pub data DownloadError : Type 0 where
  request_failed : DownloadError
  invalid_domain not_found : String → DownloadError
  http_error : String → ℕ → Bool → DownloadError

abbrev pub is_from_cache : DownloadError → Bool
is_from_cache (http_error url status from_cache) = from_cache
is_from_cache _ = false

pub data DownloadResult : Type 0 where
  ok : List ℕ → DownloadResult
  err : DownloadError → DownloadResult

-- What the network does with a request: nothing comes back, or a status and, unless reading it
-- fails, a body.
pub data Fetch : Type 0 where
  unreachable : Fetch
  responds : ℕ → Option (List ℕ) → Fetch

abbrev pub Cache : Type 0
Cache = Map CachedResponse

-- The statuses 4xx and 5xx, and 2xx.
abbrev pub is_error : ℕ → Bool
is_error status = leb 400 status && ltb status 600

abbrev pub is_success : ℕ → Bool
is_success status = leb 200 status && ltb status 300

read_body : String → Option (List ℕ) → Cache → DownloadResult × Cache
read_body key none cache = (err request_failed, cache)
read_body key (some bytes) cache = (ok bytes, insert key (success bytes) cache)

-- `download_bytes`; the key is that of the URL.
unfoldable pub download_bytes : String → String → Fetch → Cache → DownloadResult × Cache
unfolding read_body
download_bytes key url unreachable cache = (err request_failed, cache)
download_bytes key url (responds status body) cache =
    if is_error status
    then (err (http_error url status false), insert key (error status) cache)
    else if is_success status
    then read_body key body cache
    else (err request_failed, cache)

-- What the worker answers: the result, the cache after it, and whether it asked the network.
pub record Answer : Type 0 where
  pub result : DownloadResult
  pub cache : Cache
  pub downloaded : Bool

answer_from : String → String → Fetch → Cache → Option CachedResponse → Answer
unfolding download_bytes
answer_from key url fetch cache (some (success bytes)) = record {
  result = ok bytes;
  cache = cache;
  downloaded = false;
}
answer_from key url fetch cache (some (error status)) = record {
  result = err (http_error url status true);
  cache = cache;
  downloaded = false;
}
answer_from key url fetch cache none =
    let (result, cache') = download_bytes key url fetch cache in
    record { result = result; cache = cache'; downloaded = true }

-- One round of `worker_loop`, with the cache key of the request.
unfoldable pub serve : String → String → Fetch → Cache → Answer
unfolding answer_from
serve key url fetch cache = answer_from key url fetch cache (lookup key cache)

-- A request and the network's answer at its turn.
pub record Request : Type 0 where
  pub url : String
  pub fetch : Fetch

-- `worker_loop` over the requests received, with the function that makes cache keys.
unfoldable pub worker_loop : (String → String) → List Request → Cache → List Answer
unfolding serve
worker_loop key [] cache = []
worker_loop key (r ∷ rs) cache =
    let answer = serve (key r.url) r.url r.fetch cache in answer ∷ worker_loop key rs answer.cache
