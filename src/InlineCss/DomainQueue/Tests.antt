-- ===== src/InlineCss/DomainQueue/Tests.antt =====
-- The download worker (domain_queue.rs) on concrete requests.
use kodegen_tools_citescrape.Base.{ℕ, ◌≤◌, String, refl, none, some, List, [], ◌∷◌, codes}
use kodegen_tools_citescrape.InlineCss.DomainQueue.{
  Url, unreachable, responds, Request, worker_loop,
}
use kodegen_tools_citescrape.InlineCss.DomainQueue.Keys.{SetsPaths}
use kodegen_tools_citescrape.InlineCss.DomainQueue.Worker.{downloads_cached, downloads_cached_once}

abbrev set_path : List ℕ → List ℕ
set_path [] = 47 ∷ []
set_path (c ∷ cs) = c ∷ cs

set_path-SetsPaths : SetsPaths set_path
set_path-SetsPaths = record { root = refl; rooted = λ cs. refl }

abbrev page : Url String
page = record { scheme = "http"; port = some 80; path = codes "/a"; others = "host" }

-- A failed request, a download, and a request answered from the cache.
abbrev requests : List Request
requests =
    record { url = "u"; fetch = unreachable }
    ∷ record { url = "u"; fetch = responds 404 none }
    ∷ record { url = "u"; fetch = responds 200 (some []) }
    ∷ []

downloads_cached_once_example :
    downloads_cached (λ url. url) "u" requests (worker_loop (λ url. url) requests []) ≤ 1
downloads_cached_once_example = downloads_cached_once (λ url. url) "u" requests []
