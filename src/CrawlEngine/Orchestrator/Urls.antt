-- ===== src/CrawlEngine/Orchestrator/Urls.antt =====
-- Lists of the URLs of running tasks (orchestrator.rs).
use kodegen_tools_citescrape.Base.{
  String, ◌≡◌, refl, ap, true, false, ◌||◌, List, [], ◌∷◌, ◌++◌, arith, All, has, discard, Distinct,
  has-discard_ne, eq_iff,
}
use kodegen_tools_citescrape.CrawlEngine.Orchestrator.{Task}

abbrev pub urls : List Task → List String
urls [] = []
urls (t ∷ ts) = t.item.url ∷ urls ts

-- Each of the URLs has been visited.
abbrev pub AllVisited : List String → List String → Type 0
AllVisited visited = All (λ u. has u visited ≡ true)

pub urls-append : (xs ys : List Task) → urls (xs ++ ys) ≡ urls xs ++ urls ys
urls-append [] ys = refl
urls-append (t ∷ ts) ys = ap (λ us. t.item.url ∷ us) (urls-append ts ys)

pub has-append : (u : String) (xs ys : List String) → has u (xs ++ ys) ≡ (has u xs || has u ys)
has-append u [] ys = refl
has-append u (x ∷ xs) ys = ground (arith, has-append u xs ys)

pub Distinct-snoc :
    (u : String) (xs : List String) → Distinct xs → has u xs ≡ false → Distinct (xs ++ u ∷ [])
Distinct-snoc u [] d h = (refl, tt)
Distinct-snoc u (x ∷ xs) d h =
    ground (arith, Distinct-snoc u xs d.1, has-append x xs (u ∷ []), eq_iff u x, eq_iff x u)

-- The same, with the middle taken out.
pub Distinct-middle :
    (u : String) (xs ys : List String)
    → Distinct (xs ++ u ∷ ys)
    → Distinct (xs ++ ys) × (has u (xs ++ ys) ≡ false)
Distinct-middle u [] ys d = (d.1, d.0)
Distinct-middle u (x ∷ xs) ys d = ground (
  arith,
  Distinct-middle u xs ys d.1,
  has-append x xs (u ∷ ys),
  has-append x xs ys,
  eq_iff u x,
  eq_iff x u,
)

pub not_in_running :
    (u : String) (visited xs : List String)
    → AllVisited visited xs
    → has u visited ≡ false
    → has u xs ≡ false
not_in_running u visited [] v h = refl
not_in_running u visited (x ∷ xs) v h = ground (arith, eq_iff x u, not_in_running u visited xs v.1)

pub AllVisited-cons :
    (u : String) (visited xs : List String) → AllVisited visited xs → AllVisited (u ∷ visited) xs
AllVisited-cons u visited [] v = tt
AllVisited-cons u visited (x ∷ xs) v = (ground arith, AllVisited-cons u visited xs v.1)

pub AllVisited-discard :
    (u : String) (visited xs : List String)
    → has u xs ≡ false
    → AllVisited visited xs
    → AllVisited (discard u visited) xs
AllVisited-discard u visited [] h v = tt
AllVisited-discard u visited (x ∷ xs) h v = (
  ground (arith, eq_iff u x, eq_iff x u, has-discard_ne u x visited),
  AllVisited-discard u visited xs (ground arith) v.1,
)
