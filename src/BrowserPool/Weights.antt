-- ===== src/BrowserPool/Weights.antt =====
-- Sums over the browsers and launches of a pool (src/browser_pool/mod.rs), weighted by their number.
use kodegen_tools_citescrape.Base.{ℕ, ◌+◌, ◌≡◌, refl, List, [], ◌∷◌, ◌++◌, arith, length}
use kodegen_tools_citescrape.BrowserPool.{
  PooledBrowser, Phase, checking, launching, Acquirer, Scaler, scaling, Keepalive, pinging,
  dropping, ReleaseTask, returning, closing, BrowserPool,
}

module _ (f : ℕ → ℕ) where
  abbrev pub browsers : List PooledBrowser → ℕ
  browsers [] = 0
  browsers (b ∷ bs) = f b.id + browsers bs

  abbrev pub launches : List ℕ → ℕ
  launches [] = 0
  launches (id ∷ ids) = f id + launches ids

  abbrev pub in_phase : Phase → ℕ
  in_phase (checking b) = f b.id
  in_phase (launching id) = f id
  in_phase _ = 0

  abbrev pub in_calls : List Acquirer → ℕ
  in_calls [] = 0
  in_calls (a ∷ calls) = in_phase a.phase + in_calls calls

  abbrev pub in_scaler : Scaler → ℕ
  in_scaler (scaling n ids results) = launches ids + browsers results
  in_scaler _ = 0

  abbrev pub in_keepalive : Keepalive → ℕ
  in_keepalive (pinging bs) = browsers bs
  in_keepalive (dropping bs) = browsers bs
  in_keepalive _ = 0

  abbrev pub in_release : ReleaseTask → ℕ
  in_release (returning b) = f b.id
  in_release (closing b) = f b.id
  in_release _ = 0

  -- The browsers that are handed out or on their way back.
  abbrev pub used : BrowserPool → ℕ
  used s = browsers s.guards + browsers s.release_queue + in_release s.release_task

  -- All others, and the launches.
  abbrev pub others : BrowserPool → ℕ
  others s =
      browsers s.available + in_calls s.acquirers + in_scaler s.scaler + in_keepalive s.keepalive

  pub browsers-append :
      (bs cs : List PooledBrowser) → browsers (bs ++ cs) ≡ browsers bs + browsers cs
  browsers-append [] cs = omega arith
  browsers-append (b ∷ bs) cs = omega (arith, browsers-append bs cs)

  pub launches-append : (is js : List ℕ) → launches (is ++ js) ≡ launches is + launches js
  launches-append [] js = omega arith
  launches-append (i ∷ is) js = omega (arith, launches-append is js)

  pub in_calls-append :
      (calls more : List Acquirer) → in_calls (calls ++ more) ≡ in_calls calls + in_calls more
  in_calls-append [] more = omega arith
  in_calls-append (a ∷ calls) more = omega (arith, in_calls-append calls more)

-- Every browser counts one.
abbrev pub one : ℕ → ℕ
one id = 1

pub browsers-one : (bs : List PooledBrowser) → browsers one bs ≡ length bs
browsers-one [] = refl
browsers-one (b ∷ bs) = omega (arith, browsers-one bs)

pub launches-one : (is : List ℕ) → launches one is ≡ length is
launches-one [] = refl
launches-one (i ∷ is) = omega (arith, launches-one is)
