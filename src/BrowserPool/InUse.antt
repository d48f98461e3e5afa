-- ===== src/BrowserPool/InUse.antt =====
-- The count of the browsers in use (src/browser_pool/mod.rs) against the browsers that are.
use kodegen_tools_citescrape.Base.{
  ℕ, ◌+◌, ◌≤◌, ◌<◌, ◌≡◌, refl, ap, ◌⊎◌, inl, inr, ◌∙◌, Bool, false, List, ◌∷◌, ◌++◌, arith,
}
use kodegen_tools_citescrape.BrowserPool.{
  BrowserPoolConfig, PooledBrowser, Stage, flagged, stopping, waiting, joining, draining, ended,
  BrowserPool, new, add_one, sub_one, word,
}
use kodegen_tools_citescrape.BrowserPool.Acquire.{release}
use kodegen_tools_citescrape.BrowserPool.Background.{shutdown_step}
use kodegen_tools_citescrape.BrowserPool.Weights.{used, others, one, browsers, browsers-append}
use kodegen_tools_citescrape.BrowserPool.Steps.{Step, drops_guard, Reach, here, next}
use kodegen_tools_citescrape.BrowserPool.Flags.{flags, Step-flags, InOrder, Step-InOrder}
use kodegen_tools_citescrape.BrowserPool.Capacity.{capacity}
use kodegen_tools_citescrape.BrowserPool.Effects.{EffectOf, Step-Effect}

shutdown_step-sender :
    (late : Bool) (s : BrowserPool) (g : Stage)
    → s.release_open ≡ false
    → (shutdown_step late s g).release_open ≡ false
unfolding shutdown_step
shutdown_step-sender late s Stage.running e = e
shutdown_step-sender late s flagged e = e
shutdown_step-sender late s stopping e = e
shutdown_step-sender late s waiting e = ground arith
shutdown_step-sender late s joining e = ground arith
shutdown_step-sender late s draining e = e
shutdown_step-sender late s ended e = e

Step-sender :
    (config : BrowserPoolConfig) {s t : BrowserPool}
    → Step config s t
    → s.release_open ≡ false
    → t.release_open ≡ false
Step-sender config {s} st e = elim (Step-flags config st) [
  | inl same ↦ ap (λ f. f.sender) same ∙ e
  | inr (late, moved) ↦ ap (λ f. f.sender) moved ∙ shutdown_step-sender late s s.stage e
]

record Counted (config : BrowserPoolConfig) (s : BrowserPool) : Type 0 where
  order : InOrder (flags s)
  at_least : used one s ≤ s.in_use_count
  exact : (s.release_open ≡ false) ⊎ (used one s ≡ s.in_use_count)
  room : s.in_use_count + others one s ≤ config.max_pool_size

Step-Counted :
    (config : BrowserPoolConfig) {s t : BrowserPool}
    → config.max_pool_size < word
    → s.permits + used one s + others one s ≡ config.max_pool_size
    → Step config s t
    → Counted config s
    → Counted config t
Step-Counted config {s} {t} small total st v =
    let order = v.order in
    let at_least = v.at_least in
    let exact = v.exact in
    let room = v.room in
    let effect = Step-Effect config st in
    record {
      order = Step-InOrder config st order;
      at_least =
          unfold add_one sub_one in ground (arith, order, at_least, exact, room, effect, total);
      exact = elim exact [
        | inl gone ↦ inl (Step-sender config st gone)
        | inr same ↦
            unfold add_one sub_one in
            ground (arith, order, same, room, effect, total, Step-sender config st)
      ];
      room = unfold add_one sub_one in ground (arith, order, at_least, exact, room, effect, total);
    }

Reach-Counted :
    (config : BrowserPoolConfig) {s : BrowserPool}
    → config.max_pool_size < word
    → Reach config (new config) s
    → Counted config s
unfolding new
Reach-Counted config small here = record {
  order = record { closed_late = refl; sender_last = refl };
  at_least = omega arith;
  exact = inr refl;
  room = omega arith;
}
Reach-Counted config small (next r st) =
    Step-Counted config small (capacity config r) st (Reach-Counted config small r)

Reach-trans :
    (config : BrowserPoolConfig) {s t u : BrowserPool}
    → Reach config s t
    → Reach config t u
    → Reach config s u
Reach-trans config r here = r
Reach-trans config r (next q st) = next (Reach-trans config r q) st

still_more :
    (max_pool_size : ℕ) (t u : BrowserPool)
    → max_pool_size < word
    → used one t < t.in_use_count
    → t.in_use_count + others one t ≤ max_pool_size
    → EffectOf t u
    → used one u < u.in_use_count
unfolding add_one sub_one
still_more max_pool_size t u small m r e = ground arith

-- A browser that is dropped by its guard stays counted.
stays_counted :
    (config : BrowserPoolConfig) {s t : BrowserPool}
    → config.max_pool_size < word
    → Reach config (new config) s
    → s.release_open ≡ false
    → used one s < s.in_use_count
    → Reach config s t
    → (used one t < t.in_use_count) × (t.release_open ≡ false)
stays_counted config small reached gone more here = (more, gone)
stays_counted config small reached gone more (next {t} {u} r st) =
    let (more', gone') = stays_counted config small reached gone more r in
    let room = (Reach-Counted config small (Reach-trans config reached r)).room in
    let effect = Step-Effect config st in
    (still_more config.max_pool_size t u small more' room effect, Step-sender config st gone')

release_late :
    (now : ℕ) (before : List PooledBrowser) (b : PooledBrowser) (after : List PooledBrowser)
    (s : BrowserPool)
    → s.release_open ≡ false
    → s.guards ≡ before ++ b ∷ after
    → used one s ≤ s.in_use_count
    → let t = release now b (record s { guards = before ++ after }) in
      (used one t < t.in_use_count) × (t.release_open ≡ false)
unfolding release
release_late now before b after s gone e least =
    let split = ap (browsers one) e ∙ browsers-append one before (b ∷ after) in
    let joined = browsers-append one before after in (ground (arith, split, joined), rw gone refl)

-- Once a shutdown has given up waiting, a browser whose guard is then dropped never leaves the
-- count: it stays above zero whatever else happens.
pub late_release_counted :
    (config : BrowserPoolConfig) {s t : BrowserPool} (now : ℕ) (before : List PooledBrowser)
    (b : PooledBrowser) (after : List PooledBrowser)
    → config.max_pool_size < word
    → Reach config (new config) s
    → s.release_open ≡ false
    → s.guards ≡ before ++ b ∷ after
    → Reach config (release now b (record s { guards = before ++ after })) t
    → 0 < t.in_use_count
late_release_counted config {s} now before b after small reached gone e r =
    let least = (Reach-Counted config small reached).at_least in
    let (fewer, closed) = release_late now before b after s gone e least in
    let dropped = next reached (drops_guard now s before b after e) in
    omega (arith, (stays_counted config small dropped closed fewer r).0)
