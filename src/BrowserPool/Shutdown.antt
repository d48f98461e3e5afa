-- ===== src/BrowserPool/Shutdown.antt =====
-- What a shutdown of the pool (src/browser_pool/mod.rs) leaves.
use kodegen_tools_citescrape.Base.{
  ℕ, zero, suc, ◌<◌, ◌≡◌, refl, ap, Bool, true, List, [], ◌∷◌, ◌++◌, length, arith,
}
use kodegen_tools_citescrape.BrowserPool.{
  BrowserPoolConfig, PooledBrowser, Scaler, resting, aborted, measured, scaling, Keepalive,
  sleeping, stopped, pinging, dropping, ReleaseTask, listening, exited, returning, closing, Stage,
  flagged, stopping, waiting, joining, draining, ended, BrowserPool, new,
}
use kodegen_tools_citescrape.BrowserPool.Acquire.{acquire_timeout, acquire_step, release}
use kodegen_tools_citescrape.BrowserPool.Background.{
  scale_step, scale_launched, remove_idle_browsers, sort_answers, keepalive_step, receive,
  release_step, scaler_holds, scaler_stops, keepalive_stops, shutdown_step,
}
use kodegen_tools_citescrape.BrowserPool.Steps.{
  Step, calls, acquires, drops_guard, scales, launches, removes_idle, pings, releases, stops_scaler,
  stops_keepalive, shuts_down, Reach, here, next,
}
use kodegen_tools_citescrape.BrowserPool.InForce.{
  tasks, acquire_step-tasks, settle-tasks, InForce, Reach-InForce,
}

-- The browsers that are being pinged, and those that the release task is about to return.
abbrev pub pinged : Keepalive → ℕ
pinged (pinging bs) = length bs
pinged _ = 0

abbrev pub returned : ReleaseTask → ℕ
returned (returning b) = 1
returned _ = 0

-- Nothing will add a browser to the available ones.
record Over (s : BrowserPool) : Type 0 where
  flag : s.shutdown ≡ true
  shut : s.closed ≡ true
  no_launch : scaler_holds s.scaler ≡ 0
  no_ping : pinged s.keepalive ≡ 0
  no_return : returned s.release_task ≡ 0
  empty : s.available ≡ []

scale_step-Over :
    (config : BrowserPoolConfig) (s : BrowserPool) (c : Scaler)
    → s.scaler ≡ c
    → Over s
    → Over (scale_step config s c)
unfolding scale_step
scale_step-Over config s resting e v = ground arith
scale_step-Over config s aborted e v = v
scale_step-Over config s (measured n) e v = ground arith
scale_step-Over config s (scaling (suc n) ids results) e v = ground arith
scale_step-Over config s (scaling zero [] []) e v = ground arith
scale_step-Over config s (scaling zero [] (b ∷ bs)) e v =
    absurd (ground (arith, ap scaler_holds e, v.no_launch))
scale_step-Over config s (scaling zero (id ∷ ids) results) e v = v

launch-holds :
    (n : ℕ) (before : List ℕ) (id : ℕ) (after : List ℕ) (results : List PooledBrowser)
    → 0 < scaler_holds (scaling n (before ++ id ∷ after) results)
launch-holds n [] id after results = omega arith
launch-holds n (b ∷ before) id after results = omega arith

keepalive_step-Over :
    (now : ℕ) (answers : List Bool) (s : BrowserPool) (k : Keepalive)
    → s.keepalive ≡ k
    → Over s
    → Over (keepalive_step now answers s k)
unfolding keepalive_step sort_answers
keepalive_step-Over now answers s sleeping e v = ground arith
keepalive_step-Over now answers s stopped e v = v
keepalive_step-Over now answers s (pinging []) e v = ground arith
keepalive_step-Over now answers s (pinging (b ∷ bs)) e v =
    absurd (ground (arith, ap pinged e, v.no_ping))
keepalive_step-Over now answers s (dropping bs) e v = ground arith

release_step-Over :
    (s : BrowserPool) (t : ReleaseTask) → s.release_task ≡ t → Over s → Over (release_step s t)
unfolding release_step receive
release_step-Over s listening e v = ground arith
release_step-Over s exited e v = v
release_step-Over s (returning b) e v = absurd (ground (arith, ap returned e, v.no_return))
release_step-Over s (closing b) e v = ground arith

shutdown_step-Over :
    (late : Bool) (s : BrowserPool) (g : Stage) → Over s → Over (shutdown_step late s g)
unfolding shutdown_step
shutdown_step-Over late s Stage.running v = ground arith
shutdown_step-Over late s flagged v = ground arith
shutdown_step-Over late s stopping v = ground arith
shutdown_step-Over late s waiting v = ground arith
shutdown_step-Over late s joining v = ground arith
shutdown_step-Over late s draining v = ground arith
shutdown_step-Over late s ended v = v

Step-Over : (config : BrowserPoolConfig) {s t : BrowserPool} → Step config s t → Over s → Over t
unfolding acquire_timeout release remove_idle_browsers scale_launched scaler_stops keepalive_stops
Step-Over config (calls now timeout s) v = ground arith
Step-Over config (acquires now outcome s before a after e) v =
    let r = acquire_step now outcome s a a.phase in
    let m = settle-tasks before a after r.0 r.1 in
    let q = acquire_step-tasks now outcome s a a.phase in
    let rest = q.1 v.empty in ground (arith, m.0, m.1, q.0, rest)
Step-Over config (drops_guard now s before b after e) v = ground arith
Step-Over config (scales s) v = scale_step-Over config s s.scaler refl v
Step-Over config (launches now ok s n before id after results e) v =
    absurd (ground (arith, ap scaler_holds e, v.no_launch, launch-holds n before id after results))
Step-Over config (removes_idle now s e) v = ground arith
Step-Over config (pings now answers s) v = keepalive_step-Over now answers s s.keepalive refl v
Step-Over config (releases s) v = release_step-Over s s.release_task refl v
Step-Over config (stops_scaler s e) v = ground arith
Step-Over config (stops_keepalive s e) v = ground arith
Step-Over config (shuts_down late s) v = shutdown_step-Over late s s.stage v

Reach-Over : (config : BrowserPoolConfig) {s t : BrowserPool} → Over s → Reach config s t → Over t
Reach-Over config v here = v
Reach-Over config v (next r st) = Step-Over config st (Reach-Over config v r)

drains-Over :
    (late : Bool) (s : BrowserPool)
    → s.stage ≡ draining
    → InForce (tasks s)
    → scaler_holds s.scaler ≡ 0
    → pinged s.keepalive ≡ 0
    → returned s.release_task ≡ 0
    → Over (shutdown_step late s draining)
unfolding shutdown_step
drains-Over late s e f a b c = ground (arith, f.flag, f.shut)

-- Where a shutdown drains the available browsers while the scaler has no launch in progress and no
-- launched browser, the keepalive has no browser to ping and the release task has none to return,
-- the pool stays empty for ever: whatever the tasks and the callers do then, aborted or not, no
-- browser becomes available.
pub drained_for_good :
    (config : BrowserPoolConfig) {s t : BrowserPool} (late : Bool)
    → Reach config (new config) s
    → s.stage ≡ draining
    → scaler_holds s.scaler ≡ 0
    → pinged s.keepalive ≡ 0
    → returned s.release_task ≡ 0
    → Reach config (shutdown_step late s draining) t
    → t.available ≡ []
drained_for_good config {s} late r e a b c q =
    (Reach-Over config (drains-Over late s e (Reach-InForce config r) a b c) q).empty
