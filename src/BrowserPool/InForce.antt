-- ===== src/BrowserPool/InForce.antt =====
-- What the steps of the pool (src/browser_pool/mod.rs) do to its tasks, and what a shutdown has
-- put in force in each of its stages.
use kodegen_tools_citescrape.Base.{
  ℕ, zero, suc, ◌≡◌, refl, sym, subst, ◌∙◌, ◌⊎◌, inl, Bool, true, List, [], ◌∷◌, arith,
}
use kodegen_tools_citescrape.BrowserPool.{
  BrowserPoolConfig, Phase, at_check, at_pop, at_launch, at_wait, checking, launching, Acquirer,
  Scaler, resting, aborted, measured, scaling, Keepalive, sleeping, stopped, pinging, dropping,
  ReleaseTask, listening, exited, returning, closing, Stage, flagged, stopping, waiting, joining,
  draining, ended, BrowserPool, new,
}
use kodegen_tools_citescrape.BrowserPool.Acquire.{
  Outcome, launched, launch_failed, Next, goes, acquired, fails, acquire_timeout, acquire_step,
  after_error, settle, release,
}
use kodegen_tools_citescrape.BrowserPool.Background.{
  scale_step, scale_launched, remove_idle_browsers, keepalive_step, release_step, scaler_stops,
  keepalive_stops, shutdown_step,
}
use kodegen_tools_citescrape.BrowserPool.Steps.{
  Step, calls, acquires, drops_guard, scales, launches, removes_idle, pings, releases, stops_scaler,
  stops_keepalive, shuts_down, Reach, here, next,
}

-- The background tasks as they stand, the stage and the flags that they read.
pub record Tasks : Type 0 where
  pub scaler : Scaler
  pub keepalive : Keepalive
  pub release_task : ReleaseTask
  pub stage : Stage
  pub shutdown : Bool
  pub closed : Bool

abbrev pub tasks : BrowserPool → Tasks
tasks s = record {
  scaler = s.scaler;
  keepalive = s.keepalive;
  release_task = s.release_task;
  stage = s.stage;
  shutdown = s.shutdown;
  closed = s.closed;
}

pub acquire_step-tasks :
    (now : ℕ) (outcome : Outcome) (s : BrowserPool) (a : Acquirer) (p : Phase)
    → (tasks (acquire_step now outcome s a p).0 ≡ tasks s)
      × ((s.available ≡ []) → (acquire_step now outcome s a p).0.available ≡ [])
unfolding acquire_step after_error
acquire_step-tasks now outcome s a at_check = ground arith
acquire_step-tasks now outcome s a at_pop = ground arith
acquire_step-tasks now outcome s a (checking b) = ground arith
acquire_step-tasks now outcome s a at_launch = ground arith
acquire_step-tasks now launched s a (launching id) = ground arith
acquire_step-tasks now (launch_failed e) s a (launching id) = ground arith
acquire_step-tasks now outcome s a (launching id) = ground arith
acquire_step-tasks now outcome s a at_wait = ground arith

pub settle-tasks :
    (before : List Acquirer) (a : Acquirer) (after : List Acquirer) (s : BrowserPool) (n : Next)
    → (tasks (settle before a after (s, n)) ≡ tasks s)
      × ((settle before a after (s, n)).available ≡ s.available)
unfolding settle
settle-tasks before a after s (goes phase backoff) = (refl, refl)
settle-tasks before a after s (acquired b) = (refl, refl)
settle-tasks before a after s (fails e) = (refl, refl)

-- The first two sections of a shutdown set the flag and close the semaphore.
pub record InForce (t : Tasks) : Type 0 where
  pub flag : (t.stage ≡ Stage.running) ⊎ (t.shutdown ≡ true)
  pub shut : (t.stage ≡ Stage.running) ⊎ (t.stage ≡ flagged) ⊎ (t.closed ≡ true)

scale_step-InForce :
    (config : BrowserPoolConfig) (s : BrowserPool) (c : Scaler)
    → InForce (tasks s)
    → InForce (tasks (scale_step config s c))
unfolding scale_step
scale_step-InForce config s resting h = record { flag = h.flag; shut = h.shut }
scale_step-InForce config s aborted h = h
scale_step-InForce config s (measured n) h = ground arith
scale_step-InForce config s (scaling (suc n) ids results) h = ground arith
scale_step-InForce config s (scaling zero [] results) h = record { flag = h.flag; shut = h.shut }
scale_step-InForce config s (scaling zero (id ∷ ids) results) h = h

keepalive_step-InForce :
    (now : ℕ) (answers : List Bool) (s : BrowserPool) (k : Keepalive)
    → InForce (tasks s)
    → InForce (tasks (keepalive_step now answers s k))
unfolding keepalive_step
keepalive_step-InForce now answers s sleeping h = ground arith
keepalive_step-InForce now answers s stopped h = h
keepalive_step-InForce now answers s (pinging bs) h = ground arith
keepalive_step-InForce now answers s (dropping bs) h = ground arith

release_step-InForce :
    (s : BrowserPool) (t : ReleaseTask) → InForce (tasks s) → InForce (tasks (release_step s t))
unfolding release_step
release_step-InForce s listening h = ground arith
release_step-InForce s exited h = h
release_step-InForce s (returning b) h = ground arith
release_step-InForce s (closing b) h = ground arith

shutdown_step-InForce :
    (late : Bool) (s : BrowserPool) (g : Stage)
    → s.stage ≡ g
    → InForce (tasks s)
    → InForce (tasks (shutdown_step late s g))
unfolding shutdown_step
shutdown_step-InForce late s Stage.running e h = ground arith
shutdown_step-InForce late s flagged e h = ground arith
shutdown_step-InForce late s stopping e h = ground arith
shutdown_step-InForce late s waiting e h = ground arith
shutdown_step-InForce late s joining e h = ground arith
shutdown_step-InForce late s draining e h = ground arith
shutdown_step-InForce late s ended e h = ground arith

Step-InForce :
    (config : BrowserPoolConfig) {s t : BrowserPool}
    → Step config s t
    → InForce (tasks s)
    → InForce (tasks t)
unfolding acquire_timeout release remove_idle_browsers scale_launched scaler_stops keepalive_stops
Step-InForce config (calls now timeout s) h = ground arith
Step-InForce config (acquires now outcome s before a after e) h =
    let r = acquire_step now outcome s a a.phase in
    let same : tasks (settle before a after r) ≡ tasks s =
      (settle-tasks before a after r.0 r.1).0 ∙ (acquire_step-tasks now outcome s a a.phase).0 in
    subst InForce (sym same) h
Step-InForce config (drops_guard now s before b after e) h = ground arith
Step-InForce config (scales s) h = scale_step-InForce config s s.scaler h
Step-InForce config (launches now ok s n before id after results e) h = ground arith
Step-InForce config (removes_idle now s e) h = ground arith
Step-InForce config (pings now answers s) h = keepalive_step-InForce now answers s s.keepalive h
Step-InForce config (releases s) h = release_step-InForce s s.release_task h
Step-InForce config (stops_scaler s e) h = ground arith
Step-InForce config (stops_keepalive s e) h = ground arith
Step-InForce config (shuts_down late s) h = shutdown_step-InForce late s s.stage refl h

pub Reach-InForce :
    (config : BrowserPoolConfig) {s : BrowserPool} → Reach config (new config) s → InForce (tasks s)
unfolding new
Reach-InForce config here = record { flag = inl refl; shut = inl refl }
Reach-InForce config (next r st) = Step-InForce config st (Reach-InForce config r)
