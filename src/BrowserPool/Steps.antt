-- ===== src/BrowserPool/Steps.antt =====
-- The interleavings of the tasks of src/browser_pool/mod.rs: one step is what a task does from one
-- await to the next. The first pass of the scaler is also the pre-warming in `start`, which comes
-- before the tasks are spawned: what is spawned later takes its steps later, and what no shutdown
-- aborts never stops.
use kodegen_tools_citescrape.Base.{ℕ, Bool, true, ◌≡◌, List, ◌∷◌, ◌++◌}
use kodegen_tools_citescrape.BrowserPool.{
  BrowserPoolConfig, PooledBrowser, Acquirer, resting, scaling, BrowserPool,
}
use kodegen_tools_citescrape.BrowserPool.Acquire.{
  Outcome, acquire_timeout, acquire_step, settle, release,
}
use kodegen_tools_citescrape.BrowserPool.Background.{
  scale_step, scale_launched, remove_idle_browsers, keepalive_step, release_step, is_aborting,
  scaler_stops, keepalive_stops, shutdown_step,
}

pub data Step (config : BrowserPoolConfig) : BrowserPool → BrowserPool → Type 0 where
  calls : (now timeout : ℕ) (s : BrowserPool) → Step config s (acquire_timeout now timeout s)
  acquires :
      (now : ℕ) (outcome : Outcome) (s : BrowserPool) (before : List Acquirer) (a : Acquirer)
      (after : List Acquirer)
      → s.acquirers ≡ before ++ a ∷ after
      → Step config s (settle before a after (acquire_step now outcome s a a.phase))
  drops_guard :
      (now : ℕ) (s : BrowserPool) (before : List PooledBrowser) (b : PooledBrowser)
      (after : List PooledBrowser)
      → s.guards ≡ before ++ b ∷ after
      → Step config s (release now b (record s { guards = before ++ after }))
  scales : (s : BrowserPool) → Step config s (scale_step config s s.scaler)
  launches :
      (now : ℕ) (launched : Bool) (s : BrowserPool) (n : ℕ) (before : List ℕ) (id : ℕ)
      (after : List ℕ) (results : List PooledBrowser)
      → s.scaler ≡ scaling n (before ++ id ∷ after) results
      → Step config s (scale_launched now launched before id after n results s)
  removes_idle :
      (now : ℕ) (s : BrowserPool)
      → s.scaler ≡ resting
      → Step config s (remove_idle_browsers config now s)
  pings :
      (now : ℕ) (answers : List Bool) (s : BrowserPool)
      → Step config s (keepalive_step now answers s s.keepalive)
  releases : (s : BrowserPool) → Step config s (release_step s s.release_task)
  stops_scaler : (s : BrowserPool) → is_aborting s.stage ≡ true → Step config s (scaler_stops s)
  stops_keepalive :
      (s : BrowserPool) → is_aborting s.stage ≡ true → Step config s (keepalive_stops s)
  shuts_down : (late : Bool) (s : BrowserPool) → Step config s (shutdown_step late s s.stage)

pub data Reach (config : BrowserPoolConfig) (s : BrowserPool) : BrowserPool → Type 0 where
  here : Reach config s s
  next : {t u : BrowserPool} → Reach config s t → Step config t u → Reach config s u
