-- ===== src/BrowserPool/Flags.antt =====
-- The flags of the pool (src/browser_pool/mod.rs) that `shutdown` changes: the shutdown flag,
-- the semaphore, the sender of the release channel and how far the shutdown has got.
use kodegen_tools_citescrape.Base.{
  ℕ, zero, suc, ◌≡◌, refl, sym, ap, subst, ◌⊎◌, inl, inr, ◌∙◌, Bool, true, false, not, ◌||◌, List,
  [], ◌∷◌, arith,
}
use kodegen_tools_citescrape.BrowserPool.{
  BrowserPoolConfig, Phase, at_check, at_pop, at_launch, at_wait, checking, launching, Acquirer,
  Scaler, resting, aborted, measured, scaling, Keepalive, sleeping, stopped, pinging, dropping,
  ReleaseTask, listening, exited, returning, closing, Stage, flagged, stopping, waiting, joining,
  draining, ended, BrowserPool,
}
use kodegen_tools_citescrape.BrowserPool.Acquire.{
  Outcome, launched, launch_failed, Next, goes, acquired, fails, acquire_timeout, acquire_step,
  after_error, settle, release,
}
use kodegen_tools_citescrape.BrowserPool.Background.{
  scale_step, scale_launched, remove_idle_browsers, keepalive_step, release_step, scaler_stops,
  keepalive_stops, shutdown_step,
}
use kodegen_tools_citescrape.BrowserPool.Steps.{
  Step, calls, acquires, drops_guard, scales, launches, removes_idle, pings, releases, stops_scaler,
  stops_keepalive, shuts_down,
}

pub record Flags : Type 0 where
  pub down : Bool
  pub closed : Bool
  pub sender : Bool
  pub stage : Stage

abbrev pub flags : BrowserPool → Flags
flags s = record { down = s.shutdown; closed = s.closed; sender = s.release_open; stage = s.stage }

acquire_step-flags :
    (now : ℕ) (outcome : Outcome) (s : BrowserPool) (a : Acquirer) (p : Phase)
    → flags (acquire_step now outcome s a p).0 ≡ flags s
unfolding acquire_step after_error
acquire_step-flags now outcome s a at_check = ground arith
acquire_step-flags now outcome s a at_pop = ground arith
acquire_step-flags now outcome s a (checking b) = ground arith
acquire_step-flags now outcome s a at_launch = ground arith
acquire_step-flags now launched s a (launching id) = ground arith
acquire_step-flags now (launch_failed e) s a (launching id) = ground arith
acquire_step-flags now outcome s a (launching id) = ground arith
acquire_step-flags now outcome s a at_wait = ground arith

settle-flags :
    (before : List Acquirer) (a : Acquirer) (after : List Acquirer) (s : BrowserPool) (n : Next)
    → flags (settle before a after (s, n)) ≡ flags s
unfolding settle
settle-flags before a after s (goes phase backoff) = refl
settle-flags before a after s (acquired b) = refl
settle-flags before a after s (fails e) = refl

scale_step-flags :
    (config : BrowserPoolConfig) (s : BrowserPool) (c : Scaler)
    → flags (scale_step config s c) ≡ flags s
unfolding scale_step
scale_step-flags config s (scaling (suc n) ids results) = ground arith
scale_step-flags config s (scaling zero [] results) = refl
scale_step-flags config s (scaling zero (id ∷ ids) results) = refl
scale_step-flags config s (measured n) = ground arith
scale_step-flags config s resting = refl
scale_step-flags config s aborted = refl

keepalive_step-flags :
    (now : ℕ) (answers : List Bool) (s : BrowserPool) (k : Keepalive)
    → flags (keepalive_step now answers s k) ≡ flags s
unfolding keepalive_step
keepalive_step-flags now answers s sleeping = ground arith
keepalive_step-flags now answers s stopped = refl
keepalive_step-flags now answers s (pinging bs) = refl
keepalive_step-flags now answers s (dropping bs) = refl

release_step-flags : (s : BrowserPool) (t : ReleaseTask) → flags (release_step s t) ≡ flags s
unfolding release_step
release_step-flags s listening = ground arith
release_step-flags s exited = refl
release_step-flags s (returning b) = refl
release_step-flags s (closing b) = refl

-- Where the step is not one of `shutdown`, the flags stay.
pub Step-flags :
    (config : BrowserPoolConfig) {s t : BrowserPool}
    → Step config s t
    → (flags t ≡ flags s) ⊎ ((late : Bool) × (flags t ≡ flags (shutdown_step late s s.stage)))
unfolding acquire_timeout release remove_idle_browsers scale_launched scaler_stops keepalive_stops
Step-flags config (calls now timeout s) = inl (ground arith)
Step-flags config (acquires now outcome s before a after e) =
    let r = acquire_step now outcome s a a.phase in
    inl (settle-flags before a after r.0 r.1 ∙ acquire_step-flags now outcome s a a.phase)
Step-flags config (drops_guard now s before b after e) = inl (ground arith)
Step-flags config (scales s) = inl (scale_step-flags config s s.scaler)
Step-flags config (launches now ok s n before id after results e) = inl (ground arith)
Step-flags config (removes_idle now s e) = inl (ground arith)
Step-flags config (pings now answers s) = inl (keepalive_step-flags now answers s s.keepalive)
Step-flags config (releases s) = inl (release_step-flags s s.release_task)
Step-flags config (stops_scaler s e) = inl refl
Step-flags config (stops_keepalive s e) = inl refl
Step-flags config (shuts_down late s) = inr (late, refl)

-- The stages before the semaphore is closed.
abbrev pub is_early : Stage → Bool
is_early Stage.running = true
is_early flagged = true
is_early _ = false

-- The order of the shutdown: the semaphore is closed before the sender goes.
pub record InOrder (f : Flags) : Type 0 where
  pub closed_late : f.closed ≡ not (is_early f.stage)
  pub sender_last : (f.sender || f.closed) ≡ true

shutdown_step-InOrder :
    (late : Bool) (s : BrowserPool) (g : Stage)
    → s.stage ≡ g
    → InOrder (flags s)
    → InOrder (flags (shutdown_step late s g))
unfolding shutdown_step
shutdown_step-InOrder late s Stage.running e v = ground arith
shutdown_step-InOrder late s flagged e v = ground arith
shutdown_step-InOrder late s stopping e v = ground arith
shutdown_step-InOrder late s waiting e v = ground arith
shutdown_step-InOrder late s joining e v = ground arith
shutdown_step-InOrder late s draining e v = ground arith
shutdown_step-InOrder late s ended e v = ground arith

shutdown_step-closed :
    (late : Bool) (s : BrowserPool) (g : Stage)
    → s.closed ≡ true
    → (shutdown_step late s g).closed ≡ true
unfolding shutdown_step
shutdown_step-closed late s Stage.running c = c
shutdown_step-closed late s flagged c = refl
shutdown_step-closed late s stopping c = c
shutdown_step-closed late s waiting c = ground arith
shutdown_step-closed late s joining c = ground arith
shutdown_step-closed late s draining c = c
shutdown_step-closed late s ended c = c

-- The semaphore stays closed.
pub Step-closed :
    (config : BrowserPoolConfig) {s t : BrowserPool}
    → Step config s t
    → s.closed ≡ true
    → t.closed ≡ true
Step-closed config {s} st c = elim (Step-flags config st) [
  | inl same ↦ ap Flags.closed same ∙ c
  | inr (late, e) ↦ ap Flags.closed e ∙ shutdown_step-closed late s s.stage c
]

pub Step-InOrder :
    (config : BrowserPoolConfig) {s t : BrowserPool}
    → Step config s t
    → InOrder (flags s)
    → InOrder (flags t)
Step-InOrder config {s} st v = elim (Step-flags config st) [
  | inl same ↦ subst InOrder (sym same) v
  | inr (late, e) ↦ subst InOrder (sym e) (shutdown_step-InOrder late s s.stage refl v)
]
