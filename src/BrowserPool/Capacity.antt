-- ===== src/BrowserPool/Capacity.antt =====
-- The capacity of the pool (src/browser_pool/mod.rs): the permits that are free and the browsers
-- and launches that hold one.
use kodegen_tools_citescrape.Base.{
  ℕ, zero, suc, ◌+◌, ◌≤◌, ◌≡◌, refl, sym, ap, ◌∙◌, Bool, true, false, List, [], ◌∷◌, ◌++◌, arith,
  length,
}
use kodegen_tools_citescrape.BrowserPool.{
  BrowserPoolConfig, PooledBrowser, Phase, at_check, at_pop, at_launch, at_wait, checking,
  launching, Acquirer, Scaler, resting, aborted, measured, scaling, Keepalive, sleeping, stopped,
  pinging, dropping, ReleaseTask, listening, exited, returning, closing, Stage, flagged, stopping,
  waiting, joining, draining, ended, BrowserPool, new, new_browser, give_back,
}
use kodegen_tools_citescrape.BrowserPool.Acquire.{
  LaunchError, exhausted, Outcome, launched, launch_failed, Next, goes, acquired, fails,
  acquire_timeout, first_backoff, acquire_step, after_error, settle, release,
}
use kodegen_tools_citescrape.BrowserPool.Background.{
  scale_step, scale_launched, remove_idle, remove_idle_browsers, sort_answers, keepalive_step,
  release_step, scaler_stops, keepalive_stops, shutdown_step, scaler_holds, keepalive_holds,
}
use kodegen_tools_citescrape.BrowserPool.Weights.{
  used, others, one, in_phase, in_calls, in_scaler, in_keepalive, in_calls-append, browsers,
  browsers-append, browsers-one, launches-append, launches-one,
}
use kodegen_tools_citescrape.BrowserPool.Steps.{
  Step, calls, acquires, drops_guard, scales, launches, removes_idle, pings, releases, stops_scaler,
  stops_keepalive, shuts_down, Reach, here, next,
}

-- The free permits, and those that are held.
abbrev pub total : BrowserPool → ℕ
total s = s.permits + used one s + others one s

-- What the call holds after its step.
abbrev next_weight : Next → ℕ
next_weight (goes phase backoff) = in_phase one phase
next_weight (acquired b) = 1
next_weight (fails e) = 0

settle-total :
    (before : List Acquirer) (a : Acquirer) (after : List Acquirer) (s : BrowserPool) (n : Next)
    → total (settle before a after (s, n)) + in_calls one s.acquirers
      ≡ total s + in_calls one before + next_weight n + in_calls one after
unfolding settle
settle-total before a after s (goes phase backoff) =
    omega
      (arith, in_calls-append one before (record a { phase = phase; backoff = backoff } ∷ after))
settle-total before a after s (acquired b) =
    omega (arith, in_calls-append one before after, browsers-append one s.guards (b ∷ []))
settle-total before a after s (fails e) = omega (arith, in_calls-append one before after)

after_error-keeps :
    (now : ℕ) (e : LaunchError) (s : BrowserPool) (a : Acquirer)
    → let r = after_error now e s a in (r.0 ≡ s) × (next_weight r.1 ≡ 0)
unfolding after_error
after_error-keeps now e s a = ground arith

acquire_step-total :
    (now : ℕ) (outcome : Outcome) (s : BrowserPool) (a : Acquirer) (p : Phase)
    → let r = acquire_step now outcome s a p in
      (total r.0 + next_weight r.1 ≡ total s + in_phase one p) × (r.0.acquirers ≡ s.acquirers)
unfolding acquire_step
acquire_step-total now outcome s a at_check = ground arith
acquire_step-total now outcome s a at_pop = ground arith
acquire_step-total now outcome s a (checking b) = ground arith
acquire_step-total now outcome s a at_launch = ground (arith, after_error-keeps now exhausted s a)
acquire_step-total now launched s a (launching id) = ground arith
acquire_step-total now (launch_failed e) s a (launching id) =
    ground (arith, after_error-keeps now e (give_back 1 s) a)
acquire_step-total now outcome s a (launching id) = ground arith
acquire_step-total now outcome s a at_wait = ground arith

sort_answers-sums :
    (now : ℕ) (answers : List Bool) (bs : List PooledBrowser)
    → let r = sort_answers now answers bs in browsers one r.0 + browsers one r.1 ≡ browsers one bs
unfolding sort_answers
sort_answers-sums now answers [] = refl
sort_answers-sums now [] (b ∷ bs) = omega arith
sort_answers-sums now (true ∷ answers) (b ∷ bs) = omega (arith, sort_answers-sums now answers bs)
sort_answers-sums now (false ∷ answers) (b ∷ bs) = omega (arith, sort_answers-sums now answers bs)

remove_idle-le :
    (config : BrowserPoolConfig) (now : ℕ) (bs : List PooledBrowser)
    → length (remove_idle config now bs) ≤ length bs
unfolding remove_idle
remove_idle-le config now [] = omega arith
remove_idle-le config now (b ∷ bs) = ground (arith, remove_idle-le config now bs)

scale_step-total :
    (config : BrowserPoolConfig) (s : BrowserPool) (c : Scaler)
    → s.scaler ≡ c
    → total (scale_step config s c) ≡ total s
unfolding scale_step
scale_step-total config s resting e = ground arith
scale_step-total config s aborted e = ground arith
scale_step-total config s (measured n) e = ground arith
scale_step-total config s (scaling (suc n) ids results) e =
    ground (arith, launches-append one ids (s.next_id ∷ []))
scale_step-total config s (scaling zero [] results) e =
    ground (arith, browsers-append one s.available results)
scale_step-total config s (scaling zero (id ∷ ids) results) e = ground arith

scale_launched-total :
    (now : ℕ) (ok : Bool) (before : List ℕ) (id : ℕ) (after : List ℕ) (n : ℕ)
    (results : List PooledBrowser) (s : BrowserPool)
    → s.scaler ≡ scaling n (before ++ id ∷ after) results
    → total (scale_launched now ok before id after n results s) ≡ total s
unfolding scale_launched
scale_launched-total now ok before id after n results s e = ground (
  arith,
  launches-append one before (id ∷ after),
  launches-append one before after,
  browsers-append one results (new_browser id now ∷ []),
)

keepalive_step-total :
    (now : ℕ) (answers : List Bool) (s : BrowserPool) (k : Keepalive)
    → s.keepalive ≡ k
    → total (keepalive_step now answers s k) ≡ total s
unfolding keepalive_step
keepalive_step-total now answers s sleeping e = ground arith
keepalive_step-total now answers s stopped e = ground arith
keepalive_step-total now answers s (pinging bs) e = ground (
  arith,
  sort_answers-sums now answers bs,
  browsers-append one s.available (sort_answers now answers bs).0,
)
keepalive_step-total now answers s (dropping bs) e = ground (arith, browsers-one bs)

held_scaler : (c : Scaler) → scaler_holds c ≡ in_scaler one c
held_scaler resting = refl
held_scaler aborted = refl
held_scaler (measured n) = refl
held_scaler (scaling n ids results) = omega (arith, launches-one ids, browsers-one results)

held_keepalive : (k : Keepalive) → keepalive_holds k ≡ in_keepalive one k
held_keepalive sleeping = refl
held_keepalive stopped = refl
held_keepalive (pinging bs) = sym (browsers-one bs)
held_keepalive (dropping bs) = sym (browsers-one bs)

release_step-total :
    (s : BrowserPool) (t : ReleaseTask) → s.release_task ≡ t → total (release_step s t) ≡ total s
unfolding release_step
release_step-total s listening e = ground arith
release_step-total s exited e = ground arith
release_step-total s (returning b) e = ground (arith, browsers-append one s.available (b ∷ []))
release_step-total s (closing b) e = ground arith

shutdown_step-total :
    (late : Bool) (s : BrowserPool) (g : Stage) → total (shutdown_step late s g) ≡ total s
unfolding shutdown_step
shutdown_step-total late s Stage.running = ground arith
shutdown_step-total late s flagged = ground arith
shutdown_step-total late s stopping = ground arith
shutdown_step-total late s waiting = ground arith
shutdown_step-total late s joining = ground arith
shutdown_step-total late s draining = ground (arith, browsers-one s.available)
shutdown_step-total late s ended = ground arith

-- No step changes the sum of the free permits and those that are held.
Step-total : (config : BrowserPoolConfig) {s t : BrowserPool} → Step config s t → total t ≡ total s
unfolding acquire_timeout release remove_idle_browsers scaler_stops keepalive_stops
Step-total config (calls now timeout s) = ground (
  arith,
  in_calls-append one s.acquirers
      (record { deadline = now + timeout; backoff = first_backoff; phase = at_check } ∷ []),
)
Step-total config (acquires now outcome s before a after e) =
    let r = acquire_step now outcome s a a.phase in
    omega (
      arith,
      settle-total before a after r.0 r.1,
      acquire_step-total now outcome s a a.phase,
      ap (in_calls one) (acquire_step-total now outcome s a a.phase).1,
      ap (in_calls one) e,
      in_calls-append one before (a ∷ after),
    )
Step-total config (drops_guard now s before b after e) = ground (
  arith,
  ap (browsers one) e,
  browsers-append one before (b ∷ after),
  browsers-append one before after,
  browsers-append one s.release_queue (record b { last_used = now } ∷ []),
)
Step-total config (scales s) = scale_step-total config s s.scaler refl
Step-total config (launches now ok s n before id after results e) =
    scale_launched-total now ok before id after n results s e
Step-total config (removes_idle now s e) = ground (
  arith,
  remove_idle-le config now s.available,
  browsers-one s.available,
  browsers-one (remove_idle config now s.available),
)
Step-total config (pings now answers s) = keepalive_step-total now answers s s.keepalive refl
Step-total config (releases s) = release_step-total s s.release_task refl
Step-total config (stops_scaler s e) = ground (arith, held_scaler s.scaler)
Step-total config (stops_keepalive s e) = ground (arith, held_keepalive s.keepalive)
Step-total config (shuts_down late s) = shutdown_step-total late s s.stage

-- Whatever the interleaving, the free permits and the browsers and launches together are as many as
-- the pool may have browsers, so there are never more browsers than that.
pub capacity :
    (config : BrowserPoolConfig) {s : BrowserPool}
    → Reach config (new config) s
    → s.permits + used one s + others one s ≡ config.max_pool_size
unfolding new
capacity config here = omega arith
capacity config (next r st) = Step-total config st ∙ capacity config r
