-- ===== src/BrowserPool/Effects.antt =====
-- The count of the browsers in use (src/browser_pool/mod.rs): what each step does to it.
use kodegen_tools_citescrape.Base.{
  ℕ, zero, suc, ◌+◌, ◌≤◌, ◌<◌, ◌≡◌, refl, ap, ◌⊎◌, ◌∙◌, Bool, false, List, [], ◌∷◌, arith,
}
use kodegen_tools_citescrape.BrowserPool.{
  BrowserPoolConfig, Phase, at_check, at_pop, at_launch, at_wait, checking, launching, Acquirer,
  Scaler, resting, aborted, measured, scaling, Keepalive, sleeping, stopped, pinging, dropping,
  ReleaseTask, listening, exited, returning, closing, Stage, flagged, stopping, waiting, joining,
  draining, ended, BrowserPool, new_browser, give_back, add_one, sub_one,
}
use kodegen_tools_citescrape.BrowserPool.Acquire.{
  LaunchError, exhausted, Outcome, launched, launch_failed, Next, goes, acquired, fails,
  acquire_timeout, first_backoff, acquire_step, after_error, settle, release,
}
use kodegen_tools_citescrape.BrowserPool.Background.{
  scale_step, scale_launched, remove_idle_browsers, sort_answers, keepalive_step, release_step,
  shutdown_step, scaler_stops, keepalive_stops,
}
use kodegen_tools_citescrape.BrowserPool.Weights.{
  used, others, one, in_phase, in_calls, in_calls-append, browsers, browsers-append,
  launches-append,
}
use kodegen_tools_citescrape.BrowserPool.Steps.{
  Step, calls, acquires, drops_guard, scales, launches, removes_idle, pings, releases, stops_scaler,
  stops_keepalive, shuts_down,
}
use kodegen_tools_citescrape.BrowserPool.Holders.{sort_answers-sums, remove_idle-le}

-- What a step may do, by the browsers in use, the others and the count: nothing but drop others; a
-- launch; a browser handed out; one returned; one dropped by its guard when the sender is gone.
abbrev pub Effect : BrowserPool → ℕ → ℕ → ℕ → ℕ → ℕ → ℕ → Type 0
Effect s u o c u' o' c' =
    ((u' ≡ u) × (c' ≡ c) × (o' ≤ o))
    ⊎ ((u' ≡ u) × (c' ≡ c) × (o' ≡ o + 1) × (s.closed ≡ false) × (0 < s.permits))
    ⊎ ((u' ≡ u + 1) × (c' ≡ add_one c) × (o' + 1 ≡ o))
    ⊎ ((u' + 1 ≡ u) × (c' ≡ sub_one c) × (o' ≤ o + 1))
    ⊎ ((u' + 1 ≡ u) × (c' ≡ c) × (o' ≡ o) × (s.release_open ≡ false))

abbrev pub EffectOf : BrowserPool → BrowserPool → Type 0
EffectOf s t =
    Effect s (used one s) (others one s) s.in_use_count (used one t) (others one t) t.in_use_count

-- What the call holds after its step, in use and not.
abbrev next_used : Next → ℕ
next_used (acquired b) = 1
next_used _ = 0

abbrev next_other : Next → ℕ
next_other (goes phase backoff) = in_phase one phase
next_other _ = 0

settle-counts :
    (before : List Acquirer) (a : Acquirer) (after : List Acquirer) (s : BrowserPool) (n : Next)
    → let t = settle before a after (s, n) in
      (used one t ≡ used one s + next_used n)
      × (others one t + in_calls one s.acquirers
          ≡ others one s + in_calls one before + next_other n + in_calls one after)
      × (t.in_use_count ≡ s.in_use_count)
unfolding settle
settle-counts before a after s (goes phase backoff) = (
  omega arith,
  omega (arith, in_calls-append one before (record a { phase = phase; backoff = backoff } ∷ after)),
  refl,
)
settle-counts before a after s (acquired b) = (
  omega (arith, browsers-append one s.guards (b ∷ [])),
  omega (arith, in_calls-append one before after),
  refl,
)
settle-counts before a after s (fails e) =
    (omega arith, omega (arith, in_calls-append one before after), refl)

abbrev Moves : BrowserPool → ℕ → BrowserPool × Next → Type 0
Moves s held (t, n) =
    Effect s (used one s) (others one s + held) s.in_use_count (used one t + next_used n)
      (others one t + next_other n) t.in_use_count
    × (t.acquirers ≡ s.acquirers)

after_error-keeps :
    (now : ℕ) (e : LaunchError) (s : BrowserPool) (a : Acquirer)
    → let r = after_error now e s a in (r.0 ≡ s) × (next_used r.1 ≡ 0) × (next_other r.1 ≡ 0)
unfolding after_error
after_error-keeps now e s a = ground arith

acquire_step-Moves :
    (now : ℕ) (outcome : Outcome) (s : BrowserPool) (a : Acquirer) (p : Phase)
    → Moves s (in_phase one p) (acquire_step now outcome s a p)
unfolding acquire_step
acquire_step-Moves now outcome s a at_check = ground arith
acquire_step-Moves now outcome s a at_pop = ground arith
acquire_step-Moves now outcome s a (checking b) = ground arith
acquire_step-Moves now outcome s a at_launch = ground (arith, after_error-keeps now exhausted s a)
acquire_step-Moves now launched s a (launching id) = ground arith
acquire_step-Moves now (launch_failed e) s a (launching id) =
    ground (arith, after_error-keeps now e (give_back 1 s) a)
acquire_step-Moves now outcome s a (launching id) = ground arith
acquire_step-Moves now outcome s a at_wait = ground arith

scale_step-Effect :
    (config : BrowserPoolConfig) (s : BrowserPool) (c : Scaler)
    → s.scaler ≡ c
    → EffectOf s (scale_step config s c)
unfolding scale_step
scale_step-Effect config s resting e = ground arith
scale_step-Effect config s aborted e = ground arith
scale_step-Effect config s (measured n) e = ground arith
scale_step-Effect config s (scaling (suc n) ids results) e =
    ground (arith, launches-append one ids (s.next_id ∷ []))
scale_step-Effect config s (scaling zero [] results) e =
    ground (arith, browsers-append one s.available results)
scale_step-Effect config s (scaling zero (id ∷ ids) results) e = ground arith

keepalive_step-Effect :
    (now : ℕ) (answers : List Bool) (s : BrowserPool) (k : Keepalive)
    → s.keepalive ≡ k
    → EffectOf s (keepalive_step now answers s k)
unfolding keepalive_step
keepalive_step-Effect now answers s sleeping e = ground arith
keepalive_step-Effect now answers s stopped e = ground arith
keepalive_step-Effect now answers s (pinging bs) e = ground (
  arith,
  sort_answers-sums one now answers bs,
  browsers-append one s.available (sort_answers now answers bs).0,
)
keepalive_step-Effect now answers s (dropping bs) e = ground arith

release_step-Effect :
    (s : BrowserPool) (t : ReleaseTask) → s.release_task ≡ t → EffectOf s (release_step s t)
unfolding release_step
release_step-Effect s listening e = ground arith
release_step-Effect s exited e = ground arith
release_step-Effect s (returning b) e = ground (arith, browsers-append one s.available (b ∷ []))
release_step-Effect s (closing b) e = ground arith

shutdown_step-Effect :
    (late : Bool) (s : BrowserPool) (g : Stage) → EffectOf s (shutdown_step late s g)
unfolding shutdown_step
shutdown_step-Effect late s Stage.running = ground arith
shutdown_step-Effect late s flagged = ground arith
shutdown_step-Effect late s stopping = ground arith
shutdown_step-Effect late s waiting = ground arith
shutdown_step-Effect late s joining = ground arith
shutdown_step-Effect late s draining = ground arith
shutdown_step-Effect late s ended = ground arith

pub Step-Effect : (config : BrowserPoolConfig) {s t : BrowserPool} → Step config s t → EffectOf s t
unfolding acquire_timeout release remove_idle_browsers scale_launched scaler_stops keepalive_stops
Step-Effect config (calls now timeout s) = ground (
  arith,
  in_calls-append one s.acquirers
      (record { deadline = now + timeout; backoff = first_backoff; phase = at_check } ∷ []),
)
Step-Effect config (acquires now outcome s before a after e) =
    let r = acquire_step now outcome s a a.phase in
    let (u, o, c) = settle-counts before a after r.0 r.1 in
    let (m, same) = acquire_step-Moves now outcome s a a.phase in
    let split : in_calls one s.acquirers
        ≡ in_calls one before + (in_phase one a.phase + in_calls one after) =
      ap (in_calls one) e ∙ in_calls-append one before (a ∷ after) in
    let still = ap (in_calls one) same in ground (arith, m, u, o, c, split, still)
Step-Effect config (drops_guard now s before b after e) = ground (
  arith,
  ap (browsers one) e,
  browsers-append one before (b ∷ after),
  browsers-append one before after,
  browsers-append one s.release_queue (record b { last_used = now } ∷ []),
)
Step-Effect config (scales s) = scale_step-Effect config s s.scaler refl
Step-Effect config (launches now ok s n before id after results e) = ground (
  arith,
  launches-append one before (id ∷ after),
  launches-append one before after,
  browsers-append one results (new_browser id now ∷ []),
)
Step-Effect config (removes_idle now s e) =
    ground (arith, remove_idle-le one config now s.available)
Step-Effect config (pings now answers s) = keepalive_step-Effect now answers s s.keepalive refl
Step-Effect config (releases s) = release_step-Effect s s.release_task refl
Step-Effect config (stops_scaler s e) = ground arith
Step-Effect config (stops_keepalive s e) = ground arith
Step-Effect config (shuts_down late s) = shutdown_step-Effect late s s.stage
