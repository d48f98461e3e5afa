-- ===== src/BrowserPool/Holders.antt =====
-- Who holds the browsers of the pool (src/browser_pool/mod.rs), step by step, and the numbers that
-- launches draw.
use kodegen_tools_citescrape.Base.{
  ℕ, zero, suc, ◌+◌, ◌≤◌, ◌≡◌, refl, ap, ◌⊎◌, inl, inr, ◌∙◌, Bool, true, false, List, [], ◌∷◌, ◌++◌,
  arith,
}
use kodegen_tools_citescrape.BrowserPool.{
  BrowserPoolConfig, PooledBrowser, Phase, at_check, at_pop, at_launch, at_wait, checking,
  launching, Acquirer, Scaler, resting, aborted, measured, scaling, Keepalive, sleeping, stopped,
  pinging, dropping, ReleaseTask, listening, exited, returning, closing, Stage, flagged, stopping,
  waiting, joining, draining, ended, BrowserPool, new_browser, give_back, add_one,
}
use kodegen_tools_citescrape.BrowserPool.Acquire.{
  LaunchError, exhausted, Outcome, launched, launch_failed, Next, goes, acquired, fails,
  acquire_timeout, first_backoff, acquire_step, after_error, settle, release,
}
use kodegen_tools_citescrape.BrowserPool.Background.{
  scale_step, scale_launched, remove_idle, remove_idle_browsers, sort_answers, keepalive_step,
  release_step, shutdown_step, scaler_stops, keepalive_stops,
}
use kodegen_tools_citescrape.BrowserPool.Weights.{
  used, others, in_phase, in_calls, in_calls-append, browsers, browsers-append, launches-append,
}
use kodegen_tools_citescrape.BrowserPool.Steps.{
  Step, calls, acquires, drops_guard, scales, launches, removes_idle, pings, releases, stops_scaler,
  stops_keepalive, shuts_down,
}

module _ (f : ℕ → ℕ) where
  abbrev pub all : BrowserPool → ℕ
  all s = used f s + others f s

  abbrev next_weight : Next → ℕ
  next_weight (goes phase backoff) = in_phase f phase
  next_weight (acquired b) = f b.id
  next_weight (fails e) = 0

  -- Either nothing is launched, and no weight is added; or a launch adds its own.
  abbrev pub Grows : BrowserPool → BrowserPool → ℕ → ℕ → Type 0
  Grows s t old current =
      ((t.next_id ≡ s.next_id) × (current ≤ old))
      ⊎ ((t.next_id ≡ add_one s.next_id) × (s.closed ≡ false) × (current ≤ old + f s.next_id))

  settle-all :
      (before : List Acquirer) (a : Acquirer) (after : List Acquirer) (s : BrowserPool) (n : Next)
      → (all (settle before a after (s, n)) + in_calls f s.acquirers
          ≡ all s + in_calls f before + next_weight n + in_calls f after)
        × ((settle before a after (s, n)).next_id ≡ s.next_id)
  unfolding settle
  settle-all before a after s (goes phase backoff) = (
    omega (arith, in_calls-append f before (record a { phase = phase; backoff = backoff } ∷ after)),
    refl,
  )
  settle-all before a after s (acquired b) =
      (omega (arith, in_calls-append f before after, browsers-append f s.guards (b ∷ [])), refl)
  settle-all before a after s (fails e) = (omega (arith, in_calls-append f before after), refl)

  after_error-keeps :
      (now : ℕ) (e : LaunchError) (s : BrowserPool) (a : Acquirer)
      → let r = after_error now e s a in (r.0 ≡ s) × (next_weight r.1 ≡ 0)
  unfolding after_error
  after_error-keeps now e s a = ground arith

  acquire_step-Grows :
      (now : ℕ) (outcome : Outcome) (s : BrowserPool) (a : Acquirer) (p : Phase)
      → let r = acquire_step now outcome s a p in
        Grows s r.0 (all s + in_phase f p) (all r.0 + next_weight r.1)
        × (r.0.acquirers ≡ s.acquirers)
  unfolding acquire_step
  acquire_step-Grows now outcome s a at_check = ground arith
  acquire_step-Grows now outcome s a at_pop = ground arith
  acquire_step-Grows now outcome s a (checking b) = ground arith
  acquire_step-Grows now outcome s a at_launch = ground (arith, after_error-keeps now exhausted s a)
  acquire_step-Grows now launched s a (launching id) = ground arith
  acquire_step-Grows now (launch_failed e) s a (launching id) =
      ground (arith, after_error-keeps now e (give_back 1 s) a)
  acquire_step-Grows now outcome s a (launching id) = ground arith
  acquire_step-Grows now outcome s a at_wait = ground arith

  pub sort_answers-sums :
      (now : ℕ) (answers : List Bool) (bs : List PooledBrowser)
      → let r = sort_answers now answers bs in browsers f r.0 + browsers f r.1 ≡ browsers f bs
  unfolding sort_answers
  sort_answers-sums now answers [] = refl
  sort_answers-sums now [] (b ∷ bs) = omega arith
  sort_answers-sums now (true ∷ answers) (b ∷ bs) = omega (arith, sort_answers-sums now answers bs)
  sort_answers-sums now (false ∷ answers) (b ∷ bs) = omega (arith, sort_answers-sums now answers bs)

  pub remove_idle-le :
      (config : BrowserPoolConfig) (now : ℕ) (bs : List PooledBrowser)
      → browsers f (remove_idle config now bs) ≤ browsers f bs
  unfolding remove_idle
  remove_idle-le config now [] = omega arith
  remove_idle-le config now (b ∷ bs) = ground (arith, remove_idle-le config now bs)

  scale_step-Grows :
      (config : BrowserPoolConfig) (s : BrowserPool) (c : Scaler)
      → s.scaler ≡ c
      → Grows s (scale_step config s c) (all s) (all (scale_step config s c))
  unfolding scale_step
  scale_step-Grows config s resting e = ground arith
  scale_step-Grows config s aborted e = ground arith
  scale_step-Grows config s (measured n) e = ground arith
  scale_step-Grows config s (scaling (suc n) ids results) e =
      ground (arith, launches-append f ids (s.next_id ∷ []))
  scale_step-Grows config s (scaling zero [] results) e =
      ground (arith, browsers-append f s.available results)
  scale_step-Grows config s (scaling zero (id ∷ ids) results) e = ground arith

  scale_launched-Grows :
      (now : ℕ) (ok : Bool) (before : List ℕ) (id : ℕ) (after : List ℕ) (n : ℕ)
      (results : List PooledBrowser) (s : BrowserPool)
      → s.scaler ≡ scaling n (before ++ id ∷ after) results
      → let t = scale_launched now ok before id after n results s in Grows s t (all s) (all t)
  unfolding scale_launched
  scale_launched-Grows now ok before id after n results s e = ground (
    arith,
    launches-append f before (id ∷ after),
    launches-append f before after,
    browsers-append f results (new_browser id now ∷ []),
  )

  keepalive_step-Grows :
      (now : ℕ) (answers : List Bool) (s : BrowserPool) (k : Keepalive)
      → s.keepalive ≡ k
      → let t = keepalive_step now answers s k in Grows s t (all s) (all t)
  unfolding keepalive_step
  keepalive_step-Grows now answers s sleeping e = ground arith
  keepalive_step-Grows now answers s stopped e = ground arith
  keepalive_step-Grows now answers s (pinging bs) e = ground (
    arith,
    sort_answers-sums now answers bs,
    browsers-append f s.available (sort_answers now answers bs).0,
  )
  keepalive_step-Grows now answers s (dropping bs) e = ground arith

  release_step-Grows :
      (s : BrowserPool) (t : ReleaseTask)
      → s.release_task ≡ t
      → Grows s (release_step s t) (all s) (all (release_step s t))
  unfolding release_step
  release_step-Grows s listening e = ground arith
  release_step-Grows s exited e = ground arith
  release_step-Grows s (returning b) e = ground (arith, browsers-append f s.available (b ∷ []))
  release_step-Grows s (closing b) e = ground arith

  shutdown_step-Grows :
      (late : Bool) (s : BrowserPool) (g : Stage)
      → Grows s (shutdown_step late s g) (all s) (all (shutdown_step late s g))
  unfolding shutdown_step
  shutdown_step-Grows late s Stage.running = ground arith
  shutdown_step-Grows late s flagged = ground arith
  shutdown_step-Grows late s stopping = ground arith
  shutdown_step-Grows late s waiting = ground arith
  shutdown_step-Grows late s joining = ground arith
  shutdown_step-Grows late s draining = ground arith
  shutdown_step-Grows late s ended = ground arith

  pub Step-Grows :
      (config : BrowserPoolConfig) {s t : BrowserPool} → Step config s t → Grows s t (all s) (all t)
  unfolding acquire_timeout release remove_idle_browsers scaler_stops keepalive_stops
  Step-Grows config (calls now timeout s) = ground (
    arith,
    in_calls-append f s.acquirers
        (record { deadline = now + timeout; backoff = first_backoff; phase = at_check } ∷ []),
  )
  Step-Grows config (acquires now outcome s before a after e) =
      let r = acquire_step now outcome s a a.phase in
      let (c, n) = settle-all before a after r.0 r.1 in
      let (g, same) = acquire_step-Grows now outcome s a a.phase in
      let split : in_calls f s.acquirers
          ≡ in_calls f before + (in_phase f a.phase + in_calls f after) =
        ap (in_calls f) e ∙ in_calls-append f before (a ∷ after) in
      let still = ap (in_calls f) same in
      elim g [
        | inl (i, le) ↦ inl (n ∙ i, omega (arith, c, split, still, le))
        | inr (i, opened, le) ↦ inr (n ∙ i, opened, omega (arith, c, split, still, le))
      ]
  Step-Grows config (drops_guard now s before b after e) = ground (
    arith,
    ap (browsers f) e,
    browsers-append f before (b ∷ after),
    browsers-append f before after,
    browsers-append f s.release_queue (record b { last_used = now } ∷ []),
  )
  Step-Grows config (scales s) = scale_step-Grows config s s.scaler refl
  Step-Grows config (launches now ok s n before id after results e) =
      scale_launched-Grows now ok before id after n results s e
  Step-Grows config (removes_idle now s e) = ground (arith, remove_idle-le config now s.available)
  Step-Grows config (pings now answers s) = keepalive_step-Grows now answers s s.keepalive refl
  Step-Grows config (releases s) = release_step-Grows s s.release_task refl
  Step-Grows config (stops_scaler s e) = ground arith
  Step-Grows config (stops_keepalive s e) = ground arith
  Step-Grows config (shuts_down late s) = shutdown_step-Grows late s s.stage
