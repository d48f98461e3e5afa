-- ===== src/BrowserPool/Background.antt =====
-- The background tasks of src/browser_pool/mod.rs: scaling, the removal of idle browsers, the
-- keepalive, the release task, and the sections of `shutdown` between two awaits. An abort does not
-- stop a task at once, which may be running: a task that `shutdown` has aborted may still take steps,
-- and stops at any later time.
use kodegen_tools_citescrape.Base.{
  ℕ, zero, suc, ◌+◌, ◌-◌, Bool, true, false, ◌&&◌, ◌||◌, List, [], ◌∷◌, ◌++◌, length, max, min, leb,
  ltb, ◌==◌, if◌then◌else◌,
}
use kodegen_tools_citescrape.BrowserPool.{
  BrowserPoolConfig, PooledBrowser, new_browser, Scaler, resting, aborted, measured, scaling,
  Keepalive, sleeping, stopped, pinging, dropping, ReleaseTask, listening, exited, returning,
  closing, Stage, flagged, stopping, waiting, joining, draining, ended, BrowserPool, sub_one,
  can_launch, begin_launch, give_back,
}

-- The size that the buffer asks for, within the limits.
abbrev pub base_target : BrowserPoolConfig → ℕ → ℕ
base_target config in_use = min (max (in_use + 2) config.min_pool_size) config.max_pool_size

unfoldable pub target_pool_size_with_hysteresis : BrowserPoolConfig → ℕ → ℕ → ℕ
target_pool_size_with_hysteresis config in_use current_available =
    let current_total = in_use + current_available in
    let target = base_target config in_use in
    if ltb current_total (target - 1)
    then target
    else if ltb (target + 2) current_total
    then target
    else min current_total config.max_pool_size

-- How many browsers `scale_to_target` launches.
unfoldable pub to_launch : BrowserPoolConfig → ℕ → ℕ → ℕ
unfolding target_pool_size_with_hysteresis
to_launch config in_use current =
    let target = target_pool_size_with_hysteresis config in_use current in
    if leb target current then 0 else target - current

-- The parts of `scale_to_target`: the reading of the number available, the choice of the target,
-- one attempt to launch, the end of a launch, and the launched browsers' way into the pool.
unfoldable pub scale_step : BrowserPoolConfig → BrowserPool → Scaler → BrowserPool
unfolding to_launch begin_launch
scale_step config s resting = record s {
  scaler = if s.shutdown then aborted else measured (length s.available);
}
scale_step config s (measured current) =
    let n = to_launch config s.in_use_count current in
    if n == 0 then record s { scaler = resting } else record s { scaler = scaling n [] [] }
scale_step config s (scaling (suc n) ids results) =
    if can_launch s
    then record (begin_launch s) { scaler = scaling n (ids ++ s.next_id ∷ []) results }
    else record s { scaler = scaling n ids results }
scale_step config s (scaling zero [] results) = record s {
  available = s.available ++ results;
  scaler = resting;
}
scale_step config s (scaling zero (id ∷ ids) results) = s
scale_step config s aborted = s

-- A launch of the scaler ends.
unfoldable pub scale_launched :
    ℕ → Bool → List ℕ → ℕ → List ℕ → ℕ → List PooledBrowser → BrowserPool → BrowserPool
unfolding give_back new_browser
scale_launched now launched before id after n results s =
    if launched
    then record s { scaler = scaling n (before ++ after) (results ++ new_browser id now ∷ []) }
    else record (give_back 1 s) { scaler = scaling n (before ++ after) results }

-- The loop of `remove_idle_browsers`: the browsers that stay, oldest first.
unfoldable pub remove_idle : BrowserPoolConfig → ℕ → List PooledBrowser → List PooledBrowser
remove_idle config now [] = []
remove_idle config now (b ∷ bs) =
    let rest = remove_idle config now bs in
    if ltb config.min_pool_size (length (b ∷ bs)) && ltb config.idle_timeout (now - b.last_used)
    then rest
    else b ∷ bs

unfoldable pub remove_idle_browsers : BrowserPoolConfig → ℕ → BrowserPool → BrowserPool
unfolding remove_idle give_back
remove_idle_browsers config now s =
    let kept = remove_idle config now s.available in
    if s.shutdown
    then record s { scaler = aborted }
    else record (give_back (length s.available - length kept) s) { available = kept }

-- The browsers by their answers: those that are healthy, and the others.
unfoldable pub sort_answers :
    ℕ → List Bool → List PooledBrowser → List PooledBrowser × List PooledBrowser
sort_answers now answers [] = ([], [])
sort_answers now [] (b ∷ bs) = ([], b ∷ bs)
sort_answers now (ok ∷ answers) (b ∷ bs) =
    let (well, ill) = sort_answers now answers bs in
    if ok then (record b { last_health_check = now } ∷ well, ill) else (well, b ∷ ill)

-- The head of the loop.
abbrev next_round : Bool → Keepalive
next_round shutdown = if shutdown then stopped else sleeping

-- One round of `keepalive_loop`, phase by phase; without an answer a check has timed out.
unfoldable pub keepalive_step : ℕ → List Bool → BrowserPool → Keepalive → BrowserPool
unfolding sort_answers give_back
keepalive_step now answers s sleeping =
    if length s.available == 0
    then record s { keepalive = next_round s.shutdown }
    else record s { available = []; keepalive = pinging s.available }
keepalive_step now answers s (pinging bs) =
    let (well, ill) = sort_answers now answers bs in
    record s { available = s.available ++ well; keepalive = dropping ill }
keepalive_step now answers s (dropping bs) = record (give_back (length bs) s) {
  keepalive = sleeping;
}
keepalive_step now answers s stopped = s

-- The release task receives a browser; what it does with it depends on the flag.
unfoldable pub receive : BrowserPool → List PooledBrowser → BrowserPool
receive s [] = if s.release_open then s else record s { release_task = exited }
receive s (b ∷ bs) =
    if s.shutdown
    then record s { release_queue = bs; release_task = closing b }
    else record s { release_queue = bs; release_task = returning b }

unfoldable pub release_step : BrowserPool → ReleaseTask → BrowserPool
unfolding receive give_back sub_one
release_step s listening = receive s s.release_queue
release_step s (returning b) = record s {
  available = s.available ++ b ∷ [];
  in_use_count = sub_one s.in_use_count;
  release_task = listening;
}
release_step s (closing b) = record (give_back 1 s) {
  in_use_count = sub_one s.in_use_count;
  release_task = listening;
}
release_step s exited = s

-- What a task that stops holds is dropped.
abbrev pub scaler_holds : Scaler → ℕ
scaler_holds (scaling n ids results) = length ids + length results
scaler_holds _ = 0

abbrev pub keepalive_holds : Keepalive → ℕ
keepalive_holds (pinging bs) = length bs
keepalive_holds (dropping bs) = length bs
keepalive_holds _ = 0

-- Whether `shutdown` has aborted the scaler and the keepalive.
abbrev pub is_aborting : Stage → Bool
is_aborting waiting = true
is_aborting joining = true
is_aborting draining = true
is_aborting ended = true
is_aborting _ = false

-- An aborted task stops.
unfoldable pub scaler_stops : BrowserPool → BrowserPool
unfolding give_back
scaler_stops s = record (give_back (scaler_holds s.scaler) s) { scaler = aborted }

unfoldable pub keepalive_stops : BrowserPool → BrowserPool
unfolding give_back
keepalive_stops s = record (give_back (keepalive_holds s.keepalive) s) { keepalive = stopped }

is_exited : ReleaseTask → Bool
is_exited exited = true
is_exited _ = false

-- One section of `shutdown`; `late` says that the wait of the section has timed out.
unfoldable pub shutdown_step : Bool → BrowserPool → Stage → BrowserPool
unfolding give_back is_exited
shutdown_step late s Stage.running = record s { shutdown = true; stage = flagged }
shutdown_step late s flagged = record s { closed = true; stage = stopping }
shutdown_step late s stopping = record s { stage = waiting }
shutdown_step late s waiting =
    if s.in_use_count == 0 || late then record s { release_open = false; stage = joining } else s
shutdown_step late s joining =
    if is_exited s.release_task || late then record s { stage = draining } else s
shutdown_step late s draining = record (give_back (length s.available) s) {
  available = [];
  stage = ended;
}
shutdown_step late s ended = s
