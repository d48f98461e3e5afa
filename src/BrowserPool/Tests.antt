-- ===== src/BrowserPool/Tests.antt =====
-- The pool (src/browser_pool/mod.rs) on concrete runs: one call gets a browser, and a shutdown.
use kodegen_tools_citescrape.Base.{
  ◌+◌, ◌*◌, ◌≤◌, ◌<◌, ◌≡◌, refl, true, false, List, [], ◌∷◌, ◌++◌, All, arith, length,
}
use kodegen_tools_citescrape.BrowserPool.{
  default, at_check, at_pop, at_launch, at_wait, checking, launching, Phase, second, PooledBrowser,
  Acquirer, BrowserPool, new, draining, returning, joining, ended, add_one, new_browser,
}
use kodegen_tools_citescrape.BrowserPool.Acquire.{
  exhausted, no_profile, no_browser, is_capacity, Outcome, healthy, unhealthy, launched, slept,
  acquire_timeout, acquire_step, pop, health, settle, release,
}
use kodegen_tools_citescrape.BrowserPool.Background.{
  shutdown_step, release_step, scaler_holds, remove_idle, to_launch,
}
use kodegen_tools_citescrape.BrowserPool.Weights.{used, others, one}
use kodegen_tools_citescrape.BrowserPool.Steps.{
  calls, acquires, releases, shuts_down, Reach, here, next,
}
use kodegen_tools_citescrape.BrowserPool.Capacity.{capacity}
use kodegen_tools_citescrape.BrowserPool.Holders.{all}
use kodegen_tools_citescrape.BrowserPool.Unique.{numbered, steps, one_holder, no_launch_after_close}
use kodegen_tools_citescrape.BrowserPool.InUse.{late_release_counted}
use kodegen_tools_citescrape.BrowserPool.Idle.{Ends, IsIdle, remove_idle_lem, launches-InBand}
use kodegen_tools_citescrape.BrowserPool.Shutdown.{pinged, returned, drained_for_good}
use kodegen_tools_citescrape.BrowserPool.Deadline.{turns, is_over, Answers, acquire_ends}

-- Of the errors of a launch only the exhausted semaphore counts as a full pool.
capacity_errors :
    (is_capacity exhausted ≡ true)
    × (is_capacity no_profile ≡ false)
    × (is_capacity no_browser ≡ false)
unfolding is_capacity
capacity_errors = (refl, refl, refl)

turn_in : Outcome → BrowserPool → List Acquirer → BrowserPool
turn_in outcome s [] = s
turn_in outcome s (a ∷ more) = settle [] a more (acquire_step 0 outcome s a a.phase)

-- The first call goes on.
turn : Outcome → BrowserPool → BrowserPool
turn outcome s = turn_in outcome s s.acquirers

turn_in-Reach :
    (outcome : Outcome) (s t : BrowserPool) (cs : List Acquirer)
    → t.acquirers ≡ cs
    → Reach default s t
    → Reach default s (turn_in outcome t cs)
unfolding turn_in
turn_in-Reach outcome s t [] e r = r
turn_in-Reach outcome s t (a ∷ more) e r = next r (acquires 0 outcome t [] a more e)

turn-Reach :
    (outcome : Outcome) {s t : BrowserPool} → Reach default s t → Reach default s (turn outcome t)
unfolding turn
turn-Reach outcome {s} {t} r = turn_in-Reach outcome s t t.acquirers refl r

abbrev asked : BrowserPool
asked = acquire_timeout 0 second (new default)

abbrev served : BrowserPool
served = turn launched (turn healthy (turn healthy (turn healthy asked)))

run : Reach default (new default) served
run = turn-Reach launched (
    turn-Reach healthy
      (turn-Reach healthy (turn-Reach healthy (next here (calls 0 second (new default))))))

abbrev first_browser : PooledBrowser
first_browser = record { id = 0; created_at = 0; last_used = 0; last_health_check = 0 }

served_guards : served.guards ≡ first_browser ∷ []
unfolding turn turn_in new acquire_timeout acquire_step settle add_one
served_guards = refl

capacity_example : served.permits + used one served + others one served ≡ 10
capacity_example = capacity default run

steps-run : steps run ≡ 5
unfolding run steps turn turn_in turn-Reach turn_in-Reach new acquire_timeout acquire_step settle
    add_one
steps-run = refl

one_holder_example : all (numbered 0) served ≤ 1
one_holder_example = one_holder default run (omega (arith, steps-run)) 0

-- The next section of the shutdown, whose wait times out.
abbrev down : BrowserPool → BrowserPool
down s = shutdown_step true s s.stage

down-Reach : {s t : BrowserPool} → Reach default s t → Reach default s (down t)
down-Reach {s} {t} r = next r (shuts_down true t)

-- The semaphore is closed while a browser is handed out.
abbrev closed_pool : BrowserPool
closed_pool = down (down served)

closed_pool_lem : closed_pool.closed ≡ true
unfolding shutdown_step turn turn_in new acquire_timeout acquire_step settle add_one
closed_pool_lem = refl

no_launch_after_close_example :
    let t = acquire_timeout 0 second closed_pool in
    (t.closed ≡ true) × (t.next_id ≡ closed_pool.next_id) × (all one t ≤ all one closed_pool)
no_launch_after_close_example =
    no_launch_after_close default closed_pool_lem (next here (calls 0 second closed_pool))

-- The shutdown has given up waiting for the browser.
abbrev given_up : BrowserPool
given_up = down (down closed_pool)

given_up_lem : (given_up.release_open ≡ false) × (given_up.guards ≡ [] ++ first_browser ∷ [])
unfolding shutdown_step turn turn_in new acquire_timeout acquire_step settle add_one
given_up_lem = (refl, refl)

late_release_counted_example :
    0 < (release 7 first_browser (record given_up { guards = [] })).in_use_count
late_release_counted_example =
    late_release_counted default 7 [] first_browser [] (omega arith)
      (down-Reach (down-Reach (down-Reach (down-Reach run)))) given_up_lem.0 given_up_lem.1 here

-- A shutdown of a pool that nobody uses, up to the drain.
abbrev let_go : BrowserPool
let_go = down (down (down (down (new default))))

abbrev joined : BrowserPool
joined = down (release_step let_go let_go.release_task)

joined_run : Reach default (new default) joined
joined_run =
    down-Reach (next (down-Reach (down-Reach (down-Reach (down-Reach here)))) (releases let_go))

joined_lem :
    (joined.stage ≡ draining)
    × (scaler_holds joined.scaler ≡ 0)
    × (pinged joined.keepalive ≡ 0)
    × (returned joined.release_task ≡ 0)
unfolding shutdown_step release_step new
joined_lem = (refl, refl, refl, refl)

drained_for_good_example : (shutdown_step true joined draining).available ≡ []
drained_for_good_example =
    drained_for_good default true joined_run joined_lem.0 joined_lem.1 joined_lem.2 joined_lem.3
      here

-- A release task that is about to return a browser when the wait for it times out returns it after
-- the drain.
abbrev still_returning : BrowserPool
still_returning = record (new default) {
  shutdown = true;
  closed = true;
  release_open = false;
  release_task = returning first_browser;
  stage = joining;
}

returned_after_drain :
    let over = down (down still_returning) in
    (over.stage ≡ ended) × ((release_step over over.release_task).available ≡ first_browser ∷ [])
unfolding shutdown_step release_step new
returned_after_drain = (refl, refl)

-- Three browsers that were used 0, 1 and 500 seconds after the start, at 501 seconds.
abbrev old_first : List PooledBrowser
old_first = new_browser 0 0 ∷ new_browser 1 second ∷ new_browser 2 (500 * second) ∷ []

one_removed : length (remove_idle default (501 * second) old_first) ≡ 2
unfolding remove_idle new_browser
one_removed = refl

remove_idle_lem_example :
    let kept = remove_idle default (501 * second) old_first in
    (removed : List PooledBrowser) × (old_first ≡ removed ++ kept)
    × All (IsIdle default (501 * second)) removed
    × (2 ≤ length kept)
    × Ends default (501 * second) kept
remove_idle_lem_example = remove_idle_lem default (501 * second) old_first

-- Three browsers in use and two available are what the pool aims at, and three more are launched.
launches-InBand_example : to_launch default 3 2 ≡ 3
launches-InBand_example = launches-InBand default 3 2 (omega arith)

-- Every health check fails, every launch succeeds and no wait is cut short.
answers : Phase → Outcome
answers (launching id) = launched
answers at_wait = slept
answers phase = unhealthy

answers-Answers : (phase : Phase) → Answers phase (answers phase)
unfolding answers
answers-Answers (launching id) = tt
answers-Answers at_wait = tt
answers-Answers at_check = tt
answers-Answers at_pop = tt
answers-Answers (checking b) = tt
answers-Answers at_launch = tt

-- A call that is about to pop a browser at its deadline.
abbrev late_call : Acquirer
late_call = record { deadline = second; backoff = 0; phase = at_pop }

-- Two turns do not end it where the browser that it pops turns out unhealthy.
two_turns :
    is_over (
      turns 2
        (λ k. second)
        (λ k. answers)
        (λ k. record (new default) { available = first_browser ∷ [] })
        late_call)
    ≡ false
unfolding turns answers new acquire_step pop health
two_turns = refl

acquire_ends_example :
    is_over (turns 3 (λ k. second) (λ k. answers) (λ k. new default) late_call) ≡ true
acquire_ends_example =
    acquire_ends (λ k. second) (λ k. answers) (λ k. new default) late_call (λ k. omega arith)
      (λ k. answers-Answers)
