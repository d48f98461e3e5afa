-- ===== src/BrowserPool/Acquire.antt =====
-- `acquire_timeout`, `release` and the guard of src/browser_pool/mod.rs. A step of a call runs from
-- one await to the next; the answer of a health check, the outcome of a launch and what ends a wait
-- come from outside.
use kodegen_tools_citescrape.Base.{
  ℕ, ◌+◌, ◌*◌, ◌-◌, String, Bool, ◌||◌, List, [], ◌∷◌, ◌++◌, codes, contains, min, leb, ◌==◌,
  if◌then◌else◌,
}
use kodegen_tools_citescrape.BrowserPool.{
  second, millisecond, PooledBrowser, new_browser, at_check, at_pop, at_launch, at_wait, checking,
  launching, Phase, Acquirer, BrowserPool, add_one, can_launch, begin_launch, give_back,
}

-- The errors of `launch_browser_internal`, by their outermost message.
pub data LaunchError : Type 0 where
  exhausted no_profile no_browser : LaunchError

abbrev pub message : LaunchError → String
message exhausted = "Browser pool at max capacity (semaphore exhausted)"
message no_profile = "Failed to create unique pool browser profile"
message no_browser = "Failed to launch browser for pool"

-- The test on the text of the error.
unfoldable pub is_capacity : LaunchError → Bool
unfolding contains
is_capacity e =
    contains (codes (message e)) (codes "capacity")
    || contains (codes (message e)) (codes "semaphore")

pub data AcquireError : Type 0 where
  timed_out shutting_down : AcquireError
  launch_error : LaunchError → AcquireError

-- What a call learns at an await.
pub data Outcome : Type 0 where
  healthy unhealthy check_timed_out launched notified slept : Outcome
  launch_failed : LaunchError → Outcome

pub data Next : Type 0 where
  goes : Phase → ℕ → Next  -- with the backoff
  acquired : PooledBrowser → Next
  fails : AcquireError → Next

abbrev pub max_backoff : ℕ
max_backoff = second

abbrev pub first_backoff : ℕ
first_backoff = 10 * millisecond

-- The call, unless the pool is shutting down.
unfoldable pub acquire_timeout : ℕ → ℕ → BrowserPool → BrowserPool
acquire_timeout now timeout s = if s.shutdown then s else record s {
  acquirers =
      s.acquirers
      ++ record { deadline = now + timeout; backoff = first_backoff; phase = at_check } ∷ [];
}

-- The head of the loop.
unfoldable pub check : ℕ → BrowserPool → Acquirer → BrowserPool × Next
check now s a =
    if leb a.deadline now
    then (s, fails timed_out)
    else if s.shutdown
    then (s, fails shutting_down)
    else (s, goes at_pop a.backoff)

unfoldable pub pop : BrowserPool → Acquirer → List PooledBrowser → BrowserPool × Next
pop s a [] = (s, goes at_launch a.backoff)
pop s a (b ∷ bs) = (record s { available = bs }, goes (checking b) a.backoff)

-- A browser is handed to the caller.
unfoldable pub hand_out : BrowserPool → PooledBrowser → BrowserPool × Next
unfolding add_one
hand_out s b = (record s { in_use_count = add_one s.in_use_count }, acquired b)

-- The health check of a popped browser; a browser that fails it is dropped.
unfoldable pub health : ℕ → Outcome → BrowserPool → Acquirer → PooledBrowser → BrowserPool × Next
unfolding hand_out give_back
health now healthy s a b = hand_out s (record b { last_used = now; last_health_check = now })
health now outcome s a b = (give_back 1 s, goes at_check a.backoff)

-- After a failed launch: at capacity the call waits while time remains.
unfoldable pub after_error : ℕ → LaunchError → BrowserPool → Acquirer → BrowserPool × Next
after_error now e s a =
    if is_capacity e
    then (if a.deadline - now == 0 then (s, fails timed_out) else (s, goes at_wait a.backoff))
    else (s, fails (launch_error e))

unfoldable pub launch : ℕ → BrowserPool → Acquirer → BrowserPool × Next
unfolding begin_launch after_error
launch now s a =
    if can_launch s
    then (begin_launch s, goes (launching s.next_id) a.backoff)
    else after_error now exhausted s a

unfoldable pub finish_launch : ℕ → Outcome → BrowserPool → Acquirer → ℕ → BrowserPool × Next
unfolding hand_out new_browser after_error give_back
finish_launch now launched s a id = hand_out s (new_browser id now)
finish_launch now (launch_failed e) s a id = after_error now e (give_back 1 s) a
finish_launch now outcome s a id = (s, goes (launching id) a.backoff)

-- The end of a wait: a notification resets the backoff, the end of the sleep doubles it.
unfoldable pub wake : Outcome → BrowserPool → Acquirer → BrowserPool × Next
wake notified s a = (s, goes at_check first_backoff)
wake slept s a = (s, goes at_check (min (a.backoff * 2) max_backoff))
wake outcome s a = (s, goes at_wait a.backoff)

unfoldable pub acquire_step : ℕ → Outcome → BrowserPool → Acquirer → Phase → BrowserPool × Next
unfolding check pop health launch finish_launch wake
acquire_step now outcome s a at_check = check now s a
acquire_step now outcome s a at_pop = pop s a s.available
acquire_step now outcome s a (checking b) = health now outcome s a b
acquire_step now outcome s a at_launch = launch now s a
acquire_step now outcome s a (launching id) = finish_launch now outcome s a id
acquire_step now outcome s a at_wait = wake outcome s a

-- The call goes on or ends; a browser that it got is held by a guard.
unfoldable pub settle : List Acquirer → Acquirer → List Acquirer → BrowserPool × Next → BrowserPool
settle before a after (s, goes phase backoff) = record s {
  acquirers = before ++ record a { phase = phase; backoff = backoff } ∷ after;
}
settle before a after (s, acquired b) = record s {
  acquirers = before ++ after;
  guards = s.guards ++ b ∷ [];
}
settle before a after (s, fails e) = record s { acquirers = before ++ after }

-- `release`, which the drop of a guard calls: without a sender the browser is dropped.
unfoldable pub release : ℕ → PooledBrowser → BrowserPool → BrowserPool
unfolding give_back
release now b s =
    if s.release_open
    then record s { release_queue = s.release_queue ++ record b { last_used = now } ∷ [] }
    else give_back 1 s
