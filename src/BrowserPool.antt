-- ===== src/BrowserPool.antt =====
-- src/browser_pool/mod.rs: the pool of pre-warmed browsers. Times are nanoseconds. A browser is
-- its number and its times: the browser process, its handler task and its profile directory are
-- left out, and so is log output. A launch in progress is the number it has drawn; the permit that
-- a browser holds is given back where the source drops the browser. A launch takes its permit and
-- draws its number in one step, where in the source another task may run between the two.
pub mod Acquire
pub mod Background
pub mod Weights
pub mod Steps
pub mod Capacity
pub mod Flags
pub mod Holders
pub mod Unique
pub mod Effects
pub mod InUse
pub mod Idle
pub mod InForce
pub mod Shutdown
pub mod Deadline
mod Tests
use kodegen_tools_citescrape.Base.{
  ℕ, ◌+◌, ◌*◌, ◌-◌, ◌%◌, ◌^◌, Bool, true, false, not, ◌&&◌, Option, none, some, List, [], ◌∷◌, ◌++◌,
  length, max, min, leb, ltb, ◌==◌, if◌then◌else◌,
}

abbrev pub second : ℕ
second = 1000000000

abbrev pub millisecond : ℕ
millisecond = 1000000

pub record BrowserPoolConfig : Type 0 where
  pub min_pool_size : ℕ
  pub max_pool_size : ℕ
  pub keepalive_interval : ℕ
  pub idle_timeout : ℕ
  pub cleanup_interval : ℕ
  pub headless : Bool
  pub health_check_timeout : ℕ
  pub shutdown_timeout : ℕ

abbrev pub default : BrowserPoolConfig
default = record {
  min_pool_size = 2;
  max_pool_size = 10;
  keepalive_interval = 30 * second;
  idle_timeout = 300 * second;
  cleanup_interval = 60 * second;
  headless = true;
  health_check_timeout = 5 * second;
  shutdown_timeout = 30 * second;
}

pub record PooledBrowser : Type 0 where
  pub id : ℕ
  pub created_at : ℕ
  pub last_used : ℕ
  pub last_health_check : ℕ

unfoldable pub new_browser : ℕ → ℕ → PooledBrowser
new_browser id now = record { id = id; created_at = now; last_used = now; last_health_check = now }

-- Where a call of `acquire_timeout` stands in its loop.
pub data Phase : Type 0 where
  at_check at_pop at_launch at_wait : Phase
  checking : PooledBrowser → Phase
  launching : ℕ → Phase

pub record Acquirer : Type 0 where
  pub deadline : ℕ
  pub backoff : ℕ
  pub phase : Phase

-- Where the scaler task stands: `measured` has read the number of available browsers, `scaling` has
-- launches left to try, launches in progress and launched browsers.
pub data Scaler : Type 0 where
  resting aborted : Scaler
  measured : ℕ → Scaler
  scaling : ℕ → List ℕ → List PooledBrowser → Scaler

-- `pinging` has drained the pool, `dropping` holds the browsers that failed.
pub data Keepalive : Type 0 where
  sleeping stopped : Keepalive
  pinging dropping : List PooledBrowser → Keepalive

-- The release task: `returning` and `closing` hold the browser that was received.
pub data ReleaseTask : Type 0 where
  listening exited : ReleaseTask
  returning closing : PooledBrowser → ReleaseTask

-- How far `shutdown` has got.
pub data Stage : Type 0 where
  running flagged stopping waiting joining draining ended : Stage

pub record BrowserPool : Type 0 where
  pub available : List PooledBrowser
  pub permits : ℕ  -- of the capacity semaphore
  pub closed : Bool  -- the capacity semaphore
  pub in_use_count : ℕ  -- usize
  pub next_id : ℕ  -- u64
  pub shutdown : Bool
  pub release_open : Bool  -- whether the sender of the release channel is there
  pub release_queue : List PooledBrowser
  pub guards : List PooledBrowser
  pub acquirers : List Acquirer
  pub scaler : Scaler
  pub keepalive : Keepalive
  pub release_task : ReleaseTask
  pub stage : Stage

-- The pool when its background tasks start.
unfoldable pub new : BrowserPoolConfig → BrowserPool
new config = record {
  available = [];
  permits = config.max_pool_size;
  closed = false;
  in_use_count = 0;
  next_id = 0;
  shutdown = false;
  release_open = true;
  release_queue = [];
  guards = [];
  acquirers = [];
  scaler = resting;
  keepalive = sleeping;
  release_task = listening;
  stage = running;
}

abbrev pub word : ℕ
word = 2 ^ 64

-- `fetch_add(1)` and `fetch_sub(1)`.
unfoldable pub add_one : ℕ → ℕ
add_one n = (n + 1) % word

unfoldable pub sub_one : ℕ → ℕ
sub_one n = (n + (word - 1)) % word

-- Whether `try_acquire_owned` gives a permit.
abbrev pub can_launch : BrowserPool → Bool
can_launch s = not s.closed && ltb 0 s.permits

-- The start of `launch_browser_internal`, where there is a permit: the launch is `s.next_id`.
unfoldable pub begin_launch : BrowserPool → BrowserPool
unfolding add_one
begin_launch s = record s { permits = s.permits - 1; next_id = add_one s.next_id }

-- Browsers, or launches, that are dropped give their permits back.
unfoldable pub give_back : ℕ → BrowserPool → BrowserPool
give_back n s = record s { permits = s.permits + n }
