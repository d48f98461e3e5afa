-- ===== src/BrowserPool/Deadline.antt =====
-- A call of `acquire_timeout` (src/browser_pool/mod.rs) at and after its deadline.
use kodegen_tools_citescrape.Base.{
  ℕ, zero, suc, ◌-◌, ◌≤◌, ◌<◌, ◌≡◌, refl, sym, subst, inl, inr, Bool, true, false, List, [], ◌∷◌,
  arith, leb, ◌==◌, Bool-cases,
}
use kodegen_tools_citescrape.BrowserPool.{
  PooledBrowser, at_check, at_pop, at_launch, at_wait, checking, launching, Phase, Acquirer,
  BrowserPool, can_launch, give_back,
}
use kodegen_tools_citescrape.BrowserPool.Acquire.{
  LaunchError, exhausted, Outcome, healthy, unhealthy, check_timed_out, launched, launch_failed,
  notified, slept, Next, goes, acquired, fails, acquire_step, check, pop, health, hand_out,
  after_error, launch, finish_launch, wake, is_capacity,
}

-- The outcomes that the await of a phase can have.
abbrev pub Answers : Phase → Outcome → Type 0
Answers (launching id) launched = Unit {0}
Answers (launching id) (launch_failed e) = Unit
Answers (launching id) outcome = ⊥
Answers at_wait notified = Unit
Answers at_wait slept = Unit
Answers at_wait outcome = ⊥
Answers phase outcome = Unit

then_turn : (Acquirer → Next) → Acquirer → Next → Next
then_turn go_on a (goes phase backoff) = go_on (record a { phase = phase; backoff = backoff })
then_turn go_on a end = end

-- What the call has come to after some turns of its own, where `now`, `answer` and `pool` are the
-- time, the outcome and the state of the pool at each turn, whatever others did in between.
unfoldable pub turns : ℕ → (ℕ → ℕ) → (ℕ → Phase → Outcome) → (ℕ → BrowserPool) → Acquirer → Next
unfolding then_turn
turns zero now answer pool a = goes a.phase a.backoff
turns (suc n) now answer pool a =
    then_turn (turns n (λ k. now (suc k)) (λ k. answer (suc k)) (λ k. pool (suc k))) a
      (acquire_step (now 0) (answer 0 a.phase) (pool 0) a a.phase).1

abbrev pub is_over : Next → Bool
is_over (goes phase backoff) = false
is_over _ = true

-- The turns that are left from the deadline on, the present one not counted.
abbrev rank : Phase → ℕ
rank at_check = 0
rank (checking b) = 1
rank at_wait = 1
rank (launching id) = 0
rank at_launch = 1
rank at_pop = 2

abbrev Closer : ℕ → Next → Type 0
Closer n (goes phase backoff) = rank phase < n
Closer n _ = Unit {0}

after_error-over :
    (now : ℕ) (e : LaunchError) (s : BrowserPool) (a : Acquirer) (n : ℕ)
    → a.deadline ≤ now
    → Closer n (after_error now e s a).1
unfolding after_error
after_error-over now e s a n h = elim (Bool-cases (is_capacity e)) [
  | inl full ↦ let over : (a.deadline - now == 0) ≡ true = ground arith in rw (full, over) tt
  | inr other ↦ rw other tt
]

pop-Closer : (s : BrowserPool) (a : Acquirer) (bs : List PooledBrowser) → Closer 2 (pop s a bs).1
unfolding pop
pop-Closer s a [] = omega arith
pop-Closer s a (b ∷ bs) = omega arith

rank-lt : (phase : Phase) → rank phase < 3
rank-lt at_check = omega arith
rank-lt at_pop = omega arith
rank-lt (checking b) = omega arith
rank-lt at_launch = omega arith
rank-lt (launching id) = omega arith
rank-lt at_wait = omega arith

then_turn-over :
    (go_on : Acquirer → Next) (a : Acquirer) (n : ℕ) (next : Next)
    → Closer n next
    → ((b : Acquirer) → b.deadline ≡ a.deadline → rank b.phase < n → is_over (go_on b) ≡ true)
    → is_over (then_turn go_on a next) ≡ true
unfolding then_turn
then_turn-over go_on a n (goes phase backoff) c h = h _ refl c
then_turn-over go_on a n (acquired b) c h = refl
then_turn-over go_on a n (fails e) c h = refl

step-Closer :
    (now : ℕ) (outcome : Outcome) (s : BrowserPool) (a : Acquirer) (phase : Phase)
    → a.deadline ≤ now
    → Answers phase outcome
    → Closer (rank phase) (acquire_step now outcome s a phase).1
unfolding acquire_step check pop health hand_out launch finish_launch wake
step-Closer now outcome s a at_check h f =
    let over : leb a.deadline now ≡ true = ground arith in rw over tt
step-Closer now outcome s a at_pop h f = pop-Closer s a s.available
step-Closer now healthy s a (checking b) h f = tt
step-Closer now unhealthy s a (checking b) h f = omega arith
step-Closer now check_timed_out s a (checking b) h f = omega arith
step-Closer now launched s a (checking b) h f = omega arith
step-Closer now notified s a (checking b) h f = omega arith
step-Closer now slept s a (checking b) h f = omega arith
step-Closer now (launch_failed e) s a (checking b) h f = omega arith
step-Closer now outcome s a at_launch h f = elim (Bool-cases (can_launch s)) [
  | inl free ↦ rw free (omega arith)
  | inr full ↦ rw full (after_error-over now exhausted s a 1 h)
]
step-Closer now launched s a (launching id) h f = tt
step-Closer now (launch_failed e) s a (launching id) h f =
    after_error-over now e (give_back 1 s) a 0 h
step-Closer now healthy s a (launching id) h f = absurd f
step-Closer now unhealthy s a (launching id) h f = absurd f
step-Closer now check_timed_out s a (launching id) h f = absurd f
step-Closer now notified s a (launching id) h f = absurd f
step-Closer now slept s a (launching id) h f = absurd f
step-Closer now notified s a at_wait h f = omega arith
step-Closer now slept s a at_wait h f = omega arith
step-Closer now healthy s a at_wait h f = absurd f
step-Closer now unhealthy s a at_wait h f = absurd f
step-Closer now check_timed_out s a at_wait h f = absurd f
step-Closer now launched s a at_wait h f = absurd f
step-Closer now (launch_failed e) s a at_wait h f = absurd f

-- What is proved of each number of turns that exceeds the rank of the phase.
turns-over :
    (n : ℕ) (now : ℕ → ℕ) (answer : ℕ → Phase → Outcome) (pool : ℕ → BrowserPool) (a : Acquirer)
    → ((k : ℕ) → a.deadline ≤ now k)
    → ((k : ℕ) (phase : Phase) → Answers phase (answer k phase))
    → rank a.phase < n
    → is_over (turns n now answer pool a) ≡ true
unfolding turns
turns-over zero now answer pool a h f r = absurd (omega arith)
turns-over (suc n) now answer pool a h f r =
    let outcome = answer 0 a.phase in
    let closer = step-Closer (now 0) outcome (pool 0) a a.phase (h 0) (f 0 a.phase) in
    then_turn-over _ a (rank a.phase) _ closer (λ b same less.
      turns-over n (λ k. now (suc k)) (λ k. answer (suc k)) (λ k. pool (suc k)) b
        (λ k. subst (λ d. d ≤ now (suc k)) (sym same) (h (suc k))) (λ k. f (suc k)) (omega arith))

-- A call whose deadline has come is over after three turns of its own at most, in whatever phase it
-- is, whatever the checks, launches and waits give, and whatever other tasks do to the pool between
-- the turns.
pub acquire_ends :
    (now : ℕ → ℕ) (answer : ℕ → Phase → Outcome) (pool : ℕ → BrowserPool) (a : Acquirer)
    → ((k : ℕ) → a.deadline ≤ now k)
    → ((k : ℕ) (phase : Phase) → Answers phase (answer k phase))
    → is_over (turns 3 now answer pool a) ≡ true
acquire_ends now answer pool a h f = turns-over 3 now answer pool a h f (rank-lt a.phase)
