-- ===== src/CrawlEngine/RateLimiter/Tasks.antt =====
-- Many tasks on one token bucket (rate_limiter.rs): any interleaving of their atomic operations,
-- spurious failures of the exchange included, and how many requests it can let through.
use native.Mathlib.Nat.{mul-le-mul_left}
use kodegen_tools_citescrape.Base.{
  ℕ, zero, suc, ◌+◌, ◌*◌, ◌/◌, ◌≤◌, ◌≡◌, refl, ap, Bool, List, [], ◌∷◌, map, max, arith, length,
  All,
}
use kodegen_tools_citescrape.CrawlEngine.RateLimiter.{
  u64_max, pack_state, unpack_state, Phase, load_refill, cas_refill, load_consume, cas_consume,
  finished, new, step_task,
}
use kodegen_tools_citescrape.CrawlEngine.RateLimiter.Words.{unpack_state-pack_state}
use kodegen_tools_citescrape.CrawlEngine.RateLimiter.Steps.{
  granted, past, Before, IsWord, step_task-TaskStep,
}

-- The next atomic operation of the task at an index, or nothing where there is none.
unfoldable pub step_at : ℕ → ℕ → ℕ → Bool → ℕ × List Phase → ℕ × List Phase
step_at rate max_tokens i spurious (word, []) = (word, [])
step_at rate max_tokens zero spurious (word, p ∷ ps) =
    let (word', p') = step_task rate max_tokens spurious word p in (word', p' ∷ ps)
step_at rate max_tokens (suc i) spurious (word, p ∷ ps) =
    let (word', ps') = step_at rate max_tokens i spurious (word, ps) in (word', p ∷ ps')

-- A schedule names the task of each step, and whether its exchange fails spuriously.
unfoldable pub run_tasks : ℕ → ℕ → List (ℕ × Bool) → ℕ × List Phase → ℕ × List Phase
run_tasks rate max_tokens [] s = s
run_tasks rate max_tokens ((i, spurious) ∷ schedule) s =
    run_tasks rate max_tokens schedule (step_at rate max_tokens i spurious s)

abbrev pub sum_of : (Phase → ℕ) → List Phase → ℕ
sum_of f [] = 0
sum_of f (p ∷ ps) = f p + sum_of f ps

-- The number of tasks that were let through.
abbrev pub allowed : List Phase → ℕ
allowed = sum_of granted

module _ (rate max_tokens end : ℕ) (max_fits : max_tokens ≤ u64_max)
    (end_fits : end ≤ u64_max) where
  step_at-credit :
      (i : ℕ) (spurious : Bool) (word : ℕ) (ps : List Phase)
      → IsWord max_tokens end word
      → All (Before end) ps
      → let (word', ps') = step_at rate max_tokens i spurious (word, ps) in
        IsWord max_tokens end word'
        × All (Before end) ps'
        × (1000000 * ((unpack_state word').0 + 1000 * allowed ps')
              + rate * ((unpack_state word).1 + sum_of past ps)
            ≤ 1000000 * ((unpack_state word).0 + 1000 * allowed ps)
              + rate * ((unpack_state word').1 + sum_of past ps'))
        × (length ps' ≡ length ps)
  unfolding step_at
  step_at-credit i spurious word [] v b = (v, tt, omega arith, refl)
  step_at-credit zero spurious word (p ∷ ps) v b =
      let t = step_task-TaskStep rate max_tokens end max_fits end_fits spurious word p v b.0 in
      (t.valid, (t.before, b.1), omega (arith, t.credit), refl)
  step_at-credit (suc i) spurious word (p ∷ ps) v b =
      let (v', b', c, l) = step_at-credit i spurious word ps v b.1 in
      (v', (b.0, b'), omega (arith, c), omega (arith, l))

  run_tasks-credit :
      (schedule : List (ℕ × Bool)) (word : ℕ) (ps : List Phase)
      → IsWord max_tokens end word
      → All (Before end) ps
      → let (word', ps') = run_tasks rate max_tokens schedule (word, ps) in
        IsWord max_tokens end word'
        × (1000000 * ((unpack_state word').0 + 1000 * allowed ps')
              + rate * ((unpack_state word).1 + sum_of past ps)
            ≤ 1000000 * ((unpack_state word).0 + 1000 * allowed ps)
              + rate * ((unpack_state word').1 + sum_of past ps'))
        × (length ps' ≡ length ps)
  unfolding run_tasks
  run_tasks-credit [] word ps v b = (v, omega arith, refl)
  run_tasks-credit ((i, spurious) ∷ schedule) word ps v b =
      let (v', b', c, l) = step_at-credit i spurious word ps v b in
      let s = step_at rate max_tokens i spurious (word, ps) in
      let (v'', c', l') = run_tasks-credit schedule s.0 s.1 v' b' in
      (v'', omega (arith, c, c'), omega (arith, l, l'))

past-le-length : (ps : List Phase) → sum_of past ps ≤ length ps
past-le-length [] = omega arith
past-le-length (load_refill now ∷ ps) = omega (arith, past-le-length ps)
past-le-length (cas_refill now current ∷ ps) = omega (arith, past-le-length ps)
past-le-length (load_consume ∷ ps) = omega (arith, past-le-length ps)
past-le-length (cas_consume current ∷ ps) = omega (arith, past-le-length ps)
past-le-length (finished d ∷ ps) = omega (arith, past-le-length ps)

-- Tasks that have just read their clocks.
abbrev pub arrivals : List ℕ → List Phase
arrivals = map load_refill

arrivals_lem :
    (end : ℕ) (times : List ℕ)
    → All (λ now. now ≤ end) times
    → All (Before end) (arrivals times)
      × (allowed (arrivals times) ≡ 0)
      × (sum_of past (arrivals times) ≡ 0)
      × (length (arrivals times) ≡ length times)
arrivals_lem end [] h = (tt, refl, refl, refl)
arrivals_lem end (now ∷ times) h =
    let (b, a, p, l) = arrivals_lem end times h.1 in
    ((h.0, b), omega (arith, a), omega (arith, p), ap suc l)

-- Whatever the interleaving of the atomic operations of any number of tasks on a new bucket, with
-- any spurious failures, the number of requests let through by tasks that read their clocks up to
-- `end` is at most the full bucket and what the rate gives for the time since the bucket was made,
-- and for one nanosecond more for each task.
pub allowed_bound :
    (rate_millirps start end : ℕ) (times : List ℕ) (schedule : List (ℕ × Bool))
    → rate_millirps ≤ u64_max
    → start ≤ end
    → end ≤ u64_max
    → All (λ now. now ≤ end) times
    → let r = new rate_millirps start in
      let (word, tasks) =
        run_tasks r.rate_per_nano r.max_tokens schedule (r.state, arrivals times) in
      1000000000 * allowed tasks + r.rate_per_nano * start
      ≤ 1000000 * r.max_tokens + r.rate_per_nano * (end + length times)
unfolding new
allowed_bound m start end times schedule fits le end_fits h =
    let rate : ℕ = m / 1000 in
    let full : ℕ = max m 1000 in
    let word : ℕ = pack_state full start in
    let final = run_tasks rate full schedule (word, arrivals times) in
    let w = unpack_state-pack_state full start (omega arith) (omega arith) in
    let tokens : (unpack_state word).0 ≡ full = ap (λ q. q.0) w in
    let stamp : (unpack_state word).1 ≡ start = ap (λ q. q.1) w in
    let (b, none_yet, none_past, count) = arrivals_lem end times h in
    let v : IsWord full end word = record { capped = omega arith; not_ahead = omega arith } in
    let (v', credit, kept) =
      run_tasks-credit rate full end (omega arith) end_fits schedule word (arrivals times) v b in
    let late = past-le-length final.1 in
    let clock =
      mul-le-mul_left {m = (unpack_state final.0).1 + sum_of past final.1} {n = end + length times}
        rate (omega arith) in
    let from =
      mul-le-mul_left {m = start} {n = (unpack_state word).1 + sum_of past (arrivals times)} rate
        (omega arith) in
    omega arith
