-- ===== src/BrowserPool/Unique.antt =====
-- The holders of a browser of the pool (src/browser_pool/mod.rs), and its launches in a shutdown.
use kodegen_tools_citescrape.Base.{
  ℕ, suc, ◌+◌, ◌≤◌, ◌<◌, ◌≡◌, refl, ◌∙◌, inl, inr, true, arith, ltb, ◌==◌, if◌then◌else◌,
}
use kodegen_tools_citescrape.BrowserPool.{BrowserPoolConfig, BrowserPool, new, add_one, word}
use kodegen_tools_citescrape.BrowserPool.Weights.{one}
use kodegen_tools_citescrape.BrowserPool.Steps.{Reach, here, next}
use kodegen_tools_citescrape.BrowserPool.Flags.{Step-closed}
use kodegen_tools_citescrape.BrowserPool.Holders.{all, Step-Grows}

-- Counts the browsers and launches with a number.
abbrev pub numbered : ℕ → ℕ → ℕ
numbered i id = if id == i then 1 else 0

unfoldable pub steps : {config : BrowserPoolConfig} {s t : BrowserPool} → Reach config s t → ℕ
steps here = 0
steps (next r st) = suc (steps r)

add_one_small : (n : ℕ) → n + 1 < word → add_one n ≡ n + 1
unfolding add_one
add_one_small n h = omega arith

record Fresh (i n : ℕ) (s : BrowserPool) : Type 0 where
  below : s.next_id ≤ n
  single : all (numbered i) s ≤ (if ltb i s.next_id then 1 else 0)

Reach-Fresh :
    (config : BrowserPoolConfig) {s : BrowserPool} (i : ℕ) (r : Reach config (new config) s)
    → steps r < word
    → Fresh i (steps r) s
unfolding steps new
Reach-Fresh config i here h = record { below = omega arith; single = omega arith }
Reach-Fresh config {s} i (next {t} r st) h =
    let v = Reach-Fresh config i r (omega arith) in
    let low = v.below in
    let single = v.single in
    elim (Step-Grows (numbered i) config st) [
      | inl (same, le) ↦ record {
        below = omega (arith, same, low);
        single = ground (arith, same, le, single);
      }
      | inr (more, opened, le) ↦
          let grown : s.next_id ≡ t.next_id + 1 = more ∙ add_one_small t.next_id (omega arith) in
          record { below = omega (arith, grown, low); single = ground (arith, grown, le, single) }
    ]

-- In a run of fewer than 2^64 steps no two browsers or launches of the pool ever have the same
-- number, wherever they are: available, being checked, handed out, on their way back or held by a
-- background task. So no browser is handed out to two callers at once.
pub one_holder :
    (config : BrowserPoolConfig) {s : BrowserPool} (r : Reach config (new config) s)
    → steps r < word
    → (i : ℕ) → all (numbered i) s ≤ 1
one_holder config r h i = ground (arith, (Reach-Fresh config i r h).single)

-- Once the semaphore is closed, which is the second thing that a shutdown does, no browser is
-- launched any more, whatever the tasks do, and the browsers never become more.
pub no_launch_after_close :
    (config : BrowserPoolConfig) {s t : BrowserPool}
    → s.closed ≡ true
    → Reach config s t
    → (t.closed ≡ true) × (t.next_id ≡ s.next_id) × (all one t ≤ all one s)
no_launch_after_close config c here = (c, refl, omega arith)
no_launch_after_close config c (next r st) =
    let (c', i, le) = no_launch_after_close config c r in
    elim (Step-Grows one config st) [
      | inl (same, less) ↦ (Step-closed config st c', same ∙ i, omega (arith, less, le))
      | inr (more, opened, less) ↦ absurd (ground (arith, opened, c'))
    ]
