-- ===== src/CrawlEngine/RateLimiter/Steps.antt =====
-- One atomic operation of a task on the token bucket (rate_limiter.rs): what it may do to the
-- packed word and to the task that runs it.
use native.Mathlib.Nat.{mul-le-mul_left}
use kodegen_tools_citescrape.Base.{
  ℕ, ◌+◌, ◌-◌, ◌*◌, ◌≤◌, ◌≡◌, refl, sym, subst, ap, ◌⊎◌, inl, inr, Bool, true, false, arith, leb,
  ==_iff, Bool-cases,
}
use kodegen_tools_citescrape.CrawlEngine.RateLimiter.{
  u64_max, pack_state, unpack_state, refill, allow, deny, Phase, load_refill, cas_refill,
  load_consume, cas_consume, finished, compare_exchange_weak, refill_round, consume_round, settle,
  pack_pair, step_task,
}
use kodegen_tools_citescrape.CrawlEngine.RateLimiter.Words.{unpack_state-pack_state}
use kodegen_tools_citescrape.CrawlEngine.RateLimiter.Credit.{refill-Refills, consume_cases}

abbrev pub granted : Phase → ℕ
granted (finished allow) = 1
granted _ = 0

-- The tasks that are past their refill.
abbrev pub past : Phase → ℕ
past (load_refill now) = 0
past (cas_refill now current) = 0
past _ = 1

-- The task read its clock at `end` at the latest.
abbrev pub Before : ℕ → Phase → Type 0
Before end (load_refill now) = now ≤ end
Before end (cas_refill now current) = now ≤ end
Before end _ = Unit

pub record IsWord (max_tokens end word : ℕ) : Type 0 where
  pub capped : (unpack_state word).0 ≤ max_tokens
  pub not_ahead : (unpack_state word).1 ≤ end

-- What one atomic operation may do to the word and its task: every thousandth of a token that is
-- spent comes from the time that the stamp moves, or from the one nanosecond that a refill may gain.
pub record TaskStep (rate max_tokens end word : ℕ) (p : Phase) (word' : ℕ) (p' : Phase)
    : Type 0 where
  pub valid : IsWord max_tokens end word'
  pub before : Before end p'
  pub credit :
      1000000 * ((unpack_state word').0 + 1000 * granted p')
        + rate * ((unpack_state word).1 + past p)
      ≤ 1000000 * ((unpack_state word).0 + 1000 * granted p)
        + rate * ((unpack_state word').1 + past p')

exchange_cases :
    (spurious : Bool) (word current next : ℕ)
    → (compare_exchange_weak spurious word current next ≡ (word, false))
      ⊎ ((compare_exchange_weak spurious word current next ≡ (next, true)) × (word ≡ current))
unfolding compare_exchange_weak
exchange_cases true word current next = inl (ground arith)
exchange_cases false word current next = ground (arith, ==_iff word current)

module _ (rate max_tokens end : ℕ) (max_fits : max_tokens ≤ u64_max)
    (end_fits : end ≤ u64_max) where
  idle :
      (word : ℕ) (p p' : Phase)
      → IsWord max_tokens end word
      → Before end p'
      → granted p ≡ granted p'
      → past p ≤ past p'
      → TaskStep rate max_tokens end word p word p'
  idle word p p' v b g r = record {
    valid = v;
    before = b;
    credit = omega (arith, mul-le-mul_left rate r, ap (λ (x : ℕ). x * 1000000000) g);
  }

  -- The exchange of a refill that succeeds.
  refilled_step :
      (word now : ℕ)
      → IsWord max_tokens end word
      → now ≤ end
      → TaskStep rate max_tokens end word
          (cas_refill now word)
          (pack_pair (refill rate max_tokens now (unpack_state word)))
          load_consume
  refilled_step word now v le =
      let R : ℕ × ℕ = refill rate max_tokens now (unpack_state word) in
      let f =
        refill-Refills rate max_tokens now (unpack_state word).0 (unpack_state word).1 v.capped
          (omega arith) (omega arith) in
      let below : R.0 ≤ max_tokens = f.capped in
      let ended : R.1 ≤ end = ground (arith, f.not_past) in
      let w = unpack_state-pack_state R.0 R.1 (omega arith) (omega arith) in
      record {
        valid = record {
          capped = rw (ap (λ q. q.0) w) below;
          not_ahead = rw (ap (λ q. q.1) w) ended;
        };
        before = tt;
        credit = rw w (omega (arith, f.credit));
      }

  refill_round-TaskStep :
      (spurious : Bool) (word now current : ℕ)
      → IsWord max_tokens end word
      → now ≤ end
      → let s = refill_round rate max_tokens spurious word now current in
        TaskStep rate max_tokens end word (cas_refill now current) s.0 s.1
  unfolding refill_round
  refill_round-TaskStep spurious word now current v le =
      elim (Bool-cases (leb now (unpack_state current).1)) [
        | inl early ↦
            rw early (idle word (cas_refill now current) load_consume v tt refl (omega arith))
        | inr late ↦
            elim (exchange_cases spurious word current
              (pack_pair (refill rate max_tokens now (unpack_state current)))) [
                | inl fails ↦
                    rw (late, fails)
                      (idle word (cas_refill now current) (cas_refill now word) v le refl
                        (omega arith))
                | inr (succeeds, same) ↦ rw (late, succeeds, ← same) (refilled_step word now v le)
              ]
      ]

  -- The exchange of a consumption that succeeds.
  consumed_step :
      (word : ℕ)
      → IsWord max_tokens end word
      → 1000 ≤ (unpack_state word).0
      → TaskStep rate max_tokens end word
          (cas_consume word)
          (pack_state ((unpack_state word).0 - 1000) (unpack_state word).1)
          (finished allow)
  consumed_step word v whole =
      let T : ℕ = (unpack_state word).0 - 1000 in
      let L : ℕ = (unpack_state word).1 in
      let w = unpack_state-pack_state T L (omega arith) (omega arith) in
      record {
        valid = record {
          capped = rw (ap (λ q. q.0) w) (omega arith);
          not_ahead = rw (ap (λ q. q.1) w) v.not_ahead;
        };
        before = tt;
        credit = rw w (omega arith);
      }

  settle-TaskStep :
      (spurious : Bool) (word current : ℕ)
      → IsWord max_tokens end word
      → 1000 ≤ (unpack_state current).0
      → let left : ℕ × ℕ = ((unpack_state current).0 - 1000, (unpack_state current).1) in
        let s = settle spurious word current (left, allow) in
        TaskStep rate max_tokens end word (cas_consume current) s.0 s.1
  unfolding settle
  settle-TaskStep spurious word current v whole =
      elim (exchange_cases spurious word current
        (pack_state ((unpack_state current).0 - 1000) (unpack_state current).1)) [
          | inl fails ↦
              rw fails (idle word (cas_consume current) (cas_consume word) v tt refl (omega arith))
          | inr (succeeds, same) ↦
              rw (succeeds, ← same)
                (consumed_step word v (subst (λ x. 1000 ≤ (unpack_state x).0) (sym same) whole))
        ]

  settle_denied :
      (spurious : Bool) (word current nanos : ℕ) (read : ℕ × ℕ)
      → IsWord max_tokens end word
      → let s = settle spurious word current (read, deny nanos) in
        TaskStep rate max_tokens end word (cas_consume current) s.0 s.1
  unfolding settle
  settle_denied spurious word current nanos read v =
      idle word (cas_consume current) (finished (deny nanos)) v tt refl (omega arith)

  consume_round-TaskStep :
      (spurious : Bool) (word current : ℕ)
      → IsWord max_tokens end word
      → let s = consume_round rate spurious word current in
        TaskStep rate max_tokens end word (cas_consume current) s.0 s.1
  unfolding consume_round
  consume_round-TaskStep spurious word current v =
      elim (consume_cases rate (unpack_state current)) [
        | inl (nanos, e) ↦ rw e (settle_denied spurious word current nanos (unpack_state current) v)
        | inr (whole, e) ↦ rw e (settle-TaskStep spurious word current v whole)
      ]

  pub step_task-TaskStep :
      (spurious : Bool) (word : ℕ) (p : Phase)
      → IsWord max_tokens end word
      → Before end p
      → let s = step_task rate max_tokens spurious word p in
        TaskStep rate max_tokens end word p s.0 s.1
  unfolding step_task
  step_task-TaskStep spurious word (load_refill now) v b =
      idle word (load_refill now) (cas_refill now word) v b refl (omega arith)
  step_task-TaskStep spurious word (cas_refill now current) v b =
      refill_round-TaskStep spurious word now current v b
  step_task-TaskStep spurious word load_consume v b =
      idle word load_consume (cas_consume word) v tt refl (omega arith)
  step_task-TaskStep spurious word (cas_consume current) v b =
      consume_round-TaskStep spurious word current v
  step_task-TaskStep spurious word (finished d) v b =
      idle word (finished d) (finished d) v tt refl (omega arith)
