-- ===== src/CrawlEngine/RateLimiter/Words.antt =====
-- The packed word of a token bucket (rate_limiter.rs, `pack_state` and `unpack_state`).
use kodegen_tools_citescrape.Base.{ℕ, ◌≤◌, ◌≡◌, arith}
use kodegen_tools_citescrape.CrawlEngine.RateLimiter.{u64_max, pack_state, unpack_state}

-- Two u64 values packed into a u128 come back unchanged.
pub unpack_state-pack_state :
    (tokens nanos : ℕ)
    → tokens ≤ u64_max
    → nanos ≤ u64_max
    → unpack_state (pack_state tokens nanos) ≡ (tokens, nanos)
unfolding pack_state unpack_state
unpack_state-pack_state tokens nanos t n = ground arith

-- A u128 word that is unpacked comes back when its parts are packed.
pub pack_state-unpack_state :
    (packed : ℕ)
    → packed ≤ 340282366920938463463374607431768211455
    → pack_state (unpack_state packed).0 (unpack_state packed).1 ≡ packed
unfolding pack_state unpack_state
pack_state-unpack_state packed h = omega arith
