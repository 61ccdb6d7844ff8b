-- ===== src/Auth/Freshness.antt =====
-- When a signature's timestamp counts as fresh.
use nft_okboy_fleet.Prelude.{
  ℕ, ◌+◌, ◌-◌, ◌^◌, ◌<◌, ◌≡◌, ◌≢◌, false, arith, ltb, nat_discrete, Bool-discrete, ℤ, pos, negsuc,
  ℤ-discrete, Text-discrete,
}
use nft_okboy_fleet.Auth.{abs64, is_expired}

-- The distance of two times.
abbrev pub distance : ℕ → ℤ → ℕ
distance now (pos t) = (now - t) + (t - now)
distance now (negsuc t) = now + t + 1

-- A value of type int64.
abbrev pub InInt64 : ℤ → Type 0
InInt64 (pos n) = n < 2 ^ 63
InInt64 (negsuc n) = n < 2 ^ 63

-- Where the time to live ends before 2 ^ 63: of an int64 timestamp other than the one 2 ^ 63 seconds before now, the check refuses exactly
-- those further than the time to live from now, in the past or the future, also where the
-- subtraction overflows.
pub is_expired_iff :
    (now ttl : ℕ) (ts : ℤ)
    → now + ttl < 2 ^ 63
    → InInt64 ts
    → distance now ts ≢ 2 ^ 63
    → is_expired now ts ttl ≡ ltb ttl (distance now ts)
unfolding is_expired abs64
is_expired_iff now ttl (pos t) hn h d = ground arith
is_expired_iff now ttl (negsuc t) hn h d = ground arith

-- The timestamp exactly 2 ^ 63 seconds before now passes the check, whatever the time to live: the
-- difference wraps to the least int64, whose negation wraps to itself.
pub is_expired_overflow :
    (now ttl : ℕ) (ts : ℤ)
    → now < 2 ^ 63
    → InInt64 ts
    → distance now ts ≡ 2 ^ 63
    → is_expired now ts ttl ≡ false
unfolding is_expired abs64
is_expired_overflow now ttl (pos t) hn h d = absurd (omega arith)
is_expired_overflow now ttl (negsuc t) hn h d = ground arith
