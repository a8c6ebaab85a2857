-- ===== src/Gateway/RateLimit.antt =====
-- openjax-gateway/src/auth/rate_limit.rs: a limit on the calls of a key within a sliding window of time. The
-- time of a call comes with it; `Instant` never goes back.
pub mod Windowed
use open_jax.Prelude.{
  ℕ, ◌-◌, String, Bool, true, false, Option, none, some, List, [], ◌∷◌, ◌++◌, length, leb,
  if◌then◌else◌,
}
use open_jax.Prelude.Dict.{Dict, get, insert}

pub record SlidingWindowRateLimiter : Type 0 where
  pub limit : ℕ
  pub window : ℕ
  pub buckets : Dict (List ℕ)

abbrev pub new_limiter : ℕ → ℕ → SlidingWindowRateLimiter
new_limiter limit window = record { limit = limit; window = window; buckets = [] }

-- `duration_since` is zero for a later instant.
abbrev pub is_recent : ℕ → ℕ → ℕ → Bool
is_recent window now ts = leb (now - ts) window

-- The loop that pops what has left the window.
unfoldable pub evict : ℕ → ℕ → List ℕ → List ℕ
evict window now [] = []
evict window now (ts ∷ bucket) =
    let rest = evict window now bucket in if is_recent window now ts then ts ∷ bucket else rest

abbrev pub or_empty : Option (List ℕ) → List ℕ
or_empty none = []
or_empty (some bucket) = bucket

abbrev pub bucket_of : String → SlidingWindowRateLimiter → List ℕ
bucket_of key l = or_empty (get key l.buckets)

-- The answer, and the bucket that is left.
unfoldable pub admit : ℕ → ℕ → List ℕ → Bool × List ℕ
admit limit now bucket =
    if leb limit (length bucket) then (false, bucket) else (true, bucket ++ now ∷ [])

unfoldable pub allow : String → ℕ → SlidingWindowRateLimiter → Bool × SlidingWindowRateLimiter
unfolding admit evict
allow key now l =
    let (answer, bucket) = admit l.limit now (evict l.window now (bucket_of key l)) in
    (answer, record l { buckets = insert key bucket l.buckets })
