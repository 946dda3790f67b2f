-- ===== src/Ratelimit.antt =====
-- internal/ratelimit/ratelimit.go: the token buckets. Time is in nanoseconds, and the clock
-- never runs back, as Go's monotonic readings do not. The float64 tokens are exact here: a bucket
-- holds its tokens multiplied by the window, so `limit` tokens are `limit * window` and the refill
-- over `d` nanoseconds is `d * limit`; the rounding of float64 is not modelled.
mod Accounting
mod Rate
pub mod Governor
pub mod Bundles
mod Examples
use verta.Common.{
  ℕ, ◌+◌, ◌-◌, ◌*◌, min, Text, Dict, lookup, insert, filter_values, length, Bool, true, false, none,
  some, [], ltb, leb, not, if◌then◌else◌, ◌||◌, Option,
}

pub record Bucket : Type 0 where
  pub tokens : ℕ
  pub last : ℕ

pub record Limiter : Type 0 where
  pub limit : ℕ
  pub window : ℕ
  pub buckets : Dict Bucket

abbrev pub max_buckets : ℕ
max_buckets = 65536

-- Nanoseconds.
abbrev pub minute : ℕ
minute = 60000000000

abbrev pub hour : ℕ
hour = 3600000000000

unfoldable pub new_limiter : ℕ → ℕ → Limiter
new_limiter limit window = record { limit = limit; window = window; buckets = [] }

-- A full bucket.
abbrev pub burst : Limiter → ℕ
burst l = l.limit * l.window

unfoldable pub idle_full : Limiter → ℕ → Bucket → Bool
idle_full l now b = leb (burst l) (b.tokens + (now - b.last) * l.limit)

unfoldable pub prune : Limiter → ℕ → Limiter
prune l now = record l { buckets = filter_values (λ b. not (idle_full l now b)) l.buckets }

unfoldable pub refill : Limiter → ℕ → Bucket → Bucket
refill l now b = record { tokens = min (b.tokens + (now - b.last) * l.limit) (burst l); last = now }

unfoldable pub make_room : Limiter → ℕ → Limiter
unfolding prune
make_room l now = if leb max_buckets (length l.buckets) then prune l now else l

unfoldable pub take_token : Limiter → Text → Bucket → Limiter × Bool
take_token l key b =
    if ltb b.tokens l.window then (record l { buckets = insert key b l.buckets }, false) else (
      record l { buckets = insert key (record b { tokens = b.tokens - l.window }) l.buckets },
      true,
    )

unfoldable pub allow : Limiter → Text → ℕ → Limiter × Bool
allow l key now = elim (lookup key l.buckets) [
  | none ↦ take_token (make_room l now) key (record { tokens = burst l; last = now })
  | some b ↦ take_token l key (refill l now b)
]
