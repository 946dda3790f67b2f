-- ===== src/Ratelimit/Rate.antt =====
-- The rate that a limiter enforces, over any interleaving of calls for any keys.
use verta.Common.{
  AllValues-lookup, le→leb, ℕ, ◌*◌, ◌+◌, ◌-◌, ◌≤◌, ◌<◌, ◌≡◌, Text, text_eq, lookup, List, [], ◌∷◌,
  Bool, Option, none, some, Option-cases, inl, inr, true, arith, if◌then◌else◌, ◌&&◌,
}
use verta.Ratelimit.{
  Limiter, Bucket, allow, make_room, prune, take_token, refill, new_limiter, burst,
}
use verta.Ratelimit.Accounting.{
  available, tokens_at, IsCurrent, IsCurrent-later, allow_accounts, allow_verdict, allow-IsCurrent,
  spent,
}

-- The times of the calls never fall, from the time `t` on.
abbrev pub Clocked : ℕ → List (Text × ℕ) → Type 0
Clocked t [] = Unit
Clocked t ((key, now) ∷ calls) = (t ≤ now) × Clocked now calls

abbrev pub end_time : ℕ → List (Text × ℕ) → ℕ
end_time t [] = t
end_time t ((key, now) ∷ calls) = end_time now calls

-- How many of the calls were for `k` and were admitted.
abbrev pub admitted : Text → Limiter → List (Text × ℕ) → ℕ
admitted k l [] = 0
admitted k l ((key, now) ∷ calls) =
    (if text_eq key k && (allow l key now).1 then 1 else 0) + admitted k (allow l key now).0 calls

pub end_time-le : (t : ℕ) (calls : List (Text × ℕ)) → Clocked t calls → t ≤ end_time t calls
end_time-le t [] h = omega arith
end_time-le t ((key, now) ∷ calls) h = omega (arith, end_time-le now calls h.1)

take_token_same :
    (l : Limiter) (key : Text) (b : Bucket)
    → ((take_token l key b).0.limit ≡ l.limit) × ((take_token l key b).0.window ≡ l.window)
unfolding take_token
take_token_same l key b = ground arith

make_room_same :
    (l : Limiter) (now : ℕ)
    → ((make_room l now).limit ≡ l.limit) × ((make_room l now).window ≡ l.window)
unfolding make_room prune
make_room_same l now = ground arith

allow_same :
    (l : Limiter) (key : Text) (now : ℕ)
    → ((allow l key now).0.limit ≡ l.limit) × ((allow l key now).0.window ≡ l.window)
unfolding allow
allow_same l key now = elim (Option-cases (lookup key l.buckets)) [
  | inl e ↦
      rw (e, allow)
        (ground (
          arith,
          make_room_same l now,
          take_token_same (make_room l now) key (record { tokens = burst l; last = now }),
        ))
  | inr (b, e) ↦ rw (e, allow) (take_token_same l key (refill l now b))
]

pub mul_mono : (a b n : ℕ) → a ≤ b → a * n ≤ b * n
mul_mono a b n h = grind arith

more_time : (s t u n : ℕ) → t ≤ u → (u - s) * n ≤ (t - s) * n + (u - t) * n
more_time s t u n h = omega (arith, mul_mono (u - s) ((t - s) + (u - t)) n (omega arith))

tokens_at_growth :
    (l : Limiter) (o : Option Bucket) (t u : ℕ)
    → t ≤ u
    → tokens_at l o u ≤ tokens_at l o t + (u - t) * l.limit
tokens_at_growth l none t u h = omega arith
tokens_at_growth l (some b) t u h = ground (arith, more_time b.last t u l.limit)

span_mul : (t now e n : ℕ) → t ≤ now → now ≤ e → (now - t) * n + (e - now) * n ≡ (e - t) * n
span_mul t now e n h k = grind arith

spent_count :
    (l : Limiter) (key k : Text) (ok : Bool) (n : ℕ)
    → ((if text_eq key k && ok then 1 else 0) + n) * l.window ≡ spent l key k ok + n * l.window
spent_count l key k ok n = ground arith

-- What a key is admitted is covered by its tokens at the start and the refill since.
pub admitted-le :
    (k : Text) (l : Limiter) (t : ℕ) (calls : List (Text × ℕ))
    → IsCurrent l t
    → Clocked t calls
    → admitted k l calls * l.window ≤ available l k t + (end_time t calls - t) * l.limit
admitted-le k l t [] c h = omega arith
admitted-le k l t ((key, now) ∷ calls) c h =
    let current : IsCurrent l now = IsCurrent-later l t now h.0 c in
    let same : ((allow l key now).0.limit ≡ l.limit) × ((allow l key now).0.window ≡ l.window) =
      allow_same l key now in
    let rest : admitted k (allow l key now).0 calls * l.window
        ≤ available (allow l key now).0 k now + (end_time now calls - now) * l.limit =
      rw (same.0, same.1) at
        (admitted-le k (allow l key now).0 now calls (allow-IsCurrent l key now current) h.1) in
    omega (
      arith,
      rest,
      spent_count l key k (allow l key now).1 (admitted k (allow l key now).0 calls),
      allow_accounts l key k now current,
      tokens_at_growth l (lookup k l.buckets) t now h.0,
      span_mul t now (end_time now calls) l.limit h.0 (end_time-le now calls h.1),
    )

new_limiter-IsCurrent : (limit window t : ℕ) → IsCurrent (new_limiter limit window) t
unfolding new_limiter
new_limiter-IsCurrent limit window t = record { keys = tt; touched = tt }

-- For calls whose times do not run back, a fresh limiter admits at most its burst and, over the
-- time that the calls take, its rate: in a span of `d` nanoseconds at most `limit * (window + d)
-- / window` calls for any one key, whatever other keys do and whenever buckets are pruned.
pub admitted_rate :
    (k : Text) (limit window t : ℕ) (calls : List (Text × ℕ))
    → Clocked t calls
    → admitted k (new_limiter limit window) calls * window
      ≤ limit * (window + (end_time t calls - t))
unfolding new_limiter lookup
admitted_rate k limit window t calls h = omega (
  arith,
  admitted-le k (new_limiter limit window) t calls (new_limiter-IsCurrent limit window t) h,
)

-- Let the keys of a limiter be distinct, its limit not be zero, and no bucket be touched within a
-- window before a call. The call is admitted.
pub allow_idle :
    (l : Limiter) (key : Text) (t now : ℕ)
    → IsCurrent l t
    → t + l.window ≤ now
    → 0 < l.limit
    → (allow l key now).1 ≡ true
allow_idle l key t now c h p = elim (Option-cases (lookup key l.buckets)) [
  | inl e ↦ rw (allow_verdict, e) (le→leb _ _ (omega (arith, mul_mono 1 l.limit l.window p)))
  | inr (b, e) ↦
      let seen : b.last ≤ t = AllValues-lookup (λ x. x.last ≤ t) key l.buckets c.touched e in
      rw (allow_verdict, e)
        (le→leb _ _ (
          omega (
            arith,
            mul_mono 1 l.limit l.window p,
            mul_mono l.window (now - b.last) l.limit (omega arith),
          )))
]
