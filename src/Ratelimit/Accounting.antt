-- ===== src/Ratelimit/Accounting.antt =====
-- What a limiter owes each key: the tokens that a key would have if it asked now, and the exact
-- change that a call of `allow` makes to them.
use verta.Common.{
  ◌&&◌, lookup-insert, text_eq, if◌then◌else◌, text_eq_iff, Bool, refl, keep_if, Option,
  AllValues-insert, not, inr, insert-Distinct, lookup-filter_values, inl, length,
  AllValues-filter_values, ltb, leb, Bool-cases, Option-cases, filter_values-Distinct, ℕ, ◌+◌, ◌-◌,
  ◌*◌, ◌≤◌, min, ◌≡◌, Text, lookup, none, some, arith, Distinct, AllValues, AllValues-map,
}
use verta.Ratelimit.{
  idle_full, max_buckets, prune, take_token, make_room, allow, Bucket, Limiter, burst, refill,
}

-- The tokens of a bucket at a time, in units of one `window`-th of a token; no bucket is a full one.
abbrev pub tokens_at : Limiter → Option Bucket → ℕ → ℕ
tokens_at l none now = burst l
tokens_at l (some b) now = min (b.tokens + (now - b.last) * l.limit) (burst l)

-- The tokens that a key would have if it asked at `now`.
abbrev pub available : Limiter → Text → ℕ → ℕ
available l key now = tokens_at l (lookup key l.buckets) now

-- The keys are distinct, and no bucket was touched after the given time.
pub record IsCurrent (l : Limiter) (now : ℕ) : Type 0 where
  pub keys : Distinct l.buckets
  pub touched : AllValues (λ b. b.last ≤ now) l.buckets

pub IsCurrent-later : (l : Limiter) (t u : ℕ) → t ≤ u → IsCurrent l t → IsCurrent l u
IsCurrent-later l t u h c = record {
  keys = c.keys;
  touched = AllValues-map _ _ l.buckets (λ b p. omega arith) c.touched;
}

-- Waiting from `s` to `t` and then to `u` is waiting from `s` to `u`.
elapsed_mul : (s t u n : ℕ) → s ≤ t → t ≤ u → (u - s) * n ≡ (t - s) * n + (u - t) * n
elapsed_mul s t u n h k = grind arith

min_add_min : (a b c f : ℕ) → c ≡ a + b → (x : ℕ) → min (min (x + a) f + b) f ≡ min (x + c) f
min_add_min a b c f e x = omega arith

refill_twice :
    (l : Limiter) (t u : ℕ) (b : Bucket)
    → b.last ≤ t
    → t ≤ u
    → min ((refill l t b).tokens + (u - t) * l.limit) (burst l)
      ≡ min (b.tokens + (u - b.last) * l.limit) (burst l)
unfolding refill
refill_twice l t u b h k =
    min_add_min ((t - b.last) * l.limit) ((u - t) * l.limit) ((u - b.last) * l.limit) (burst l)
      (elapsed_mul b.last t u l.limit h k) b.tokens

more_refill : (s t u n : ℕ) → t ≤ u → (t - s) * n ≤ (u - s) * n
more_refill s t u n h = grind arith

tokens_at-keep_if :
    (l : Limiter) (now : ℕ) (o : Option Bucket) (t : ℕ)
    → now ≤ t
    → tokens_at l (keep_if (λ b. not (idle_full l now b)) o) t ≡ tokens_at l o t
unfolding idle_full
tokens_at-keep_if l now none t h = refl
tokens_at-keep_if l now (some b) t h = ground (arith, more_refill b.last now t l.limit)

-- Pruning drops only buckets that are full by then, so no key's tokens change.
pub available-prune :
    (l : Limiter) (now : ℕ) (k : Text) (t : ℕ)
    → IsCurrent l now
    → now ≤ t
    → available (prune l now) k t ≡ available l k t
unfolding prune
available-prune l now k t c h =
    rw (lookup-filter_values (λ b. not (idle_full l now b)) k l.buckets c.keys)
      (tokens_at-keep_if l now (lookup k l.buckets) t h)

pub prune-IsCurrent : (l : Limiter) (now : ℕ) → IsCurrent l now → IsCurrent (prune l now) now
unfolding prune
prune-IsCurrent l now c = record {
  keys = filter_values-Distinct _ l.buckets c.keys;
  touched = AllValues-filter_values _ _ l.buckets c.touched;
}

available-make_room :
    (l : Limiter) (now : ℕ) (k : Text) (t : ℕ)
    → IsCurrent l now
    → now ≤ t
    → available (make_room l now) k t ≡ available l k t
unfolding make_room
available-make_room l now k t c h = elim (Bool-cases (leb max_buckets (length l.buckets))) [
  | inl full ↦ rw full (available-prune l now k t c h)
  | inr room ↦ rw room
]

make_room-IsCurrent : (l : Limiter) (now : ℕ) → IsCurrent l now → IsCurrent (make_room l now) now
unfolding make_room
make_room-IsCurrent l now c = elim (Bool-cases (leb max_buckets (length l.buckets))) [
  | inl full ↦ rw full (prune-IsCurrent l now c)
  | inr room ↦ rw room c
]

make_room_same :
    (l : Limiter) (now : ℕ)
    → ((make_room l now).limit ≡ l.limit) × ((make_room l now).window ≡ l.window)
unfolding make_room
make_room_same l now = ground arith

take_token-IsCurrent :
    (l : Limiter) (key : Text) (b : Bucket) (now : ℕ)
    → b.last ≤ now
    → IsCurrent l now
    → IsCurrent (take_token l key b).0 now
unfolding take_token
take_token-IsCurrent l key b now h c = elim (Bool-cases (ltb b.tokens l.window)) [
  | inl dry ↦ rw dry (record {
    keys = insert-Distinct key _ l.buckets c.keys;
    touched = AllValues-insert _ key _ l.buckets h c.touched;
  })
  | inr wet ↦ rw wet (record {
    keys = insert-Distinct key _ l.buckets c.keys;
    touched = AllValues-insert _ key _ l.buckets h c.touched;
  })
]

-- A call keeps the limiter's shape.
pub allow-IsCurrent :
    (l : Limiter) (key : Text) (now : ℕ) → IsCurrent l now → IsCurrent (allow l key now).0 now
unfolding allow refill
allow-IsCurrent l key now c = elim (Option-cases (lookup key l.buckets)) [
  | inl e ↦
      rw (e, allow) (take_token-IsCurrent _ key _ now (omega arith) (make_room-IsCurrent l now c))
  | inr (b, e) ↦ rw (e, allow) (take_token-IsCurrent l key _ now (omega arith) c)
]

-- What a call takes from the tokens of `k`.
abbrev pub spent : Limiter → Text → Text → Bool → ℕ
spent l key k ok = if text_eq key k && ok then l.window else 0

none_elapsed : (t n : ℕ) → (t - t) * n ≡ 0
none_elapsed t n = grind arith

take_token_accounts :
    (l : Limiter) (key k : Text) (b : Bucket)
    → b.tokens ≤ burst l
    → available (take_token l key b).0 k b.last + spent l key k (take_token l key b).1
      ≡ (if text_eq key k then b.tokens else available l k b.last)
unfolding take_token
take_token_accounts l key k b h = ground (
  arith,
  lookup-insert key k b l.buckets,
  lookup-insert key k (record b { tokens = b.tokens - l.window }) l.buckets,
  none_elapsed b.last l.limit,
)

take_token_verdict :
    (l : Limiter) (key : Text) (b : Bucket) → (take_token l key b).1 ≡ leb l.window b.tokens
unfolding take_token
take_token_verdict l key b = ground arith

-- A call admits exactly when the key has a whole token.
pub allow_verdict :
    (l : Limiter) (key : Text) (now : ℕ) → (allow l key now).1 ≡ leb l.window (available l key now)
unfolding allow refill
allow_verdict l key now = elim (Option-cases (lookup key l.buckets)) [
  | inl e ↦
      rw (e, allow)
        (ground (
          arith,
          take_token_verdict (make_room l now) key (record { tokens = burst l; last = now }),
          make_room_same l now,
        ))
  | inr (b, e) ↦ rw (e, allow) (take_token_verdict l key (refill l now b))
]

-- Let the keys of a limiter be distinct and no bucket be touched later than the call. If the call
-- is admitted, it takes one token from its key, and no call takes anything else from any key.
pub allow_accounts :
    (l : Limiter) (key k : Text) (now : ℕ)
    → IsCurrent l now
    → available (allow l key now).0 k now + spent l key k (allow l key now).1 ≡ available l k now
unfolding allow
allow_accounts l key k now c = elim (Option-cases (lookup key l.buckets)) [
  | inl e ↦
      rw (e, allow)
        (ground (
          arith,
          text_eq_iff key k,
          take_token_accounts (make_room l now) key k (record { tokens = burst l; last = now }),
          make_room_same l now,
          available-make_room l now k now c,
        ))
  | inr (b, e) ↦
      rw (e, allow)
        (unfold refill in
          ground (arith, text_eq_iff key k, take_token_accounts l key k (refill l now b)))
]
