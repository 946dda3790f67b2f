-- ===== src/Auth.antt =====
-- internal/auth/guard.go and internal/auth/auth.go: failed logins are counted for each key, answered
-- with a growing delay, and lock the key out. Times are in nanoseconds, the zero time.Time is 0, and
-- the clock never runs back. The mutex makes each operation of the guard one step.
mod Guard
mod Lockout
mod Verify
mod Lasting
mod Examples
use verta.Common.{
  ℕ, ◌+◌, ◌-◌, ◌*◌, ◌^◌, Text, Dict, lookup, insert, delete, filter_values, length, Bool, true,
  false, none, some, [], ltb, leb, not, if◌then◌else◌, ◌||◌, ◌&&◌, Option, codes, ◌++◌, to_lower,
  trim_space,
}

pub record GuardEntry : Type 0 where
  pub fails : ℕ
  pub locked_until : ℕ
  pub last : ℕ

pub record FailureGuard : Type 0 where
  pub max_failures : ℕ
  pub lockout : ℕ
  pub entries : Dict GuardEntry

abbrev pub max_entries : ℕ
max_entries = 65536

-- Milliseconds, in nanoseconds.
abbrev pub millisecond : ℕ
millisecond = 1000000

unfoldable pub new_guard : ℕ → ℕ → FailureGuard
new_guard max_failures lockout = record {
  max_failures = max_failures;
  lockout = lockout;
  entries = [];
}

unfoldable pub blocked : FailureGuard → Text → ℕ → Bool
blocked g key now = elim (lookup key g.entries) [ none ↦ false | some e ↦ ltb now e.locked_until ]

-- A lockout that is over, and a last failure more than two lockouts ago.
unfoldable pub forgotten : FailureGuard → ℕ → GuardEntry → Bool
forgotten g now e = ltb e.locked_until now && ltb (2 * g.lockout) (now - e.last)

unfoldable pub prune : FailureGuard → ℕ → FailureGuard
prune g now = record g { entries = filter_values (λ e. not (forgotten g now e)) g.entries }

abbrev no_failures : GuardEntry
no_failures = record { fails = 0; locked_until = 0; last = 0 }

unfoldable pub fails_after : FailureGuard → ℕ → GuardEntry → ℕ
fails_after g now e = (if ltb (2 * g.lockout) (now - e.last) then 0 else e.fails) + 1

unfoldable pub bump : FailureGuard → ℕ → GuardEntry → GuardEntry
unfolding fails_after
bump g now e = record {
  fails = fails_after g now e;
  locked_until =
      if leb g.max_failures (fails_after g now e) then now + g.lockout else e.locked_until;
  last = now;
}

-- The doubling stops after the fifth failure.
unfoldable pub shift : ℕ → ℕ
shift fails = if ltb 4 (fails - 1) then 4 else fails - 1

unfoldable pub delay : ℕ → ℕ
delay fails = 250 * millisecond * 2 ^ shift fails

unfoldable pub make_room : FailureGuard → ℕ → FailureGuard
make_room g now = if leb max_entries (length g.entries) then prune g now else g

pub record_failure : FailureGuard → Text → ℕ → GuardEntry → FailureGuard × ℕ
record_failure g key now e =
    let e' = bump g now e in (record g { entries = insert key e' g.entries }, delay e'.fails)

unfoldable pub fail : FailureGuard → Text → ℕ → FailureGuard × ℕ
unfolding record_failure
fail g key now = elim (lookup key g.entries) [
  | none ↦ record_failure (make_room g now) key now no_failures
  | some e ↦ record_failure g key now e
]

unfoldable pub success : FailureGuard → Text → FailureGuard
success g key = record g { entries = delete key g.entries }

pub data Verdict : Type 0 where
  accepted invalid locked : Verdict

-- The times at which one call of `verify` reads the clock.
pub record Readings : Type 0 where
  pub user_check : ℕ
  pub ip_check : ℕ
  pub user_fail : ℕ
  pub ip_fail : ℕ

abbrev pub user_key : Text → Text
user_key email = codes "u:" ++ to_lower (trim_space email)

abbrev pub ip_key : Text → Text
ip_key ip = codes "ip:" ++ ip

-- The stored hashes, and the check of a password against a hash (argon2id and bcrypt are third-party
-- code), are parameters.
module _ (lookup_hash : Text → Option Text) (verify_password : Text → Text → Bool)
    (dummy_hash : Text) where
  -- `!VerifyPassword(hash, password) || !ok`
  unfoldable pub credentials_fail : Text → Text → Bool
  credentials_fail email password = elim (lookup_hash email) [
    | none ↦ not (verify_password dummy_hash password) || true
    | some hash ↦ not (verify_password hash password) || false
  ]

  -- The guard, the verdict, and the time slept before it is returned.
  unfoldable pub verify : FailureGuard → Text → Text → Text → Readings → FailureGuard × Verdict × ℕ
  verify g email password ip t =
      if blocked g (user_key email) t.user_check || blocked g (ip_key ip) t.ip_check
      then (g, locked, 0)
      else if credentials_fail (to_lower (trim_space email)) password
      then (let (g₁, d₁) = fail g (user_key email) t.user_fail in
          let (g₂, d₂) = fail g₁ (ip_key ip) t.ip_fail in
          (g₂, invalid, if ltb d₁ d₂ then d₂ else d₁))
      else (success (success g (user_key email)) (ip_key ip), accepted, 0)
