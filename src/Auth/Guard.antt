-- ===== src/Auth/Guard.antt =====
-- The guard: how long a failure is delayed, when a key is locked out and until when, and that a
-- failure of one key leaves the others as they were.
use verta.Common.{
  ℕ, zero, suc, ◌*◌, ◌^◌, ◌≤◌, ◌≡◌, ◌≢◌, refl, Text, Distinct, lookup, length, Bool, false, none,
  some, ltb, leb, not, Option, arith, if◌then◌else◌, inl, inr, text_eq, text_eq_iff, text_eq_refl,
  lookup-insert, lookup-filter_values, Option-cases, Bool-cases, keep_if, filter_values-Distinct,
  insert-Distinct,
}
use verta.Auth.{
  FailureGuard, GuardEntry, blocked, forgotten, prune, bump, delay, shift, make_room, fail,
  record_failure, no_failures, max_entries, fails_after, millisecond,
}

shift-le : (fails : ℕ) → shift fails ≤ 4
unfolding shift
shift-le fails = ground arith

doubled_bounds :
    (s : ℕ)
    → s ≤ 4
    → (250 * millisecond ≤ 250 * millisecond * 2 ^ s)
      × (250 * millisecond * 2 ^ s ≤ 4000 * millisecond)
doubled_bounds zero h = omega arith
doubled_bounds (suc zero) h = omega arith
doubled_bounds (suc (suc zero)) h = omega arith
doubled_bounds (suc (suc (suc zero))) h = omega arith
doubled_bounds (suc (suc (suc (suc zero)))) h = omega arith
doubled_bounds (suc (suc (suc (suc (suc n))))) h = absurd (omega arith)

-- Whatever the number of failures, a refusal waits from 250 milliseconds to 4 seconds.
pub delay_bounds :
    (fails : ℕ) → (250 * millisecond ≤ delay fails) × (delay fails ≤ 4000 * millisecond)
unfolding delay
delay_bounds fails = doubled_bounds (shift fails) (shift-le fails)

pub fail_same :
    (g : FailureGuard) (key : Text) (now : ℕ)
    → ((fail g key now).0.max_failures ≡ g.max_failures) × ((fail g key now).0.lockout ≡ g.lockout)
unfolding fail make_room prune
fail_same g key now = ground arith

abbrev pub entry_or_new : Option GuardEntry → GuardEntry
entry_or_new none = no_failures
entry_or_new (some e) = e

make_room_same :
    (g : FailureGuard) (now : ℕ)
    → ((make_room g now).max_failures ≡ g.max_failures) × ((make_room g now).lockout ≡ g.lockout)
unfolding make_room prune
make_room_same g now = ground arith

lookup-record_failure :
    (g : FailureGuard) (key k : Text) (now : ℕ) (e : GuardEntry)
    → lookup k (record_failure g key now e).0.entries
      ≡ (if text_eq key k then some (bump g now e) else lookup k g.entries)
unfolding record_failure
lookup-record_failure g key k now e = lookup-insert key k (bump g now e) g.entries

-- The entry of a key after its failure.
pub lookup-fail_self :
    (g : FailureGuard) (key : Text) (now : ℕ)
    → lookup key (fail g key now).0.entries
      ≡ some (bump g now (entry_or_new (lookup key g.entries)))
unfolding fail
lookup-fail_self g key now = elim (Option-cases (lookup key g.entries)) [
  | inl e ↦
      rw (e, fail, lookup-record_failure, text_eq_refl)
        (unfold bump fails_after in ground (arith, make_room_same g now))
  | inr (x, e) ↦ rw (e, fail, lookup-record_failure, text_eq_refl)
]

abbrev pub lock_of : Option GuardEntry → ℕ → Bool
lock_of none t = false
lock_of (some e) t = ltb t e.locked_until

lock_of-forgotten :
    (g : FailureGuard) (now t : ℕ) (o : Option GuardEntry)
    → now ≤ t
    → lock_of (keep_if (λ e. not (forgotten g now e)) o) t ≡ lock_of o t
unfolding forgotten
lock_of-forgotten g now t none h = refl
lock_of-forgotten g now t (some e) h = ground arith

pub blocked_lem :
    (g : FailureGuard) (k : Text) (t : ℕ) → blocked g k t ≡ lock_of (lookup k g.entries) t
unfolding blocked
blocked_lem g k t = ground arith

-- Pruning forgets nobody who is locked out.
pub blocked-make_room :
    (g : FailureGuard) (now : ℕ) (k : Text) (t : ℕ)
    → Distinct g.entries
    → now ≤ t
    → blocked (make_room g now) k t ≡ blocked g k t
unfolding make_room
blocked-make_room g now k t d h = elim (Bool-cases (leb max_entries (length g.entries))) [
  | inl full ↦ rw full (
      rw (blocked_lem (prune g now) k t, blocked_lem g k t)
        (unfold prune in
          rw (lookup-filter_values (λ e. not (forgotten g now e)) k g.entries d)
            (lock_of-forgotten g now t (lookup k g.entries) h)))
  | inr room ↦ rw room
]

-- Let the keys of a guard be distinct. A failure of one key does not lock out or free another at
-- any later time, also when it prunes the table.
pub blocked-fail_other :
    (g : FailureGuard) (key k : Text) (now t : ℕ)
    → Distinct g.entries
    → key ≢ k
    → now ≤ t
    → blocked (fail g key now).0 k t ≡ blocked g k t
unfolding fail
blocked-fail_other g key k now t d n h = elim (Option-cases (lookup key g.entries)) [
  | inl e ↦
      rw (e, fail)
        (ground (
          arith,
          n,
          text_eq_iff key k,
          blocked_lem g k t,
          blocked_lem (record_failure (make_room g now) key now no_failures).0 k t,
          lookup-record_failure (make_room g now) key k now no_failures,
          blocked-make_room g now k t d h,
          blocked_lem (make_room g now) k t,
        ))
  | inr (x, e) ↦
      rw (e, fail)
        (ground (
          arith,
          n,
          text_eq_iff key k,
          blocked_lem g k t,
          blocked_lem (record_failure g key now x).0 k t,
          lookup-record_failure g key k now x,
        ))
]

make_room-Distinct :
    (g : FailureGuard) (now : ℕ) → Distinct g.entries → Distinct (make_room g now).entries
unfolding make_room prune
make_room-Distinct g now d = elim (Bool-cases (leb max_entries (length g.entries))) [
  | inl full ↦ rw full (filter_values-Distinct _ g.entries d)
  | inr room ↦ rw room d
]

-- No operation of the guard gives a key two entries.
pub fail-Distinct :
    (g : FailureGuard) (key : Text) (now : ℕ)
    → Distinct g.entries
    → Distinct (fail g key now).0.entries
unfolding fail record_failure
fail-Distinct g key now d = elim (Option-cases (lookup key g.entries)) [
  | inl e ↦
      rw (e, fail) (insert-Distinct key _ (make_room g now).entries (make_room-Distinct g now d))
  | inr (x, e) ↦ rw (e, fail) (insert-Distinct key _ g.entries d)
]
