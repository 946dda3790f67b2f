-- ===== src/Auth/Verify.antt =====
-- What a verdict of the authenticator means, for any password check and any stored hashes.
use verta.Common.{
  ap, [], ◌∷◌, ℕ, ◌+◌, ◌*◌, ◌≤◌, ◌<◌, ◌≡◌, ◌≢◌, Text, lookup, Bool, true, false, some, Option,
  arith, if◌then◌else◌, text_eq, text_eq_refl, lookup-delete, to_lower, trim_space,
}
use verta.Auth.{
  FailureGuard, GuardEntry, accepted, invalid, locked, Readings, blocked, bump, fail, success,
  verify, credentials_fail, user_key, ip_key, fails_after,
}
use verta.Auth.Guard.{blocked_lem, lookup-fail_self}

pub blocked-success :
    (g : FailureGuard) (key k : Text) (u : ℕ)
    → blocked (success g key) k u ≡ (if text_eq key k then false else blocked g k u)
unfolding success
blocked-success g key k u =
    ground
      (arith, blocked_lem (success g key) k u, blocked_lem g k u, lookup-delete key k g.entries)

abbrev pub first_byte : Text → ℕ
first_byte [] = 0
first_byte (c ∷ s) = c

pub user_key-ne-ip_key : (email ip : Text) → user_key email ≢ ip_key ip
user_key-ne-ip_key email ip e = absurd (omega (arith, ap first_byte e))

pub locked_by_bump :
    (g : FailureGuard) (key : Text) (now u : ℕ) (e : GuardEntry)
    → lookup key g.entries ≡ some e
    → now ≤ e.last + 2 * g.lockout
    → g.max_failures ≤ e.fails + 1
    → u < now + g.lockout
    → blocked (fail g key now).0 key u ≡ true
unfolding bump fails_after
locked_by_bump g key now u e found recent many soon =
    rw (blocked_lem, lookup-fail_self, found) (ground arith)

module _ (lookup_hash : Text → Option Text) (verify_password : Text → Text → Bool)
    (dummy_hash : Text) where
  known_password :
      (email password : Text)
      → credentials_fail lookup_hash verify_password dummy_hash email password ≡ false
      → (hash : Text) × (lookup_hash email ≡ some hash) × (verify_password hash password ≡ true)
  unfolding credentials_fail
  known_password email password h = ground arith

  pub accepted_run :
      (g : FailureGuard) (email password ip : Text) (t : Readings)
      → (verify lookup_hash verify_password dummy_hash g email password ip t).1 ≡ accepted
      → (blocked g (user_key email) t.user_check ≡ false)
        × (blocked g (ip_key ip) t.ip_check ≡ false)
        × (credentials_fail lookup_hash verify_password dummy_hash
              (to_lower (trim_space email))
              password
            ≡ false)
        × ((verify lookup_hash verify_password dummy_hash g email password ip t).0
            ≡ success (success g (user_key email)) (ip_key ip))
  unfolding verify
  accepted_run g email password ip t h = ground arith

  pub locked_verdict :
      (g : FailureGuard) (email password ip : Text) (t : Readings)
      → blocked g (user_key email) t.user_check ≡ true
      → (verify lookup_hash verify_password dummy_hash g email password ip t).1 ≡ locked
  unfolding verify
  locked_verdict g email password ip t h = rw h

  -- If a login is accepted, neither its account nor its address was locked out, the account is
  -- known and the password fits its stored hash; and after it neither is locked out at any time.
  pub verify_accepted :
      (g : FailureGuard) (email password ip : Text) (t : Readings) (u : ℕ)
      → (verify lookup_hash verify_password dummy_hash g email password ip t).1 ≡ accepted
      → (blocked g (user_key email) t.user_check ≡ false)
        × (blocked g (ip_key ip) t.ip_check ≡ false)
        × ((hash : Text) × (lookup_hash (to_lower (trim_space email)) ≡ some hash)
            × (verify_password hash password ≡ true))
        × (blocked
              (verify lookup_hash verify_password dummy_hash g email password ip t).0
              (user_key email)
              u
            ≡ false)
        × (blocked
              (verify lookup_hash verify_password dummy_hash g email password ip t).0
              (ip_key ip)
              u
            ≡ false)
  unfolding verify
  verify_accepted g email password ip t u h =
      let (free_user, free_ip, fits, after) = accepted_run g email password ip t h in
      (
        free_user,
        free_ip,
        known_password (to_lower (trim_space email)) password fits,
        rw after (
            ground (
              arith,
              blocked-success (success g (user_key email)) (ip_key ip) (user_key email) u,
              blocked-success g (user_key email) (user_key email) u,
              text_eq_refl (user_key email),
            )),
        rw after (
            ground (
              arith,
              blocked-success (success g (user_key email)) (ip_key ip) (ip_key ip) u,
              text_eq_refl (ip_key ip),
            )),
      )

  pub refused_run :
      (g : FailureGuard) (email password ip : Text) (t : Readings)
      → (verify lookup_hash verify_password dummy_hash g email password ip t).1 ≡ invalid
      → (verify lookup_hash verify_password dummy_hash g email password ip t).0
        ≡ (fail (fail g (user_key email) t.user_fail).0 (ip_key ip) t.ip_fail).0
  unfolding verify
  refused_run g email password ip t h = ground arith
