-- ===== src/Auth/Lasting.antt =====
-- A lockout lasts, whatever other logins come in the meantime.
use verta.Common.{
  ℕ, ◌+◌, ◌*◌, ◌≤◌, ◌<◌, ◌≡◌, ◌≢◌, sym, ap, ◌∙◌, subst, Text, Distinct, lookup, Bool, true, List,
  [], ◌∷◌, All, Option, none, some, arith, text_eq, text_eq_iff, Bool-cases, inl, inr,
  delete-Distinct,
}
use verta.Auth.{
  FailureGuard, GuardEntry, Verdict, invalid, locked, Readings, blocked, fail, success, verify,
  user_key, ip_key,
}
use verta.Auth.Guard.{blocked_lem, lock_of, blocked-fail_other, fail-Distinct}
use verta.Auth.Verify.{
  blocked-success, user_key-ne-ip_key, locked_by_bump, locked_verdict, refused_run,
}

-- Who is locked out at a time is locked out before it.
blocked_before :
    (g : FailureGuard) (k : Text) (t u : ℕ) → t ≤ u → blocked g k u ≡ true → blocked g k t ≡ true
blocked_before g k t u h b =
    blocked_lem g k t ∙ earlier (lookup k g.entries) (sym (blocked_lem g k u) ∙ b)
  where
    earlier : (o : Option GuardEntry) → lock_of o u ≡ true → lock_of o t ≡ true
    earlier none e = e
    earlier (some x) e = ground (arith, h, e)

-- One login: the account, the password, the address, and when the clock is read.
pub record Attempt : Type 0 where
  pub email : Text
  pub password : Text
  pub ip : Text
  pub times : Readings

-- The clock is never read after that time.
abbrev pub IsBy : ℕ → Attempt → Type 0
IsBy u a = (a.times.user_check ≤ u) × (a.times.user_fail ≤ u) × (a.times.ip_fail ≤ u)

-- The guard has one entry for each key, and this one is locked out at the time.
abbrev IsShut : Text → ℕ → FailureGuard → Type 0
IsShut k u g = Distinct g.entries × (blocked g k u ≡ true)

fail_other-IsShut :
    (g : FailureGuard) (key k : Text) (now u : ℕ)
    → key ≢ k
    → now ≤ u
    → IsShut k u g
    → IsShut k u (fail g key now).0
fail_other-IsShut g key k now u n h (d, b) =
    (fail-Distinct g key now d, blocked-fail_other g key k now u d n h ∙ b)

success_other-IsShut :
    (g : FailureGuard) (key k : Text) (u : ℕ) → key ≢ k → IsShut k u g → IsShut k u (success g key)
unfolding success
success_other-IsShut g key k u n (d, b) = (
  delete-Distinct key g.entries d,
  ground (arith, blocked-success g key k u, text_eq_iff key k, n, b),
)

module _ (lookup_hash : Text → Option Text) (verify_password : Text → Text → Bool)
    (dummy_hash : Text) where
  abbrev pub after_login : FailureGuard → Attempt → FailureGuard
  after_login g a =
      (verify lookup_hash verify_password dummy_hash g a.email a.password a.ip a.times).0

  -- The guard after logins that come one after the other.
  abbrev pub after_logins : FailureGuard → List Attempt → FailureGuard
  after_logins g [] = g
  after_logins g (a ∷ logins) = after_logins (after_login g a) logins

  abbrev pub verdict_of : FailureGuard → Attempt → Verdict
  verdict_of g a =
      (verify lookup_hash verify_password dummy_hash g a.email a.password a.ip a.times).1

  locked_run :
      (g : FailureGuard) (a : Attempt)
      → blocked g (user_key a.email) a.times.user_check ≡ true
      → after_login g a ≡ g
  unfolding verify
  locked_run g a h = ground (arith, h)

  open_run :
      (g : FailureGuard) (a : Attempt) (k : Text) (u : ℕ)
      → k ≢ user_key a.email
      → k ≢ ip_key a.ip
      → IsBy u a
      → IsShut k u g
      → IsShut k u (after_login g a)
  unfolding verify
  open_run g a k u x y by shut = ground (
    arith,
    shut,
    fail_other-IsShut (fail g (user_key a.email) a.times.user_fail).0 (ip_key a.ip) k
        a.times.ip_fail u (λ e. y (sym e)) by.2
        (fail_other-IsShut g (user_key a.email) k a.times.user_fail u (λ e. x (sym e)) by.1 shut),
    success_other-IsShut (success g (user_key a.email)) (ip_key a.ip) k u (λ e. y (sym e))
        (success_other-IsShut g (user_key a.email) k u (λ e. x (sym e)) shut),
  )

  login-IsShut :
      (g : FailureGuard) (a : Attempt) (email : Text) (u : ℕ)
      → IsBy u a
      → IsShut (user_key email) u g
      → IsShut (user_key email) u (after_login g a)
  login-IsShut g a email u by shut =
      elim (Bool-cases (text_eq (user_key email) (user_key a.email))) [
        | inl same ↦
            let e : user_key email ≡ user_key a.email = (text_eq_iff _ _).0 same in
            let now : blocked g (user_key a.email) a.times.user_check ≡ true =
              ap (λ k. blocked g k a.times.user_check) (sym e)
              ∙ blocked_before g (user_key email) a.times.user_check u by.0 shut.1 in
            subst (IsShut (user_key email) u) (sym (locked_run g a now)) shut
        | inr other ↦
            open_run g a (user_key email) u
              (λ (e : user_key email ≡ user_key a.email).
                absurd (cc ((text_eq_iff (user_key email) (user_key a.email)).1 e, other)))
              (user_key-ne-ip_key email a.ip) by shut
      ]

  logins-IsShut :
      (g : FailureGuard) (logins : List Attempt) (email : Text) (u : ℕ)
      → All (IsBy u) logins
      → IsShut (user_key email) u g
      → IsShut (user_key email) u (after_logins g logins)
  logins-IsShut g [] email u by shut = shut
  logins-IsShut g (a ∷ logins) email u by shut =
      logins-IsShut (after_login g a) logins email u by.1 (login-IsShut g a email u by.0 shut)

  refused-IsShut :
      (g : FailureGuard) (a : Attempt) (e : GuardEntry) (u : ℕ)
      → Distinct g.entries
      → lookup (user_key a.email) g.entries ≡ some e
      → verdict_of g a ≡ invalid
      → a.times.user_fail ≤ e.last + 2 * g.lockout
      → g.max_failures ≤ e.fails + 1
      → a.times.ip_fail ≤ u
      → u < a.times.user_fail + g.lockout
      → IsShut (user_key a.email) u (after_login g a)
  refused-IsShut g a e u d found refused recent many later soon =
      subst (IsShut (user_key a.email) u)
        (sym (
          refused_run lookup_hash verify_password dummy_hash g a.email a.password a.ip a.times
            refused))
        (fail_other-IsShut (fail g (user_key a.email) a.times.user_fail).0 (ip_key a.ip)
          (user_key a.email) a.times.ip_fail u (λ p. user_key-ne-ip_key a.email a.ip (sym p)) later
          (
            fail-Distinct g (user_key a.email) a.times.user_fail d,
            locked_by_bump g (user_key a.email) a.times.user_fail u e found recent many soon,
          ))

  -- Let a login be refused by a guard with one entry for each key, and its account have, on
  -- record and recent enough, one failure less than `max_failures` or more. Let any logins come
  -- after it, for any accounts and from anywhere, one after the other. A login for that account
  -- that comes after them, and before one lockout has passed since the refusal, is answered
  -- `locked`, from any address and with any password.
  pub refused_locks_out :
      (g : FailureGuard) (refused : Attempt) (e : GuardEntry) (logins : List Attempt) (a : Attempt)
      → Distinct g.entries
      → lookup (user_key refused.email) g.entries ≡ some e
      → verdict_of g refused ≡ invalid
      → refused.times.user_fail ≤ e.last + 2 * g.lockout
      → g.max_failures ≤ e.fails + 1
      → user_key a.email ≡ user_key refused.email
      → refused.times.ip_fail ≤ a.times.user_check
      → All (IsBy a.times.user_check) logins
      → a.times.user_check < refused.times.user_fail + g.lockout
      → verdict_of (after_logins (after_login g refused) logins) a ≡ locked
  refused_locks_out g refused e logins a d found fails recent many same later by soon =
      let shut =
        logins-IsShut (after_login g refused) logins refused.email a.times.user_check by
          (refused-IsShut g refused e a.times.user_check d found fails recent many later soon) in
      locked_verdict lookup_hash verify_password dummy_hash
        (after_logins (after_login g refused) logins) a.email a.password a.ip a.times
        (ap (λ k. blocked (after_logins (after_login g refused) logins) k a.times.user_check) same
          ∙ shut.1)
