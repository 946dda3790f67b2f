-- ===== src/Auth/Examples.antt =====
-- Runs of the guard and the authenticator, and their theorems at a concrete account.
use verta.Common.{
  List, map, ◌&&◌, ℕ, ◌*◌, ◌≡◌, refl, Text, codes, [], ◌∷◌, Bool, true, false, Option, none, some,
  lookup, text_eq, if◌then◌else◌, to_lower, trim_space, arith,
}
use verta.Auth.{
  credentials_fail, shift, FailureGuard, locked, Readings, blocked, verify, user_key, ip_key, delay,
  millisecond,
}
use verta.Auth.Lockout.{fail_all, lockout_exact}
use verta.Auth.Verify.{verify_accepted}
use verta.Auth.Lasting.{Attempt, after_login, after_logins, verdict_of, refused_locks_out}

abbrev alice : Text
alice = codes "alice@example.com"

abbrev address : Text
address = codes "192.0.2.7"

abbrev hashes : Text → Option Text
hashes email = if text_eq email alice then some (codes "hash") else none

abbrev fits : Text → Text → Bool
fits hash password = text_eq hash (codes "hash") && text_eq password (codes "secret")

abbrev minutes : ℕ → ℕ
minutes n = n * 60000000000

abbrev fresh : FailureGuard
fresh = record { max_failures = 2; lockout = minutes 15; entries = [] }

abbrev at_minute : ℕ → Readings
at_minute n = record {
  user_check = minutes n;
  ip_check = minutes n;
  user_fail = minutes n;
  ip_fail = minutes n;
}

-- One failed login at minute 100.
abbrev once_failed : FailureGuard
once_failed = record fresh {
  entries = (user_key alice, record { fails = 1; locked_until = 0; last = minutes 100 }) ∷ [];
}

delays_double :
    map delay (1 ∷ 2 ∷ 3 ∷ 4 ∷ 5 ∷ 6 ∷ [])
    ≡ map (λ n. n * millisecond) (250 ∷ 500 ∷ 1000 ∷ 2000 ∷ 4000 ∷ 4000 ∷ [])
unfolding delay shift
delays_double = refl

lockout_exact_example :
    blocked
      (fail_all fresh (user_key alice) (minutes 100 ∷ minutes 101 ∷ []))
      (user_key alice)
      (minutes 110)
    ≡ true
unfolding lookup
lockout_exact_example =
    lockout_exact fresh (user_key alice) (minutes 100) (minutes 101 ∷ []) (minutes 110) refl
      (omega arith)

verify_accepted_example :
    (blocked once_failed (user_key alice) (minutes 101) ≡ false)
    × (blocked once_failed (ip_key address) (minutes 101) ≡ false)
    × ((hash : Text) × (hashes (to_lower (trim_space alice)) ≡ some hash)
        × (fits hash (codes "secret") ≡ true))
    × (blocked
          (verify hashes fits
            (codes "dummy")
            once_failed
            alice
            (codes "secret")
            address
            (at_minute 101)).0
          (user_key alice)
          (minutes 102)
        ≡ false)
    × (blocked
          (verify hashes fits
            (codes "dummy")
            once_failed
            alice
            (codes "secret")
            address
            (at_minute 101)).0
          (ip_key address)
          (minutes 102)
        ≡ false)
unfolding verify blocked lookup text_eq to_lower trim_space credentials_fail
verify_accepted_example =
    verify_accepted hashes fits (codes "dummy") once_failed alice (codes "secret") address
      (at_minute 101) (minutes 102) refl

abbrev guess : Attempt
guess = record { email = alice; password = codes "guess"; ip = address; times = at_minute 101 }

-- Two logins of others, one of them from the same address and with an account that is known to nobody.
abbrev others : List Attempt
others =
    record {
      email = codes "bob@example.com";
      password = codes "x";
      ip = address;
      times = at_minute 102;
    }
    ∷ record {
      email = codes "carol";
      password = codes "y";
      ip = codes "192.0.2.9";
      times = at_minute 103;
    }
    ∷ []

abbrev right_password : Attempt
right_password = record {
  email = codes " Alice@Example.com";
  password = codes "secret";
  ip = codes "198.51.100.1";
  times = at_minute 104;
}

refused_locks_out_example :
    verdict_of hashes fits
      (codes "dummy")
      (after_logins hashes fits
        (codes "dummy")
        (after_login hashes fits (codes "dummy") once_failed guess)
        others)
      right_password
    ≡ locked
unfolding verify lookup text_eq to_lower trim_space blocked credentials_fail
refused_locks_out_example =
    refused_locks_out hashes fits (codes "dummy") once_failed guess
      (record { fails = 1; locked_until = 0; last = minutes 100 }) others right_password (refl, tt)
      refl refl (omega arith) (omega arith) refl (omega arith)
      ((omega arith, omega arith, omega arith), ((omega arith, omega arith, omega arith), tt))
      (omega arith)
