-- ===== src/Auth/Lockout.antt =====
-- When repeated failures of one key lock it out, and until when.
use verta.Common.{
  ◌∙◌, ap, ℕ, suc, ◌+◌, ◌*◌, ◌≤◌, ◌≡◌, Text, lookup, length, none, some, List, [], ◌∷◌, ltb, leb,
  ◌&&◌, arith, if◌then◌else◌,
}
use verta.Auth.{FailureGuard, GuardEntry, blocked, bump, fail, fails_after, no_failures}
use verta.Auth.Guard.{entry_or_new, lookup-fail_self, fail_same, blocked_lem}

-- The guard after a key fails at each of the times.
abbrev pub fail_all : FailureGuard → Text → List ℕ → FailureGuard
fail_all g key [] = g
fail_all g key (now ∷ times) = fail_all (fail g key now).0 key times

abbrev pub last_time : ℕ → List ℕ → ℕ
last_time t [] = t
last_time t (now ∷ times) = last_time now times

-- Each time is at most two lockouts after the one before.
abbrev pub Steady : ℕ → ℕ → List ℕ → Type 0
Steady lockout t [] = Unit
Steady lockout t (now ∷ times) = (t ≤ now) × (now ≤ t + 2 * lockout) × Steady lockout now times

-- An entry with `n` failures, the last at `t`: locked for one lockout from there, or not at all.
record Counts (max lockout n t : ℕ) (e : GuardEntry) : Type 0 where
  fails : e.fails ≡ n
  last : e.last ≡ t
  lock : e.locked_until ≡ (if leb max n then t + lockout else 0)

bump-Counts :
    (g : FailureGuard) (max lockout n t now : ℕ) (e : GuardEntry)
    → g.max_failures ≡ max
    → g.lockout ≡ lockout
    → t ≤ now
    → now ≤ t + 2 * lockout
    → Counts max lockout n t e
    → Counts max lockout (n + 1) now (bump g now e)
unfolding bump fails_after
bump-Counts g max lockout n t now e em el h k c = ground arith

blocked-fail_all :
    (g : FailureGuard) (key : Text) (max lockout n t : ℕ) (e : GuardEntry) (times : List ℕ) (u : ℕ)
    → g.max_failures ≡ max
    → g.lockout ≡ lockout
    → lookup key g.entries ≡ some e
    → Counts max lockout n t e
    → Steady lockout t times
    → blocked (fail_all g key times) key u
      ≡ (leb max (n + length times) && ltb u (last_time t times + lockout))
blocked-fail_all g key max lockout n t e [] u em el found c s =
    rw (blocked_lem, found) (ground arith)
blocked-fail_all g key max lockout n t e (now ∷ times) u em el found c s =
    let again : blocked (fail_all (fail g key now).0 key times) key u
        ≡ (leb max (n + 1 + length times) && ltb u (last_time now times + lockout)) =
      blocked-fail_all (fail g key now).0 key max lockout (n + 1) now (bump g now e) times u
        ((fail_same g key now).0 ∙ em) ((fail_same g key now).1 ∙ el)
        (lookup-fail_self g key now ∙ ap (λ o. some (bump g now (entry_or_new o))) found)
        (bump-Counts g max lockout n t now e em el s.0 s.1 c) s.2 in
    let count : n + suc (length times) ≡ n + 1 + length times = omega arith in rw count again

first-Counts :
    (g : FailureGuard) (now : ℕ) → Counts g.max_failures g.lockout 1 now (bump g now no_failures)
unfolding bump fails_after
first-Counts g now = ground arith

-- Let a key have no failures on record, and then one failure or more, none more than two lockouts
-- after the one before. It is locked out exactly if there were `max_failures` of them and one
-- lockout since the last has not passed.
pub lockout_exact :
    (g : FailureGuard) (key : Text) (first : ℕ) (times : List ℕ) (u : ℕ)
    → lookup key g.entries ≡ none
    → Steady g.lockout first times
    → blocked (fail_all g key (first ∷ times)) key u
      ≡ (leb g.max_failures (suc (length times)) && ltb u (last_time first times + g.lockout))
lockout_exact g key first times u unknown s = rw one (
    blocked-fail_all (fail g key first).0 key g.max_failures g.lockout 1 first
      (bump g first no_failures) times u (fail_same g key first).0 (fail_same g key first).1
      (lookup-fail_self g key first ∙ ap (λ o. some (bump g first (entry_or_new o))) unknown)
      (first-Counts g first) s)
  where
    one : suc (length times) ≡ 1 + length times
    one = omega arith
