-- ===== src/Quota.antt =====
-- The Manager of internal/quota/quota.go. What measuring a mailbox on the disk gives, none for an error,
-- and the clock, which does not run back, are arguments; sizes are not below 0.
pub mod Cached
mod Examples
use verta.Common.{
  ℕ, ◌+◌, ◌-◌, ◌≤◌, ◌<◌, ◌≡◌, refl, sym, ap, ◌∙◌, Text, Dict, lookup, insert, lookup-insert,
  text_eq, text_eq_refl, Bool, true, if◌then◌else◌, ltb, List, [], ◌∷◌, Option, none, some, arith,
  lt→ltb, Option-cases, Bool-cases, inl, inr, text_eq_iff,
}

pub record Entry : Type 0 where
  pub bytes : ℕ
  pub at_time : ℕ

pub record Manager : Type 0 where
  pub ttl : ℕ
  pub cache : Dict Entry

unfoldable pub new_manager : ℕ → Manager
new_manager ttl = record { ttl = ttl; cache = [] }

abbrev pub bytes_or_zero : Option Entry → ℕ
bytes_or_zero none = 0
bytes_or_zero (some e) = e.bytes

-- A measurement, which keeps the value that it has on an error.
unfoldable pub measure : Manager → Text → ℕ → Option ℕ → Manager × ℕ
unfolding lookup insert
measure m dir now none = (m, bytes_or_zero (lookup dir m.cache))
measure m dir now (some b) =
    (record m { cache = insert dir (record { bytes = b; at_time = now }) m.cache }, b)

unfoldable pub get : Manager → Text → ℕ → Option ℕ → Manager × ℕ
unfolding measure
get m dir now measured = elim (lookup dir m.cache) [
  | none ↦ measure m dir now measured
  | some e ↦ if ltb (now - e.at_time) m.ttl then (m, e.bytes) else measure m dir now measured
]

unfoldable pub add : Manager → Text → ℕ → Manager
unfolding lookup insert
add m dir delta = elim (lookup dir m.cache) [
  | none ↦ m
  | some e ↦ record m { cache = insert dir (record e { bytes = e.bytes + delta }) m.cache }
]
