-- ===== src/Ratelimit/Examples.antt =====
-- Runs of the limiter, and its theorems at a concrete limiter: two calls a minute.
use verta.Common.{
  insert, lookup, text_eq, ℕ, ◌*◌, ◌+◌, ◌≤◌, ◌≡◌, refl, Text, codes, List, [], ◌∷◌, some, arith,
}
use verta.Ratelimit.{refill, make_room, take_token, Limiter, allow, new_limiter, minute}
use verta.Ratelimit.Accounting.{IsCurrent}
use verta.Ratelimit.Governor.{Keyed, count, allow_keyed}
use verta.Ratelimit.Governor.Keys.{admitted_keyed, admitted_keyed_rate}
use verta.Ratelimit.Rate.{admitted_rate, admitted}

abbrev client : Text
client = codes "192.0.2.1"

abbrev calls : List (Text × ℕ)
calls = (client, 1) ∷ (codes "192.0.2.9", 2) ∷ (client, 3) ∷ (client, 4) ∷ []

third_call_refused : admitted client (new_limiter 2 minute) calls ≡ 2
unfolding new_limiter allow text_eq lookup take_token make_room insert refill
third_call_refused = refl

admitted_rate_example : admitted client (new_limiter 2 minute) calls * minute ≤ 2 * (minute + 3)
admitted_rate_example = admitted_rate client 2 minute 1 calls (omega arith)

-- One used token a second after time 1.
abbrev used : Limiter
used = record {
  limit = 2;
  window = minute;
  buckets = (client, record { tokens = minute; last = 1 }) ∷ [];
}

used-IsCurrent : IsCurrent used 1
unfolding lookup
used-IsCurrent = record { keys = (refl, tt); touched = (omega arith, tt) }

-- Two messages a minute for anybody, one for the client.
abbrev keyed : Keyed
keyed = record { generic = some (new_limiter 2 minute); over = (client, new_limiter 1 minute) ∷ [] }

second_call_refused : admitted_keyed client (some keyed) calls ≡ 1
unfolding allow_keyed count new_limiter allow text_eq lookup take_token make_room insert refill
second_call_refused = refl

admitted_keyed_rate_example : admitted_keyed client (some keyed) calls * minute ≤ 1 * (minute + 3)
unfolding text_eq
admitted_keyed_rate_example =
    admitted_keyed_rate client keyed 1 minute 1 calls (unfold lookup in refl)
      (unfold text_eq in refl) (omega arith)
