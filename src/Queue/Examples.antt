-- ===== src/Queue/Examples.antt =====
-- Runs of the queue, and its theorems at concrete envelopes and replies.
use verta.Common.{
  Text, ◌≤◌, Sorted, ◌≤◌, Sorted, text_eq, sort_by, ◌+◌, ℕ, ◌≡◌, ◌⊎◌, ◌↔◌, refl, codes, true, false,
  List, [], ◌∷◌, ◌++◌, Option, none, some, All, arith,
}
use verta.Queue.Store.{earliest_from, due_of, load, Envelope, due, earliest}
use verta.Queue.Scheduler.{backoff, permanent, transient, State, World, minute}
use verta.Queue.Transport.{other, Dialogue, deliver, Mx}
use verta.Queue.Attempts.{passes, holds, has_bounced, has_sent, passes_keep}
use verta.Queue.Delivering.{AnsweredBy, deliver_iff}
use verta.Queue.Hosts.{InOrder}
use verta.Queue.Exhaustion.{exhausted_lem, IsGivenUp, passes_at, alone}
use verta.Queue.Order.{due_lem, held_of}
use mathlib.Core.List.{Perm}

abbrev letter : ℕ → ℕ → Envelope
letter n t = record {
  id = n ∷ [];
  sender = codes "bob@here";
  rcpt = codes "al@there";
  domain = codes "there";
  attempts = 0;
  next_attempt = t;
  created = n;
  last_error = [];
  content = codes "hi";
}

abbrev queue : State
queue = record {
  files = letter 2 20 ∷ letter 1 10 ∷ letter 3 90 ∷ [];
  counters = record { delivered_count = 0; bounced_count = 0; deferred_count = 0 };
  sent = [];
  bounces = [];
}

-- Every server is away.
abbrev away : World
away = record {
  reserve = λ e. none;
  deliver = λ e. transient (codes "away");
  write_ok = λ e. true;
  remove_ok = λ e. true;
}

oldest_first : due queue.files 50 ≡ letter 1 10 ∷ letter 2 20 ∷ []
unfolding due load due_of sort_by
oldest_first = refl

wakes_for_third : earliest queue.files 50 ≡ some 90
unfolding earliest earliest_from load sort_by
wakes_for_third = refl

abbrev two_passes : List (World × ℕ)
two_passes = (away, 50) ∷ (away, 50 + minute) ∷ []

passes_keep_example :
    (holds (2 ∷ []) (passes 2 two_passes queue) ≡ true)
    ⊎ (has_sent (2 ∷ []) (passes 2 two_passes queue) ≡ true)
    ⊎ (has_bounced (2 ∷ []) (passes 2 two_passes queue) ≡ true)
unfolding text_eq
passes_keep_example = passes_keep (2 ∷ []) 2 two_passes queue refl

abbrev records : Option (List Mx)
records = some (
    record { host = codes "mx2.there."; pref = 20 }
    ∷ record { host = codes "mx1.there."; pref = 10 }
    ∷ [])

deliver_iff_example :
    (hosts : List Text) × InOrder records (codes "there") hosts
    × ((deliver (λ h. permanent 550 []) records (codes "there") ≡ permanent 550 [])
        ↔ AnsweredBy (λ h. permanent 550 []) hosts (permanent 550 []))
deliver_iff_example =
    deliver_iff (λ h. permanent 550 []) records (codes "there") (permanent 550 []) (λ (text, e). cc)

-- The message was accepted, and the connection broke before the answer to QUIT.
abbrev lost_quit : Dialogue
lost_quit = record {
  dial = none;
  greeting = none;
  hello = none;
  offers_starttls = false;
  starttls = none;
  mail = none;
  rcpt = none;
  data_cmd = none;
  body = none;
  end_of_data = none;
  quit = some (other (codes "EOF"));
}

due_lem_example :
    Sorted (λ e. e.created) (due queue.files 50)
    × All (λ e. e.next_attempt ≤ 50) (due queue.files 50)
    × Perm (due queue.files 50 ++ held_of 50 (load queue.files)) queue.files
due_lem_example = due_lem queue.files 50

-- Two attempts, the second a minute after the first.
exhausted_lem_example :
    IsGivenUp
      (letter 1 10)
      2
      (codes "away")
      queue
      (passes 2 (passes_at (codes "away") (10 ∷ (10 + minute) ∷ [])) (alone (letter 1 10) queue))
unfolding backoff
exhausted_lem_example =
    exhausted_lem 2 (codes "away") (letter 1 10) 10 ((10 + minute) ∷ []) queue refl
      (omega arith, (omega arith, tt))
