-- ===== src/Queue/Scheduler.antt =====
-- internal/queue/scheduler.go: what the scheduler does with an envelope. The egress choice, the
-- throttle's answer, the transport's answer and the results of the file writes are arguments; the
-- counters are wired, and logging is left out.
use verta.Common.{
  ℕ, ◌+◌, ◌-◌, ◌*◌, ◌^◌, Text, Bool, if◌then◌else◌, List, [], ◌∷◌, Option, none, some, ltb, leb,
}
use verta.Queue.Store.{Envelope, remove, update, due}

-- What a transport returns: nil, a *PermanentError, or another error.
pub data Outcome : Type 0 where
  delivered : Outcome
  permanent : ℕ → Text → Outcome
  transient : Text → Outcome

-- A reason that a bounce states.
pub data Reason : Type 0 where
  refused : ℕ → Text → Reason
  giving_up : ℕ → Text → Reason

pub record Counters : Type 0 where
  pub delivered_count : ℕ
  pub bounced_count : ℕ
  pub deferred_count : ℕ

-- The queue directory, the counters, and the messages delivered and the bounces sent, newest first.
pub record State : Type 0 where
  pub files : List Envelope
  pub counters : Counters
  pub sent : List Envelope
  pub bounces : List (Envelope × Reason)

-- What surrounds the scheduler: the wait that the throttle asks for, if it holds an envelope; the
-- answer of the transport; whether an envelope is written, and whether its file is removed.
pub record World : Type 0 where
  pub reserve : Envelope → Option ℕ
  pub deliver : Envelope → Outcome
  pub write_ok : Envelope → Bool
  pub remove_ok : Envelope → Bool

abbrev pub minute : ℕ
minute = 60000000000

abbrev pub four_hours : ℕ
four_hours = 240 * minute

-- `time.Minute << (attempts - 1)`, for an attempt count from 1 on.
unfoldable pub backoff : ℕ → ℕ
backoff attempts =
    let n = if ltb 9 attempts then 9 else attempts in
    let d = minute * 2 ^ (n - 1) in if ltb four_hours d then four_hours else d

unfoldable pub drop_file : World → Envelope → State → State
drop_file w e s = if w.remove_ok e then record s { files = remove e.id s.files } else s

unfoldable pub write_file : World → Envelope → State → State
write_file w e s = record s { files = update (w.write_ok e) e s.files }

unfoldable pub count_delivered : State → State
count_delivered s = record s {
  counters = record s.counters { delivered_count = s.counters.delivered_count + 1 };
}

unfoldable pub count_bounced : State → State
count_bounced s = record s {
  counters = record s.counters { bounced_count = s.counters.bounced_count + 1 };
}

unfoldable pub count_deferred : State → State
count_deferred s = record s {
  counters = record s.counters { deferred_count = s.counters.deferred_count + 1 };
}

unfoldable pub record_sent : Envelope → State → State
record_sent e s = record s { sent = e ∷ s.sent }

-- The call of the bounce callback, which sends nothing to a null sender.
unfoldable pub send_bounce : Envelope → Reason → State → State
send_bounce e reason s = record s { bounces = (e, reason) ∷ s.bounces }

-- The end of a failed attempt: the envelope has its new attempt count.
unfoldable pub retry : World → ℕ → Envelope → ℕ → State → State
unfolding drop_file write_file count_bounced count_deferred send_bounce
retry w max_attempts e now s =
    if leb max_attempts e.attempts
    then drop_file w e (send_bounce e (giving_up e.attempts e.last_error) (count_bounced s))
    else let later = record e { next_attempt = now + backoff e.attempts } in
      count_deferred (write_file w later s)

unfoldable pub dispose : World → ℕ → Envelope → ℕ → State → Outcome → State
unfolding drop_file count_delivered record_sent count_bounced send_bounce retry
dispose w max_attempts e now s delivered = drop_file w e (record_sent e (count_delivered s))
dispose w max_attempts e now s (permanent code text) =
    drop_file w e (send_bounce e (refused code text) (count_bounced s))
dispose w max_attempts e now s (transient text) =
    retry w max_attempts (record e { attempts = e.attempts + 1; last_error = text }) now s

unfoldable pub attempt : World → ℕ → Envelope → ℕ → State → State
unfolding dispose write_file
attempt w max_attempts e now s = elim (w.reserve e) [
  | some wait ↦ write_file w (record e { next_attempt = now + wait }) s
  | none ↦ dispose w max_attempts e now s (w.deliver e)
]

unfoldable pub attempt_all : World → ℕ → List Envelope → ℕ → State → State
unfolding attempt
attempt_all w max_attempts [] now s = s
attempt_all w max_attempts (e ∷ es) now s =
    attempt_all w max_attempts es now (attempt w max_attempts e now s)

-- One pass over the queue.
unfoldable pub process : World → ℕ → ℕ → State → State
process w max_attempts now s = attempt_all w max_attempts (due s.files now) now s
