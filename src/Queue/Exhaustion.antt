-- ===== src/Queue/Exhaustion.antt =====
-- A message that can never be delivered does not stay in the queue.
use verta.Common.{
  ◌∙◌, sort_by, insert_by, length, ap, subst, sym, ℕ, ◌+◌, ◌≤◌, ◌<◌, ◌≡◌, refl, Text, text_eq_refl,
  true, false, List, [], ◌∷◌, none, leb, le→leb, arith,
}
use verta.Queue.Store.{Envelope, remove, update, load, due_of, due}
use verta.Queue.Scheduler.{
  transient, giving_up, State, World, backoff, drop_file, write_file, retry, dispose, attempt,
  attempt_all, process, send_bounce, count_bounced, count_deferred,
}
use verta.Queue.Attempts.{passes}

-- No pacing, no server that answers, and a disk that works.
abbrev pub hopeless : Text → World
hopeless text = record {
  reserve = λ e. none;
  deliver = λ e. transient text;
  write_ok = λ e. true;
  remove_ok = λ e. true;
}

-- One pass for each attempt, each when the envelope is due.
abbrev pub Prompt : ℕ → ℕ → List ℕ → Type 0
Prompt attempts next [] = Unit
Prompt attempts next (now ∷ times) =
    (next ≤ now) × Prompt (attempts + 1) (now + backoff (attempts + 1)) times

abbrev pub passes_at : Text → List ℕ → List (World × ℕ)
passes_at text [] = []
passes_at text (now ∷ times) = (hopeless text, now) ∷ passes_at text times

abbrev pub alone : Envelope → State → State
alone e s = record s { files = e ∷ [] }

-- The envelope after a failed attempt that is not the last.
abbrev later : Text → ℕ → Envelope → Envelope
later text now e = record e {
  attempts = e.attempts + 1;
  last_error = text;
  next_attempt = now + backoff (e.attempts + 1);
}

due_alone : (e : Envelope) (now : ℕ) → e.next_attempt ≤ now → due (e ∷ []) now ≡ e ∷ []
unfolding due load due_of sort_by insert_by
due_alone e now h = ground arith

lt→leb_false : (a b : ℕ) → a < b → leb b a ≡ false
lt→leb_false a b h = ground arith

last_attempt :
    (m : ℕ) (text : Text) (e : Envelope) (now : ℕ) (s : State)
    → e.next_attempt ≤ now
    → m ≤ e.attempts + 1
    → ((process (hopeless text) m now (alone e s)).files ≡ [])
      × ((process (hopeless text) m now (alone e s)).bounces
          ≡ (
            record e { attempts = e.attempts + 1; last_error = text },
            giving_up (e.attempts + 1) text,
          )
            ∷ s.bounces)
unfolding process attempt_all attempt dispose retry drop_file send_bounce count_bounced remove
last_attempt m text e now s d h =
    rw (due_alone e now d, le→leb m (e.attempts + 1) h, text_eq_refl e.id) (refl, refl)

one_attempt :
    (m : ℕ) (text : Text) (e : Envelope) (now : ℕ) (s : State)
    → e.next_attempt ≤ now
    → e.attempts + 1 < m
    → process (hopeless text) m now (alone e s) ≡ alone (later text now e) (count_deferred s)
unfolding process attempt_all attempt dispose retry write_file count_deferred update
one_attempt m text e now s d h =
    rw (due_alone e now d, lt→leb_false (e.attempts + 1) m h, text_eq_refl e.id)

-- The bounce of a message after its last attempt.
abbrev pub IsGivenUp : Envelope → ℕ → Text → State → State → Type 0
IsGivenUp e m text s t =
    (t.files ≡ [])
    × ((b : Envelope) × (b.id ≡ e.id)
        × (b.sender ≡ e.sender)
        × (b.rcpt ≡ e.rcpt)
        × (b.content ≡ e.content)
        × (t.bounces ≡ (b, giving_up m text) ∷ s.bounces))

bounce_count :
    (e : Envelope) (now m : ℕ) (text : Text) (s : State)
    → e.attempts + 1 ≡ m
    → (process (hopeless text) m now (alone e s)).bounces
      ≡ (record e { attempts = e.attempts + 1; last_error = text }, giving_up (e.attempts + 1) text)
        ∷ s.bounces
    → (process (hopeless text) m now (alone e s)).bounces
      ≡ (record e { attempts = e.attempts + 1; last_error = text }, giving_up m text) ∷ s.bounces
bounce_count e now m text s c h =
    h
    ∙ ap
        (λ n.
          (record e { attempts = e.attempts + 1; last_error = text }, giving_up n text) ∷ s.bounces)
        c

-- Let an envelope be alone in the queue, with at least one attempt left, and every attempt fail
-- with the same transient error while nothing is held back and the disk works. After as many
-- passes as it has attempts left, each when the envelope is due, the queue is empty, and one
-- bounce that gives up on the message has been added.
pub exhausted_lem :
    (max_attempts : ℕ) (text : Text) (e : Envelope) (now : ℕ) (times : List ℕ) (s : State)
    → e.attempts + (1 + length times) ≡ max_attempts
    → Prompt e.attempts e.next_attempt (now ∷ times)
    → IsGivenUp e max_attempts text s
        (passes max_attempts (passes_at text (now ∷ times)) (alone e s))
unfolding count_deferred
exhausted_lem m text e now [] s count d =
    let (gone, bounced) = last_attempt m text e now s d.0 (omega (arith, count)) in
    (
      gone,
      (
        record e { attempts = e.attempts + 1; last_error = text },
        refl,
        refl,
        refl,
        refl,
        bounce_count e now m text s (omega (arith, count)) bounced,
      ),
    )
exhausted_lem m text e now (next ∷ times) s count d =
    subst (λ t. IsGivenUp e m text s (passes m (passes_at text (next ∷ times)) t))
      (sym (one_attempt m text e now s d.0 (omega (arith, count))))
      (exhausted_lem m text (later text now e) next times (count_deferred s) (omega (arith, count))
        d.1)
