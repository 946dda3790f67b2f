-- ===== src/Queue/Limit.antt =====
-- No envelope in the queue has spent its attempts.
use verta.Common.{
  leb, ℕ, ◌+◌, ◌<◌, inl, inr, Text, Bool, List, [], ◌∷◌, All, arith, Bool-cases, Option-cases,
}
use verta.Queue.Store.{Envelope, remove, update, due}
use verta.Queue.Scheduler.{
  record_sent, count_delivered, count_bounced, refused, giving_up, count_delivered, send_bounce,
  count_deferred, Outcome, delivered, permanent, transient, State, World, backoff, drop_file,
  write_file, retry, dispose, attempt, attempt_all, process,
}
use verta.Queue.Order.{All-due}
use verta.Queue.Attempts.{passes}

below_max-remove :
    (m : ℕ) (id : Text) (files : List Envelope)
    → All (λ e. e.attempts < m) files
    → All (λ e. e.attempts < m) (remove id files)
unfolding remove
below_max-remove m id [] h = tt
below_max-remove m id (f ∷ files) h = ground (arith, below_max-remove m id files h.1)

below_max-update :
    (m : ℕ) (ok : Bool) (e : Envelope) (files : List Envelope)
    → e.attempts < m
    → All (λ f. f.attempts < m) files
    → All (λ f. f.attempts < m) (update ok e files)
unfolding update
below_max-update m ok e [] p h = tt
below_max-update m ok e (f ∷ files) p h = ground (arith, below_max-update m ok e files p h.1)

abbrev BelowMax : ℕ → State → Type 0
BelowMax m s = All (λ e. e.attempts < m) s.files

drop_file-BelowMax :
    (m : ℕ) (w : World) (e : Envelope) (s : State) → BelowMax m s → BelowMax m (drop_file w e s)
unfolding drop_file
drop_file-BelowMax m w e s h = ground (arith, below_max-remove m e.id s.files h)

retry-BelowMax :
    (m : ℕ) (w : World) (e : Envelope) (now : ℕ) (s : State)
    → BelowMax m s
    → BelowMax m (retry w m e now s)
unfolding retry send_bounce count_bounced write_file count_deferred
retry-BelowMax m w e now s h = elim (Bool-cases (leb m e.attempts)) [
  | inl spent ↦ rw spent (
      drop_file-BelowMax m w e (send_bounce e (giving_up e.attempts e.last_error) (count_bounced s))
        h)
  | inr left ↦ rw left (
      below_max-update m (w.write_ok (record e { next_attempt = now + backoff e.attempts }))
        (record e { next_attempt = now + backoff e.attempts }) s.files (ground arith) h)
]

dispose-BelowMax :
    (m : ℕ) (w : World) (e : Envelope) (now : ℕ) (s : State) (o : Outcome)
    → BelowMax m s
    → BelowMax m (dispose w m e now s o)
unfolding dispose send_bounce count_bounced count_delivered record_sent
dispose-BelowMax m w e now s delivered h =
    drop_file-BelowMax m w e (record_sent e (count_delivered s)) h
dispose-BelowMax m w e now s (permanent code text) h =
    drop_file-BelowMax m w e (send_bounce e (refused code text) (count_bounced s)) h
dispose-BelowMax m w e now s (transient text) h =
    retry-BelowMax m w (record e { attempts = e.attempts + 1; last_error = text }) now s h

attempt-BelowMax :
    (m : ℕ) (w : World) (e : Envelope) (now : ℕ) (s : State)
    → e.attempts < m
    → BelowMax m s
    → BelowMax m (attempt w m e now s)
unfolding write_file attempt
attempt-BelowMax m w e now s p h = elim (Option-cases (w.reserve e)) [
  | inl free ↦ rw (free, attempt) (dispose-BelowMax m w e now s (w.deliver e) h)
  | inr (wait, paced) ↦
      rw (paced, attempt)
        (below_max-update m (w.write_ok (record e { next_attempt = now + wait }))
          (record e { next_attempt = now + wait }) s.files p h)
]

attempt_all-BelowMax :
    (m : ℕ) (w : World) (es : List Envelope) (now : ℕ) (s : State)
    → All (λ e. e.attempts < m) es
    → BelowMax m s
    → BelowMax m (attempt_all w m es now s)
unfolding attempt_all
attempt_all-BelowMax m w [] now s p h = h
attempt_all-BelowMax m w (e ∷ es) now s p h =
    attempt_all-BelowMax m w es now (attempt w m e now s) p.1 (attempt-BelowMax m w e now s p.0 h)

-- If every queued envelope has attempts left, that is so after any passes.
pub passes_below_max :
    (max_attempts : ℕ) (ps : List (World × ℕ)) (s : State)
    → All (λ e. e.attempts < max_attempts) s.files
    → All (λ e. e.attempts < max_attempts) (passes max_attempts ps s).files
unfolding process
passes_below_max m [] s h = h
passes_below_max m ((w, now) ∷ ps) s h = passes_below_max m ps (process w m now s) (
    attempt_all-BelowMax m w (due s.files now) now s (All-due (λ e. e.attempts < m) s.files now h)
      h)
