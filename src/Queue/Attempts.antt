-- ===== src/Queue/Attempts.antt =====
-- What becomes of a queued message: it is kept, delivered or bounced, and it is not tried forever.
use verta.Common.{
  ◌||◌, ℕ, ◌+◌, ◌≡◌, refl, ◌⊎◌, inl, inr, Text, text_eq, text_eq_iff, Bool, true, false, List, [],
  ◌∷◌, any, arith, Bool-cases, Option-cases,
}
use verta.Queue.Store.{Envelope, remove, update, due}
use verta.Queue.Scheduler.{
  record_sent, count_delivered, count_bounced, refused, giving_up, count_delivered, send_bounce,
  count_deferred, Outcome, delivered, permanent, transient, Reason, State, World, backoff,
  drop_file, write_file, retry, dispose, attempt, attempt_all, process,
}

-- One pass after the other, each in its own world at its own time.
abbrev pub passes : ℕ → List (World × ℕ) → State → State
passes max_attempts [] s = s
passes max_attempts ((w, now) ∷ ps) s = passes max_attempts ps (process w max_attempts now s)

abbrev pub holds : Text → State → Bool
holds id s = any (λ e. text_eq e.id id) s.files

abbrev pub has_bounced : Text → State → Bool
has_bounced id s = any (λ b. text_eq b.0.id id) s.bounces

abbrev pub has_sent : Text → State → Bool
has_sent id s = any (λ e. text_eq e.id id) s.sent

any-remove :
    (id other : Text) (files : List Envelope)
    → text_eq other id ≡ false
    → any (λ e. text_eq e.id id) (remove other files) ≡ any (λ e. text_eq e.id id) files
unfolding remove
any-remove id other [] h = refl
any-remove id other (f ∷ files) h =
    ground (arith, any-remove id other files h, text_eq_iff f.id other)

any-update :
    (id : Text) (ok : Bool) (e : Envelope) (files : List Envelope)
    → any (λ f. text_eq f.id id) (update ok e files) ≡ any (λ f. text_eq f.id id) files
unfolding update
any-update id ok e [] = refl
any-update id ok e (f ∷ files) = ground (arith, any-update id ok e files, text_eq_iff f.id e.id)

drop_file-holds :
    (id : Text) (w : World) (e : Envelope) (s : State)
    → text_eq e.id id ≡ false
    → holds id (drop_file w e s) ≡ holds id s
unfolding drop_file
drop_file-holds id w e s h = ground (arith, any-remove id e.id s.files h)

drop_file_same :
    (w : World) (e : Envelope) (s : State)
    → ((drop_file w e s).bounces ≡ s.bounces) × ((drop_file w e s).sent ≡ s.sent)
unfolding drop_file
drop_file_same w e s = ground arith

-- Kept, delivered or bounced.
abbrev Stays : Text → State → Type 0
Stays id s = (holds id s || (has_sent id s || has_bounced id s)) ≡ true

drop-Stays :
    (id : Text) (w : World) (e : Envelope) (s : State)
    → (text_eq e.id id ≡ true → (has_sent id s || has_bounced id s) ≡ true)
    → Stays id s
    → Stays id (drop_file w e s)
drop-Stays id w e s final h = elim (Bool-cases (text_eq e.id id)) [
  | inl same ↦ ground (arith, final same, drop_file_same w e s)
  | inr other ↦ ground (arith, drop_file-holds id w e s other, drop_file_same w e s)
]

bounce-Stays :
    (id : Text) (w : World) (e : Envelope) (reason : Reason) (s : State)
    → Stays id s
    → Stays id (drop_file w e (send_bounce e reason (count_bounced s)))
unfolding send_bounce count_bounced
bounce-Stays id w e reason s h =
    drop-Stays id w e (send_bounce e reason (count_bounced s)) (λ same. ground arith) (ground arith)

sent-Stays :
    (id : Text) (w : World) (e : Envelope) (s : State)
    → Stays id s
    → Stays id (drop_file w e (record_sent e (count_delivered s)))
unfolding record_sent count_delivered
sent-Stays id w e s h =
    drop-Stays id w e (record_sent e (count_delivered s)) (λ same. ground arith) (ground arith)

retry-Stays :
    (id : Text) (w : World) (m : ℕ) (e : Envelope) (now : ℕ) (s : State)
    → Stays id s
    → Stays id (retry w m e now s)
unfolding retry write_file count_deferred
retry-Stays id w m e now s h = ground (
  arith,
  bounce-Stays id w e (giving_up e.attempts e.last_error) s h,
  any-update id (w.write_ok (record e { next_attempt = now + backoff e.attempts }))
      (record e { next_attempt = now + backoff e.attempts }) s.files,
)

dispose-Stays :
    (id : Text) (w : World) (m : ℕ) (e : Envelope) (now : ℕ) (s : State) (o : Outcome)
    → Stays id s
    → Stays id (dispose w m e now s o)
unfolding dispose
dispose-Stays id w m e now s delivered h = sent-Stays id w e s h
dispose-Stays id w m e now s (permanent code text) h = bounce-Stays id w e (refused code text) s h
dispose-Stays id w m e now s (transient text) h =
    retry-Stays id w m (record e { attempts = e.attempts + 1; last_error = text }) now s h

attempt-Stays :
    (id : Text) (w : World) (m : ℕ) (e : Envelope) (now : ℕ) (s : State)
    → Stays id s
    → Stays id (attempt w m e now s)
unfolding write_file attempt
attempt-Stays id w m e now s h = elim (Option-cases (w.reserve e)) [
  | inl free ↦ rw (free, attempt) (dispose-Stays id w m e now s (w.deliver e) h)
  | inr (wait, paced) ↦
      rw (paced, attempt)
        (ground (
          arith,
          any-update id (w.write_ok (record e { next_attempt = now + wait }))
              (record e { next_attempt = now + wait }) s.files,
        ))
]

attempt_all-Stays :
    (id : Text) (w : World) (m : ℕ) (es : List Envelope) (now : ℕ) (s : State)
    → Stays id s
    → Stays id (attempt_all w m es now s)
unfolding attempt_all
attempt_all-Stays id w m [] now s h = h
attempt_all-Stays id w m (e ∷ es) now s h =
    attempt_all-Stays id w m es now (attempt w m e now s) (attempt-Stays id w m e now s h)

passes-Stays :
    (id : Text) (m : ℕ) (ps : List (World × ℕ)) (s : State) → Stays id s → Stays id (passes m ps s)
unfolding process
passes-Stays id m [] s h = h
passes-Stays id m ((w, now) ∷ ps) s h =
    passes-Stays id m ps (process w m now s) (attempt_all-Stays id w m (due s.files now) now s h)

-- An envelope that was queued is, after any passes of the scheduler and whichever deliveries,
-- writes and removals failed in them, still queued, or it was delivered or bounced.
pub passes_keep :
    (id : Text) (max_attempts : ℕ) (ps : List (World × ℕ)) (s : State)
    → holds id s ≡ true
    → (holds id (passes max_attempts ps s) ≡ true)
      ⊎ (has_sent id (passes max_attempts ps s) ≡ true)
      ⊎ (has_bounced id (passes max_attempts ps s) ≡ true)
passes_keep id m ps s h =
    let stays : Stays id (passes m ps s) = passes-Stays id m ps s (ground arith) in ground arith
