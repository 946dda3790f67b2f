-- ===== src/Queue/Order.antt =====
-- The order of the queue: which envelopes are due, and when the scheduler wakes.
use mathlib.Core.List.{append-nil, Perm, perm_middle}
use mathlib.Core.List.Perm
use verta.Common.{
  sort_by-perm, subst, sort_by-Sorted, inr, ◌⊎◌, inl, Bool-cases, ◌<◌, any-sort_by, All-sort_by, ℕ,
  ◌≡◌, ◌≤◌, refl, Bool, true, false, if◌then◌else◌, List, [], ◌∷◌, ◌++◌, Option, none, some, arith,
  sort_by, Sorted, All, any, ltb, ◌&&◌, ◌==◌,
}
use verta.Queue.Store.{Envelope, load, due_of, due, earliest_from, earliest}

-- The envelopes whose time has not come.
abbrev pub held_of : ℕ → List Envelope → List Envelope
held_of now [] = []
held_of now (e ∷ all) = if ltb now e.next_attempt then e ∷ held_of now all else held_of now all

due_of-All : (now : ℕ) (all : List Envelope) → All (λ e. e.next_attempt ≤ now) (due_of now all)
unfolding due_of
due_of-All now [] = tt
due_of-All now (e ∷ all) = ground (arith, due_of-All now all)

All-due_of {κ} :
    (P : Envelope → Type κ) (now : ℕ) (all : List Envelope) → All P all → All P (due_of now all)
unfolding due_of
All-due_of P now [] h = tt
All-due_of P now (e ∷ all) h = elim (Bool-cases (ltb now e.next_attempt)) [
  | inl held ↦ rw held (All-due_of P now all h.1)
  | inr is_due ↦ rw is_due (h.0, All-due_of P now all h.1)
]

due_of-Sorted :
    (now : ℕ) (all : List Envelope)
    → Sorted (λ e. e.created) all
    → Sorted (λ e. e.created) (due_of now all)
unfolding due_of
due_of-Sorted now [] s = tt
due_of-Sorted now (e ∷ all) s = elim (Bool-cases (ltb now e.next_attempt)) [
  | inl held ↦ rw held (due_of-Sorted now all s.1)
  | inr is_due ↦ rw is_due (All-due_of _ now all s.0, due_of-Sorted now all s.1)
]

parts-perm : (now : ℕ) (all : List Envelope) → Perm (due_of now all ++ held_of now all) all
unfolding due_of
parts-perm now [] = Perm.refl []
parts-perm now (e ∷ all) = elim (Bool-cases (ltb now e.next_attempt)) [
  | inl held ↦ rw held (
      Perm.trans (perm_middle (due_of now all) (held_of now all))
        (Perm.cons e (parts-perm now all)))
  | inr is_due ↦ rw is_due (Perm.cons e (parts-perm now all))
]

-- Due envelopes come oldest first, their time has come, and with the envelopes whose time has not
-- come they are all the files, each once.
pub due_lem :
    (files : List Envelope) (now : ℕ)
    → Sorted (λ e. e.created) (due files now)
      × All (λ e. e.next_attempt ≤ now) (due files now)
      × Perm (due files now ++ held_of now (load files)) files
unfolding due load
due_lem files now = (
  due_of-Sorted now (sort_by (λ e. e.created) [] files)
      (sort_by-Sorted (λ e. e.created) [] files tt),
  due_of-All now (sort_by (λ e. e.created) [] files),
  Perm.trans (parts-perm now (sort_by (λ e. e.created) [] files)) (
      subst (Perm (sort_by (λ e. e.created) [] files)) (append-nil files)
        (sort_by-perm (λ e. e.created) [] files)),
)

-- What all envelopes have, the due ones have.
pub All-due {κ} :
    (P : Envelope → Type κ) (files : List Envelope) (now : ℕ) → All P files → All P (due files now)
unfolding due load
All-due P files now h = All-due_of P now _ (All-sort_by (λ e. e.created) P [] files tt h)

abbrev next_between : ℕ → ℕ → Envelope → Bool
next_between now t e = ltb now e.next_attempt && ltb e.next_attempt t

abbrev next_at : ℕ → ℕ → Envelope → Bool
next_at now t e = ltb now e.next_attempt && e.next_attempt == t

-- No time, if nothing waits; else the time of a waiting envelope, and none waits for an earlier one.
abbrev pub IsEarliest : ℕ → Option ℕ → List Envelope → Type 0
IsEarliest now none files = any (λ e. ltb now e.next_attempt) files ≡ false
IsEarliest now (some t) files =
    (any (next_at now t) files ≡ true) × (any (next_between now t) files ≡ false)

-- The loop with a time found: the result is that time or an earlier one that an envelope waits for.
earliest_from-some :
    (now t : ℕ) (all : List Envelope)
    → now < t
    → (u : ℕ) × (earliest_from now (some t) all ≡ some u)
      × (u ≤ t)
      × (any (next_between now u) all ≡ false)
      × ((u ≡ t) ⊎ (any (next_at now u) all ≡ true))
unfolding earliest_from
earliest_from-some now t [] h = (t, refl, omega arith, refl, inl refl)
earliest_from-some now t (e ∷ all) h = elim (Bool-cases (next_between now t e)) [
  | inl sooner ↦
      let (u, eq, le, none_between, from) =
        earliest_from-some now e.next_attempt all (ground arith) in
      (u, rw sooner eq, ground arith, ground arith, inr (ground arith))
  | inr later ↦
      let (u, eq, le, none_between, from) = earliest_from-some now t all h in
      (u, rw later eq, le, ground arith, ground arith)
]

skip :
    (now : ℕ) (e : Envelope) (all : List Envelope) (o : Option ℕ)
    → ltb now e.next_attempt ≡ false
    → IsEarliest now o all
    → IsEarliest now o (e ∷ all)
skip now e all none passed h = ground arith
skip now e all (some t) passed h = (ground arith, ground arith)

earliest_from-IsEarliest :
    (now : ℕ) (all : List Envelope) → IsEarliest now (earliest_from now none all) all
unfolding earliest_from
earliest_from-IsEarliest now [] = refl
earliest_from-IsEarliest now (e ∷ all) = elim (Bool-cases (ltb now e.next_attempt)) [
  | inl waits ↦
      let (u, eq, le, none_between, from) =
        earliest_from-some now e.next_attempt all (ground arith) in
      rw (waits, eq) (ground arith, ground arith)
  | inr passed ↦
      rw passed
        (skip now e all (earliest_from now none all) passed (earliest_from-IsEarliest now all))
]

IsEarliest-load :
    (now : ℕ) (o : Option ℕ) (files : List Envelope)
    → IsEarliest now o (load files)
    → IsEarliest now o files
unfolding load
IsEarliest-load now none files h =
    ground (arith, any-sort_by (λ e. e.created) (λ e. ltb now e.next_attempt) [] files)
IsEarliest-load now (some t) files h = (
  ground (arith, any-sort_by (λ e. e.created) (next_at now t) [] files),
  ground (arith, any-sort_by (λ e. e.created) (next_between now t) [] files),
)

-- The wake-up time is the soonest time, after now, that some envelope waits for; there is none
-- exactly if no envelope waits.
pub earliest_lem : (files : List Envelope) (now : ℕ) → IsEarliest now (earliest files now) files
unfolding earliest
earliest_lem files now =
    IsEarliest-load now (earliest files now) files (earliest_from-IsEarliest now (load files))
