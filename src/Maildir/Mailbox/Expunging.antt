-- ===== src/Maildir/Mailbox/Expunging.antt =====
-- What an expunge removes, on the error path too.
use verta.Common.{
  ◌⊎◌, ◌∙◌, sym, subst, ap, ℕ, ◌+◌, ◌≡◌, refl, Bool, true, false, if◌then◌else◌, List, [], ◌∷◌,
  none, some, All, map, arith, inl, inr, Text,
}
use verta.Maildir.Flags.{FlagSet, has, deleted}
use verta.Maildir.Mailbox.{
  set_flags, finish, finish, Message, Mailbox, Sweep, sweep, expunge, number_from,
}

-- The messages with, or without, the Deleted flag.
abbrev pub with_deleted : Bool → List Message → List Message
with_deleted b [] = []
with_deleted true (m ∷ ms) =
    if has m.flags deleted then m ∷ with_deleted true ms else with_deleted true ms
with_deleted false (m ∷ ms) =
    if has m.flags deleted then with_deleted false ms else m ∷ with_deleted false ms

abbrev pub names : List Message → List Text
names = map (λ m. m.name)

abbrev pub IsFlaggedDeleted : Message → Type 0
IsFlaggedDeleted m = has m.flags deleted ≡ true

sweep_removed :
    (gone : Message → Bool) (ms : List Message) → All IsFlaggedDeleted (sweep gone ms).removed
unfolding sweep
sweep_removed gone [] = tt
sweep_removed gone (m ∷ ms) = ground (arith, sweep_removed gone ms)

sweep_finished :
    (gone : Message → Bool) (ms : List Message)
    → (sweep gone ms).finished ≡ true
    → ((sweep gone ms).kept ≡ with_deleted false ms)
      × ((sweep gone ms).removed ≡ with_deleted true ms)
unfolding sweep
sweep_finished gone [] h = (refl, refl)
sweep_finished gone (m ∷ ms) h = ground (arith, sweep_finished gone ms)

names-number_from : (i : ℕ) (ms : List Message) → names (number_from i ms) ≡ names ms
unfolding number_from
names-number_from i [] = refl
names-number_from i (m ∷ ms) = ap (λ ns. m.name ∷ ns) (names-number_from (i + 1) ms)

sweep_nothing :
    (gone : Message → Bool) (ms : List Message)
    → (sweep gone ms).finished ≡ true
    → (sweep gone ms).seqs ≡ []
    → with_deleted false ms ≡ ms
unfolding sweep
sweep_nothing gone [] h e = refl
sweep_nothing gone (m ∷ ms) h e = ground (arith, sweep_nothing gone ms)

finish-some :
    (mb : Mailbox) (s : Sweep) (seqs : List ℕ)
    → (finish mb s).0 ≡ some seqs
    → (s.finished ≡ true)
      × ((finish mb s).2 ≡ s.removed)
      × (((s.seqs ≡ []) × ((finish mb s).1 ≡ mb))
          ⊎ ((finish mb s).1 ≡ record mb { messages = number_from 0 s.kept }))
unfolding finish
finish-some mb s seqs h = ground arith

finish-none :
    (mb : Mailbox) (s : Sweep)
    → (finish mb s).0 ≡ none
    → ((finish mb s).2 ≡ s.removed) × ((finish mb s).1 ≡ mb)
unfolding finish
finish-none mb s h = ground arith

-- An expunge that reports success has removed exactly the messages flagged Deleted, and the
-- mailbox holds the names of the others in their order.
pub expunge_lem :
    (gone : Message → Bool) (mb : Mailbox) (seqs : List ℕ)
    → (expunge gone mb).0 ≡ some seqs
    → ((expunge gone mb).2 ≡ with_deleted true mb.messages)
      × (names (expunge gone mb).1.messages ≡ names (with_deleted false mb.messages))
unfolding expunge
expunge_lem gone mb seqs h =
    let s : Sweep = sweep gone mb.messages in
    let (done, removed, view) = finish-some mb s seqs (h) in
    let (kept, swept) = sweep_finished gone mb.messages done in
    (
      (removed) ∙ swept,
      elim view [
        | inl (nothing, same) ↦
            ap (λ (b : Mailbox). names b.messages) (same)
            ∙ sym (ap names (sweep_nothing gone mb.messages done nothing))
        | inr less ↦
            ap (λ (b : Mailbox). names b.messages) (less)
            ∙ (names-number_from 0 s.kept ∙ ap names kept)
      ],
    )

-- An expunge that fails has removed only messages flagged Deleted, and keeps the view as it was.
pub expunge_error :
    (gone : Message → Bool) (mb : Mailbox)
    → (expunge gone mb).0 ≡ none
    → All IsFlaggedDeleted (expunge gone mb).2 × ((expunge gone mb).1 ≡ mb)
unfolding expunge
expunge_error gone mb h =
    let (removed, same) = finish-none mb (sweep gone mb.messages) (h) in
    (subst (All IsFlaggedDeleted) (sym (removed)) (sweep_removed gone mb.messages), same)

pub set_flags_same :
    (ok : Bool) (m m' : Message) (f : FlagSet)
    → set_flags ok m f ≡ some m'
    → (m'.uid ≡ m.uid) × (m'.size ≡ m.size) × (m'.flags ≡ f)
unfolding set_flags
set_flags_same ok m m' f h = ground arith
