-- ===== src/Imap/Commands/Moving.antt =====
-- What MOVE of internal/imap/fetch.go removes from the disk.
use verta.Common.{
  subst, ◌⊎◌, ℕ, ◌≡◌, refl, sym, Text, Bool, true, false, ◌&&◌, ◌||◌, ◌==◌, List, [], ◌∷◌, any, All,
  arith, Bool-cases, Option-cases, inl, inr,
}
use verta.Maildir.Flags.{has, add, deleted}
use verta.Maildir.Mailbox.{Message, Mailbox, Sweep, sweep, finish, expunge, set_flags}
use verta.Maildir.Mailbox.Expunging.{set_flags_same}
use verta.Imap.Commands.{
  Env, Session, Outcome, copy_set, copy_all, finish_move, expunge_with, mark_chosen, selected,
  is_chosen, highest, normalize_mailbox,
}

-- A message of the list that has this UID and that was chosen, or flagged Deleted before.
abbrev pub accounted : (Message → Bool) → List Message → Message → Bool
accounted p ms r = any (λ m. m.uid == r.uid && (p m || has m.flags deleted)) ms

-- What holds of all messages that are flagged Deleted holds of all that an expunge removes.
sweep-removed :
    (P : Message → Type 0) (gone : Message → Bool) (ms : List Message)
    → All (λ m. has m.flags deleted ≡ true → P m) ms
    → All P (sweep gone ms).removed
unfolding sweep
sweep-removed P gone [] h = tt
sweep-removed P gone (m ∷ ms) h = elim (Bool-cases (has m.flags deleted)) [
  | inr kept ↦ rw kept (sweep-removed P gone ms h.1)
  | inl flagged ↦ elim (Bool-cases (gone m)) [
    | inl removed ↦ rw (sweep, flagged, removed) (h.0 flagged, sweep-removed P gone ms h.1)
    | inr stays ↦ rw (sweep, flagged, stays) tt
  ]
]

finish_removed : (mb : Mailbox) (s : Sweep) → (finish mb s).2 ≡ s.removed
unfolding finish
finish_removed mb s = ground arith

pub All-map {κ μ} :
    (P : Message → Type κ) (Q : Message → Type μ) (ms : List Message)
    → ((m : Message) → P m → Q m)
    → All P ms
    → All Q ms
All-map P Q [] f h = tt
All-map P Q (m ∷ ms) f h = (f m h.0, All-map P Q ms f h.1)

-- A message that is flagged Deleted only if it is accounted for.
abbrev Explained : (Message → Bool) → List Message → Message → Type 0
Explained p ms r = has r.flags deleted ≡ true → accounted p ms r ≡ true

same_message : (p : Message → Bool) (ms : List Message) (m : Message) → Explained p (m ∷ ms) m
same_message p ms m h = ground (arith, h)

Explained-cons :
    (p : Message → Bool) (ms : List Message) (m r : Message)
    → Explained p ms r
    → Explained p (m ∷ ms) r
Explained-cons p ms m r h d = ground (arith, h d)

unchanged-Explained : (p : Message → Bool) (ms : List Message) → All (Explained p ms) ms
unchanged-Explained p [] = tt
unchanged-Explained p (m ∷ ms) = (
  same_message p ms m,
  All-map (Explained p ms) (Explained p (m ∷ ms)) ms (Explained-cons p ms m)
      (unchanged-Explained p ms),
)

chosen-Explained :
    (p : Message → Bool) (ms : List Message) (m m' : Message)
    → p m ≡ true
    → m'.uid ≡ m.uid
    → Explained p (m ∷ ms) m'
chosen-Explained p ms m m' h u d = ground (arith, h, u)

mark_chosen-Explained :
    (e : Env) (p : Message → Bool) (ms : List Message) → All (Explained p ms) (mark_chosen e p ms).0
unfolding mark_chosen
mark_chosen-Explained e p [] = tt
mark_chosen-Explained e p (m ∷ ms) =
    let later =
      All-map (Explained p ms) (Explained p (m ∷ ms)) (mark_chosen e p ms).0 (Explained-cons p ms m)
        (mark_chosen-Explained e p ms) in
    elim (Bool-cases (p m)) [
      | inr other ↦ rw other (same_message p ms m, later)
      | inl hit ↦ elim (Option-cases (set_flags (e.rename_ok m) m (add m.flags deleted))) [
        | inl lost ↦ rw (mark_chosen, hit, lost) (unchanged-Explained p (m ∷ ms))
        | inr (m', set) ↦
            rw (mark_chosen, hit, set)
              (
                chosen-Explained p ms m m' hit
                    (set_flags_same (e.rename_ok m) m m' (add m.flags deleted) set).0,
                later,
              )
      ]
    ]

-- An expunge removes only messages that were flagged Deleted.
pub expunge-accounted :
    (gone : Message → Bool) (mb : Mailbox)
    → All (λ r. accounted (λ m. false) mb.messages r ≡ true) (expunge gone mb).2
unfolding expunge
expunge-accounted gone mb = rw (finish_removed mb (sweep gone mb.messages)) (
    sweep-removed (λ r. accounted (λ m. false) mb.messages r ≡ true) gone mb.messages
      (unchanged-Explained (λ m. false) mb.messages))

copy_all_lem :
    (e : Env) (dst : Text) (ms : List Message)
    → (copy_all e dst ms).1 ≡ true
    → (copy_all e dst ms).0 ≡ ms
unfolding copy_all
copy_all_lem e dst [] h = refl
copy_all_lem e dst (m ∷ ms) h = ground (arith, copy_all_lem e dst ms, h)

-- A way to end a MOVE: what it removed is accounted for, and nothing was removed or these were copied.
abbrev IsAccounted : (Message → Bool) → List Message → List Message → Outcome → Type 0
IsAccounted p ms copied o =
    All (λ r. accounted p ms r ≡ true) o.removed × ((o.removed ≡ []) ⊎ (o.copied ≡ copied))

finish_move-IsAccounted :
    (e : Env) (s : Session) (mb : Mailbox) (p : Message → Bool) (copied : List Message)
    → IsAccounted p mb.messages copied (finish_move e s mb p copied)
unfolding finish_move expunge_with expunge
finish_move-IsAccounted e s mb p copied = elim (Bool-cases (mark_chosen e p mb.messages).1) [
  | inr lost ↦ rw (finish_move, lost) (tt, inl refl)
  | inl done ↦
      let marked : Mailbox = record mb { messages = (mark_chosen e p mb.messages).0 } in
      rw
        (
          finish_move,
          done,
          expunge_with,
          expunge,
          finish_removed marked (sweep e.gone marked.messages),
        )
        (
          sweep-removed (λ r. accounted p mb.messages r ≡ true) e.gone marked.messages
              (mark_chosen-Explained e p mb.messages),
          inr refl,
        )
]

move_done :
    (e : Env) (s : Session) (mb : Mailbox) (set : List (ℕ × ℕ)) (dst : Text) (uid_mode : Bool)
    → e.exists (normalize_mailbox dst) ≡ true
    → s.read_only ≡ false
    → (copy_all e (normalize_mailbox dst) (selected set uid_mode mb.messages)).1 ≡ true
    → copy_set e s mb set dst uid_mode true
      ≡ finish_move e s mb
          (is_chosen set uid_mode (highest uid_mode mb.messages))
          (selected set uid_mode mb.messages)
unfolding copy_set
move_done e s mb set dst uid_mode here writable done =
    rw
      (
        copy_set,
        here,
        writable,
        done,
        copy_all_lem e (normalize_mailbox dst) (selected set uid_mode mb.messages) done,
      )
      refl

-- Whatever a MOVE replies, every file that it removes belongs to a message with the UID of one
-- that it was to move or that was flagged Deleted before; and if it removes any, then all
-- messages that it was to move had been copied to the destination.
pub copy_set-IsAccounted :
    (e : Env) (s : Session) (mb : Mailbox) (set : List (ℕ × ℕ)) (dst : Text) (uid_mode : Bool)
    → All
        (λ r.
          accounted (is_chosen set uid_mode (highest uid_mode mb.messages)) mb.messages r ≡ true)
        (copy_set e s mb set dst uid_mode true).removed
      × (((copy_set e s mb set dst uid_mode true).removed ≡ [])
          ⊎ ((copy_set e s mb set dst uid_mode true).copied ≡ selected set uid_mode mb.messages))
unfolding copy_set
copy_set-IsAccounted e s mb set dst uid_mode =
    elim (Bool-cases (e.exists (normalize_mailbox dst))) [
      | inr missing ↦ rw (copy_set, missing) (tt, inl refl)
      | inl here ↦ elim (Bool-cases s.read_only) [
        | inl locked ↦ rw (copy_set, here, locked) (tt, inl refl)
        | inr writable ↦
            elim (Bool-cases
              (copy_all e (normalize_mailbox dst) (selected set uid_mode mb.messages)).1) [
                | inr lost ↦ rw (copy_set, here, writable, lost) (tt, inl refl)
                | inl done ↦
                    subst
                      (IsAccounted (is_chosen set uid_mode (highest uid_mode mb.messages))
                        mb.messages (selected set uid_mode mb.messages))
                      (sym (move_done e s mb set dst uid_mode here writable done))
                      (finish_move-IsAccounted e s mb
                        (is_chosen set uid_mode (highest uid_mode mb.messages))
                        (selected set uid_mode mb.messages))
              ]
      ]
    ]
