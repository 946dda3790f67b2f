-- ===== src/Imap/Loop/Accounts.antt =====
-- What EXPUNGE, STORE, COPY and MOVE remove from the mailbox.
use verta.Common.{
  if◌then◌else◌, ℕ, Text, Bool, true, false, ◌&&◌, ◌||◌, ◌==◌, List, [], ◌∷◌, Option, none, some,
  any, All, ◌≡◌, sym, subst, arith, inl, inr, if◌then◌else◌, ◌⊎◌,
}
use verta.Maildir.Flags.{has, deleted}
use verta.Maildir.Mailbox.{Message, Mailbox}
use verta.Imap.Commands as Commands
use verta.Imap.Flagging as Flagging
use verta.Imap.Commands.Cases.{cmd_copy_move-cases, cmd_store-cases}
use verta.Imap.Commands.Moving.{accounted, copy_set-IsAccounted, expunge-accounted, All-map}
use verta.Imap.Commands.{normalize_mailbox}
use verta.Imap.Session.{messages_in}

-- Whether a message with this UID is flagged Deleted, or one was copied.
abbrev pub expected : List Message → List Message → Message → Bool
expected ms copied r =
    any (λ m. m.uid == r.uid && has m.flags deleted) ms || any (λ m. m.uid == r.uid) copied

accounted-expected :
    (p : Message → Bool) (ms : List Message) (r : Message)
    → accounted p ms r ≡ true
    → expected ms (Commands.chosen p ms) r ≡ true
unfolding Commands.chosen
accounted-expected p [] r h = h
accounted-expected p (m ∷ ms) r h = ground (arith, accounted-expected p ms r, h)

pub flagged-expected :
    (ms copied : List Message) (r : Message)
    → accounted (λ m. false) ms r ≡ true
    → expected ms copied r ≡ true
flagged-expected [] copied r h = absurd (cc h)
flagged-expected (m ∷ ms) copied r h = ground (arith, flagged-expected ms copied r, h)

pub chosen-All :
    (p q : Message → Bool) (ms : List Message)
    → All (λ m. p m ≡ true) (Commands.chosen (λ m. p m && q m) ms)
unfolding Commands.chosen
chosen-All p q [] = tt
chosen-All p q (m ∷ ms) = ground (arith, chosen-All p q ms)

pub if_any :
    (P : Message → Type 0) (b : Bool) (ms : List Message) → All P ms → All P (if b then [] else ms)
if_any P true ms h = tt
if_any P false ms h = h

module _ (e : Commands.Env) (s : Commands.Session) where
  abbrev pub Accounts : Commands.Outcome → Type 0
  Accounts o = All (λ r. expected (messages_in s.mbox) o.copied r ≡ true) o.removed

  pub cmd_expunge-Accounts : Accounts (Commands.cmd_expunge e s)
  unfolding Commands.cmd_expunge Commands.expunge_with
  cmd_expunge-Accounts = on_it s.mbox s.read_only
    where
      on_it :
          (o : Option Mailbox) (b : Bool)
          → (λ (c : Commands.Outcome).
                All (λ r. expected (messages_in o) c.copied r ≡ true) c.removed)
              (elim o [
                | none ↦ Commands.say s "NO no mailbox selected"
                | some mb ↦
                    if b
                    then Commands.say s "NO mailbox is read-only"
                    else Commands.expunge_with e s mb "OK EXPUNGE completed" "NO expunge failed" []
              ])
      on_it none b = tt
      on_it (some mb) true = tt
      on_it (some mb) false =
          All-map _ _ _ (flagged-expected mb.messages []) (expunge-accounted e.gone mb)

  copied_expected :
      (p : Message → Bool) (ms : List Message) (o : Commands.Outcome)
      → All (λ r. accounted p ms r ≡ true) o.removed
      → (o.removed ≡ []) ⊎ (o.copied ≡ Commands.chosen p ms)
      → All (λ r. expected ms o.copied r ≡ true) o.removed
  copied_expected p ms o h (inl nothing) =
      subst (λ l. All (λ r. expected ms o.copied r ≡ true) l) (sym nothing) tt
  copied_expected p ms o h (inr all) =
      subst (λ l. All (λ r. expected ms l r ≡ true) o.removed) (sym all)
        (All-map _ _ o.removed (accounted-expected p ms) h)

  copy_removed :
      (mb : Mailbox) (set : List (ℕ × ℕ)) (dst : Text) (uid_mode : Bool)
      → (Commands.copy_set e s mb set dst uid_mode false).removed ≡ []
  unfolding Commands.copy_set
  copy_removed mb set dst uid_mode = ground arith

  copy_set-Accounts :
      (mb : Mailbox) (set : List (ℕ × ℕ)) (dst : Text) (uid_mode move : Bool)
      → s.mbox ≡ some mb
      → Accounts (Commands.copy_set e s mb set dst uid_mode move)
  unfolding Commands.selected
  copy_set-Accounts mb set dst uid_mode true there =
      let o = Commands.copy_set e s mb set dst uid_mode true in
      let (h, k) = copy_set-IsAccounted e s mb set dst uid_mode in
      subst (λ b. All (λ r. expected (messages_in b) o.copied r ≡ true) o.removed) (sym there)
        (copied_expected (Commands.is_chosen set uid_mode (Commands.highest uid_mode mb.messages))
          mb.messages o h k)
  copy_set-Accounts mb set dst uid_mode false there =
      let o = Commands.copy_set e s mb set dst uid_mode false in
      subst (All (λ r. expected (messages_in s.mbox) o.copied r ≡ true))
        (sym (copy_removed mb set dst uid_mode)) tt

  pub cmd_copy_move-Accounts :
      (args : Text) (uid_mode move : Bool)
      → Accounts (Commands.cmd_copy_move e s args uid_mode move)
  cmd_copy_move-Accounts args uid_mode move =
      cmd_copy_move-cases Accounts e s (λ usage. tt) args uid_mode move
        (λ mb set dst there. copy_set-Accounts mb set dst uid_mode move there)

  pub cmd_store-Accounts :
      (args : Text) (uid_mode : Bool) → Accounts (Flagging.cmd_store e s args uid_mode)
  unfolding Flagging.store_set
  cmd_store-Accounts args uid_mode =
      cmd_store-cases Accounts e s (λ usage. tt) args uid_mode (λ mb set op flags same. tt)
