-- ===== src/Imap/Commands/Cases.antt =====
-- How the commands of Commands can end, whatever their arguments are.
use verta.Common.{ℕ, String, Text, Bool, true, false, List, Option, none, some, ◌≡◌, refl}
use verta.Maildir.Mailbox.{Mailbox}
use verta.Imap.Parsing.{Token, Parsed, parse_seq_set, token_string, token_upper}
use verta.Imap.Commands.{
  Env, Session, Outcome, say, argument, with_argument, with_set, copy_set, cmd_copy_move,
}
use verta.Imap.Flagging.{store_set, cmd_store}

-- What holds of every refusal and of every outcome for arguments that are there holds of the command.
module _ (P : Outcome → Type 0) (e : Env) (s : Session)
    (refusal : (usage : String) → P (say s usage)) where
  with_argument-cases :
      (usage : String) (args : Text) (f : Token → Text → Outcome)
      → ((t : Token) (rest : Text) → P (f t rest))
      → P (with_argument e s usage args f)
  unfolding with_argument
  with_argument-cases usage args f k = given (argument e args)
    where
      given :
          (p : Parsed Token)
          → P (elim p [
            | Parsed.failed ↦ say s usage
            | Parsed.no_fuel ↦ say s usage
            | Parsed.parsed t rest ↦ f t rest
          ])
      given (Parsed.parsed t rest) = k t rest
      given Parsed.failed = refusal usage
      given Parsed.no_fuel = refusal usage

  with_set-cases :
      (usage : String) (args : Text) (f : List (ℕ × ℕ) → Text → Outcome)
      → ((set : List (ℕ × ℕ)) (rest : Text) → P (f set rest))
      → P (with_set e s usage args f)
  unfolding with_set
  with_set-cases usage args f k =
      with_argument-cases _ _ _ (λ t rest. given rest (parse_seq_set (token_string t)))
    where
      given :
          (rest : Text) (p : Option (List (ℕ × ℕ)))
          → P (elim p [ none ↦ say s "BAD invalid sequence set" | some set ↦ f set rest ])
      given rest (some set) = k set rest
      given rest none = refusal _

  pub cmd_copy_move-cases :
      (args : Text) (uid_mode move : Bool)
      → ((mb : Mailbox) (set : List (ℕ × ℕ)) (dst : Text)
          → s.mbox ≡ some mb
          → P (copy_set e s mb set dst uid_mode move))
      → P (cmd_copy_move e s args uid_mode move)
  unfolding cmd_copy_move
  cmd_copy_move-cases args uid_mode move k = in_mailbox s.mbox refl
    where
      in_mailbox :
          (o : Option Mailbox)
          → s.mbox ≡ o
          → P (elim o [
            | none ↦ say s "NO no mailbox selected"
            | some mb ↦ with_set e s "BAD needs a sequence set" args (λ set rest.
                with_argument e s "BAD needs a destination" rest
                  (λ dst after. copy_set e s mb set (token_string dst) uid_mode move))
          ])
      in_mailbox none same = refusal _
      in_mailbox (some mb) same =
          with_set-cases _ _ _
            (λ set rest. with_argument-cases _ _ _ (λ dst after. k mb set _ same))

  pub cmd_store-cases :
      (args : Text) (uid_mode : Bool)
      → ((mb : Mailbox) (set : List (ℕ × ℕ)) (op : Text) (flags : Token)
          → s.read_only ≡ false
          → P (store_set e s mb set op flags uid_mode))
      → P (cmd_store e s args uid_mode)
  unfolding cmd_store
  cmd_store-cases args uid_mode k = in_mailbox s.mbox s.read_only refl
    where
      in_mailbox :
          (o : Option Mailbox) (b : Bool)
          → s.read_only ≡ b
          → P (elim o [
            | none ↦ say s "NO no mailbox selected"
            | some mb ↦ elim b [
              | true ↦ say s "NO mailbox is read-only"
              | false ↦ with_set e s "BAD STORE needs a sequence set" args (λ set rest.
                  with_argument e s "BAD STORE needs an operation" rest (λ op more.
                    with_argument e s "BAD STORE needs flags" more
                      (λ flags after. store_set e s mb set (token_upper op) flags uid_mode)))
            ]
          ])
      in_mailbox none b same = refusal _
      in_mailbox (some mb) true same = refusal _
      in_mailbox (some mb) false same = with_set-cases _ _ _ (λ set rest.
          with_argument-cases _ _ _
            (λ op more. with_argument-cases _ _ _ (λ flags after. k mb set _ flags same)))
