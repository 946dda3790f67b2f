-- ===== src/Imap/Loop/Cases.antt =====
-- How the commands on the selected mailbox can end, whatever their arguments are.
use verta.Common.{
  ℕ, String, Text, Bool, true, false, List, [], Option, none, some, ◌≡◌, refl, if◌then◌else◌,
  text_eq,
}
use verta.Maildir.Mailbox.{Mailbox}
use verta.Imap.Parsing.{Token, Parsed, Tokens, no_tokens, also}
use verta.Imap.Session.{
  Env, Session, State, Reply, Outcome, reply_all, if_selected, with_mailbox, on_mailbox,
  with_argument, argument, say,
}
use verta.Imap.Views.{
  rest_of, cmd_fetch, cmd_search, fetch_set, with_set, set_given, search_tokens, search_parsed,
}

-- What holds of every outcome that only replies, and where the mailbox is missing, holds of a command
-- if it holds of the outcomes for a mailbox and arguments that are there.
module _ (P : Outcome → Type 0) (e : Env) (s : Session)
    (replied : (replies : List Reply) → P (reply_all e s replies))
    (missing : P (record (reply_all e s []) { crashed = true; quit = true })) where
  pub with_mailbox-cases :
      (f : Mailbox → Outcome)
      → ((mb : Mailbox) → s.view.mbox ≡ some mb → P (f mb))
      → P (with_mailbox e s f)
  unfolding with_mailbox on_mailbox if_selected
  with_mailbox-cases f k = by_state s.state s.view.mbox refl
    where
      by_state :
          (st : State) (o : Option Mailbox)
          → s.view.mbox ≡ o
          → P (elim st [
            | State.not_authenticated ↦ say e s "NO no mailbox selected"
            | State.authenticated ↦ say e s "NO no mailbox selected"
            | State.selected ↦ on_mailbox e s f o
          ])
      by_state State.not_authenticated o same = replied _
      by_state State.authenticated o same = replied _
      by_state State.selected none same = missing
      by_state State.selected (some mb) same = k mb same

  pub with_argument-cases :
      (usage : String) (args : Text) (f : Token → Text → Outcome)
      → ((t : Token) (rest : Text) → P (f t rest))
      → P (with_argument e s usage args f)
  unfolding with_argument
  with_argument-cases usage args f k = given (argument e args)
    where
      given :
          (p : Parsed Token)
          → P (elim p [
            | Parsed.failed ↦ say e s usage
            | Parsed.no_fuel ↦ say e s usage
            | Parsed.parsed t rest ↦ f t rest
          ])
      given (Parsed.parsed t rest) = k t rest
      given Parsed.failed = replied _
      given Parsed.no_fuel = replied _

  set_given-cases :
      (f : List (ℕ × ℕ) → Outcome) (o : Option (List (ℕ × ℕ)))
      → ((set : List (ℕ × ℕ)) → P (f set))
      → P (set_given e s f o)
  unfolding set_given
  set_given-cases f none k = replied _
  set_given-cases f (some set) k = k set

  pub either : (b : Bool) (o p : Outcome) → P o → P p → P (if b then o else p)
  either true o p h k = h
  either false o p h k = k

  pub cmd_fetch-cases :
      (args : Text) (uid : Bool)
      → ((mb : Mailbox) (set : List (ℕ × ℕ)) (items : Text)
          → s.view.mbox ≡ some mb
          → P (fetch_set e s mb set items uid))
      → P (cmd_fetch e s args uid)
  unfolding cmd_fetch with_set
  cmd_fetch-cases args uid k = with_mailbox-cases _ (λ mb same. with_argument-cases _ _ _ (λ t rest.
      set_given-cases _ _
        (λ set. either (text_eq (rest_of rest) []) _ _ (replied _) (k mb set _ same))))

  search_parsed-cases :
      (mb : Mailbox) (uid : Bool) (p : Parsed Tokens) → P (search_parsed e s mb uid p)
  unfolding search_parsed search_tokens
  search_parsed-cases mb uid Parsed.failed = replied _
  search_parsed-cases mb uid Parsed.no_fuel = replied _
  search_parsed-cases mb uid (Parsed.parsed no_tokens rest) = replied _
  search_parsed-cases mb uid (Parsed.parsed (also t ts) rest) = replied _

  pub cmd_search-cases : (args : Text) (uid : Bool) → P (cmd_search e s args uid)
  unfolding cmd_search
  cmd_search-cases args uid = with_mailbox-cases _ (λ mb same. search_parsed-cases mb uid _)
