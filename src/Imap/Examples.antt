-- ===== src/Imap/Examples.antt =====
-- Lines and sequence sets, and the theorems of the component at them.
use verta.Common.{◌==◌, List, some, ℕ, true, false, codes, [], ◌∷◌, ◌≡◌, ◌≢◌, refl, none, split_on}
use verta.Imap.Parsing.{
  Tokens, no_tokens, also, text, group, parsed, no_fuel, parse_line, parse_seq_set, set_contains,
  next, all_tokens,
}
use verta.Maildir.Flags.{seen, base_name, file_name, FlagSet, deleted, has, add}
use verta.Maildir.Mailbox.{is_new, Message, Mailbox, in_cur, expunge, sweep, finish}
use verta.Imap.Commands.{Env, Session, with_set, with_argument, cmd_copy_move, copy_set}
use verta.Imap.Flagging.{store_loop, add_flags}
use verta.Imap.Flagging.Stored.{Stored, store_loop-Stored}
use verta.Imap.Parsing.Enough.{parse_line-Ends}
use verta.Imap.Parsing.Written.{written_all, AllQuoted, parse_line-written}
use verta.Imap.Parsing.Sets.{any_denotes, parse_seq_set-denotes}

-- FLAGS ("a\"b" ())
abbrev tokens : Tokens
tokens =
    also (text (codes "FLAGS"))
      (also (group (also (text (codes "a\"b")) (also (group no_tokens) no_tokens))) no_tokens)

parse_line_run : parse_line none (codes "FLAGS (\"a\\\"b\" ())") ≡ parsed tokens []
unfolding parse_line all_tokens next
parse_line_run = refl

parse_line-Ends_example : parse_line none (codes "a (b (c") ≢ no_fuel
parse_line-Ends_example = parse_line-Ends none (codes "a (b (c")

parse_line-written_example : parse_line none (written_all tokens) ≡ parsed tokens []
parse_line-written_example =
    parse_line-written none tokens (unfold AllQuoted in (tt, ((tt, (tt, tt)), tt)))

parse_seq_set-denotes_example :
    set_contains 8 9 ((1, 1) ∷ (7, 4294967295) ∷ [])
    ≡ any_denotes 8 9 (split_on b',' (codes "1,*:7"))
parse_seq_set-denotes_example =
    parse_seq_set-denotes 8 9 (codes "1,*:7") ((1, 1) ∷ (7, 4294967295) ∷ [])
      (unfold parse_seq_set in refl)

-- Two messages: the first is moved, the second was flagged Deleted before.
abbrev message : ℕ → FlagSet → Message
message n flags = record {
  uid = n;
  seq = n;
  name = codes "m:2,";
  sub = in_cur;
  flags = flags;
  recent = false;
  size = 9;
  internal = 0;
}

abbrev mailbox : Mailbox
mailbox = record {
  messages = message 1 [] ∷ message 2 (deleted ∷ []) ∷ message 3 [] ∷ [];
  uid_validity = 1;
  uid_next = 4;
}

abbrev env : Env
env = record {
  literal = none;
  exists = λ dst. true;
  copy_ok = λ m dst. true;
  rename_ok = λ m. true;
  gone = λ m. true;
}

abbrev session : Session
session = record { mbox = some mailbox; read_only = false }

abbrev uids : List Message → List ℕ
uids [] = []
uids (m ∷ ms) = m.uid ∷ uids ms

move_run :
    (uids (cmd_copy_move env session (codes "1 Trash") false true).copied ≡ 1 ∷ [])
    × (uids (cmd_copy_move env session (codes "1 Trash") false true).removed ≡ 1 ∷ 2 ∷ [])
unfolding cmd_copy_move with_set with_argument copy_set expunge sweep finish has add is_new
    file_name base_name
move_run = (refl, refl)

-- +FLAGS (\Seen) on the second message, which is Deleted as well then.
store_loop-Stored_example :
    Stored add_flags
      (seen ∷ [])
      (λ m. m.uid == 2)
      mailbox.messages
      (store_loop env add_flags false true (seen ∷ []) (λ m. m.uid == 2) mailbox.messages).0
store_loop-Stored_example =
    store_loop-Stored env add_flags false true (seen ∷ []) (λ m. m.uid == 2) mailbox.messages
      (λ e. cc) (refl, (refl, (refl, tt)))
