-- ===== src/Pop3/Examples.antt =====
-- Runs of a POP3 session, and the theorems of the component at concrete sessions.
use verta.Common.{
  join_with, cut, split_on, ap, ℕ, ◌≡◌, refl, Text, codes, true, false, List, [], ◌∷◌, ◌++◌, none,
  some, length, arith, if◌then◌else◌, text_eq, map, trim_suffix,
}
use verta.Maildir.Mailbox.{is_new, sweep, finish, expunge, Message, in_new}
use verta.Maildir.Flags.{add, has}
use verta.Pop3.Session.{Env, Session, new_session, is_marked}
use verta.Pop3.Commands.{flag_marked, update, cmd_quit, cmd_pass}
use verta.Pop3.Loop.{run}
use verta.Pop3.Invariant.{is_secure, run_secure}
use verta.Pop3.Deletions.{uids, doomed, quit_removes, relogin_removes}
use verta.Pop3.Dots.{body_lines, sections, dotted}
use verta.Pop3.Dots.RoundTrip.{client_lines, client_lines-dotted, sent_lines}

abbrev letter : ℕ → Message
letter n = record {
  uid = n;
  seq = n;
  name = codes "17.host";
  sub = in_new;
  flags = [];
  recent = true;
  size = 100;
  internal = 0;
}

abbrev old_inbox : List Message
old_inbox = letter 1 ∷ letter 2 ∷ []

abbrev new_inbox : List Message
new_inbox = letter 7 ∷ letter 8 ∷ []

-- Every file can be renamed and removed; one password opens the new inbox.
abbrev env : Env
env = record {
  tls_available = true;
  authenticate =
      λ user password ip. if text_eq password (codes "secret") then some (codes "/mail") else none;
  open_mailbox = λ root. some new_inbox;
  read_file = λ m. some (codes "hi");
  rename_ok = λ m. true;
  gone = λ m. true;
  md5_hex = λ t. t;
  reply_sent = true;
  handshake_ok = true;
}

-- Logged in over TLS, with message 1 marked.
abbrev marked_session : Session
marked_session = record {
  ip = codes "192.0.2.1";
  tls = true;
  user = codes "bob";
  root = codes "/mail";
  msgs = old_inbox;
  del = 1 ∷ [];
  authd = true;
}

abbrev clear_login : List (Env × Text)
clear_login = (env, codes "USER bob") ∷ (env, codes "PASS secret") ∷ []

run_secure_example : is_secure (run (new_session [] false) clear_login) ≡ true
unfolding new_session
run_secure_example = run_secure (new_session [] false) clear_login refl

quit_removes_example :
    uids (cmd_quit env marked_session).removed ≡ uids (doomed 1 (1 ∷ []) old_inbox)
unfolding cmd_quit update expunge finish sweep flag_marked is_new has add
quit_removes_example =
    quit_removes env marked_session 1 refl (λ e. absurd (omega arith)) (refl, (refl, tt)) refl

doomed_first : uids (doomed 1 (1 ∷ []) old_inbox) ≡ 1 ∷ []
unfolding has is_marked
doomed_first = refl

-- The marks of the old inbox remove the first message of the new one.
relogin_removes_example :
    uids (cmd_quit env (cmd_pass env marked_session (codes "secret")).session).removed
    ≡ uids (doomed 1 (1 ∷ []) new_inbox)
unfolding text_eq cmd_quit cmd_pass update expunge finish sweep flag_marked is_new has add
relogin_removes_example =
    relogin_removes env env marked_session (codes "secret") (codes "/mail") new_inbox 1 refl
      (λ e. absurd (omega (arith, ap length e))) refl refl (λ e. absurd (omega arith))
      (refl, (refl, tt)) refl

client_lines-dotted_example :
    client_lines 9 (dotted (codes ".hi") none ++ codes "+OK")
    ≡ some (map (trim_suffix 13) (sent_lines (codes ".hi") none), codes "+OK")
unfolding sections split_on cut join_with body_lines
client_lines-dotted_example = client_lines-dotted (codes ".hi") none 9 (codes "+OK") (omega arith)
