-- ===== src/Pop3/Loop.antt =====
-- internal/pop3/pop3.go: the command loop.
use verta.Common.{
  Text, codes, cut, trim_space, to_upper, text_eq, false, ◌&&◌, not, if◌then◌else◌, List, [], ◌∷◌,
  none, some,
}
use verta.Pop3.Session.{Env, Session, Outcome, answer, err, capabilities, noop, unknown_command}
use verta.Pop3.Commands.{
  cmd_stls, cmd_user, cmd_pass, cmd_stat, cmd_list, cmd_uidl, cmd_retr, cmd_top, cmd_dele, cmd_rset,
  cmd_quit,
}

pub data Verb : Type 0 where
  capa stls user pass stat_verb list uidl retr top dele rset noop_verb quit_verb : Verb
  unknown : Verb

unfoldable pub verb : Text → Verb
verb cmd =
    if text_eq cmd (codes "CAPA")
    then capa
    else if text_eq cmd (codes "STLS")
    then stls
    else if text_eq cmd (codes "USER")
    then user
    else if text_eq cmd (codes "PASS")
    then pass
    else if text_eq cmd (codes "STAT")
    then stat_verb
    else if text_eq cmd (codes "LIST")
    then list
    else if text_eq cmd (codes "UIDL")
    then uidl
    else if text_eq cmd (codes "RETR")
    then retr
    else if text_eq cmd (codes "TOP")
    then top
    else if text_eq cmd (codes "DELE")
    then dele
    else if text_eq cmd (codes "RSET")
    then rset
    else if text_eq cmd (codes "NOOP")
    then noop_verb
    else if text_eq cmd (codes "QUIT")
    then quit_verb
    else unknown

unfoldable pub dispatch : Env → Session → Verb → Text → Outcome
dispatch e s capa arg = answer s (capabilities (not s.tls && e.tls_available))
dispatch e s stls arg = cmd_stls e s
dispatch e s user arg = cmd_user s arg
dispatch e s pass arg = cmd_pass e s arg
dispatch e s stat_verb arg = cmd_stat s
dispatch e s list arg = cmd_list s arg
dispatch e s uidl arg = cmd_uidl e s arg
dispatch e s retr arg = cmd_retr e s arg
dispatch e s top arg = cmd_top e s arg
dispatch e s dele arg = cmd_dele s arg
dispatch e s rset arg = cmd_rset s
dispatch e s noop_verb arg = answer s noop
dispatch e s quit_verb arg = cmd_quit e s
dispatch e s unknown arg = answer s (err unknown_command)

-- `strings.Cut(line, " ")`, with the verb in upper case and the argument trimmed.
unfoldable pub parse_line : Text → Verb × Text
parse_line line = elim (cut (32 ∷ []) line) [
  | none ↦ (verb (to_upper line), trim_space [])
  | some (cmd, arg) ↦ (verb (to_upper cmd), trim_space arg)
]

-- One line of the loop in `run`, without its line end; a blank line is skipped.
unfoldable pub step : Env → Session → Text → Outcome
step e s line =
    if text_eq (trim_space line) []
    then record { session = s; replies = []; quit = false; removed = [] }
    else dispatch e s (parse_line line).0 (parse_line line).1

-- The session after some lines; it stays as it is once it has ended.
unfoldable pub run : Session → List (Env × Text) → Session
run s [] = s
run s ((e, line) ∷ lines) =
    let next = run (step e s line).session lines in
    if (step e s line).quit then (step e s line).session else next
