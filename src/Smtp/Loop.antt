-- ===== src/Smtp/Loop.antt =====
-- The command loop of internal/smtp/session.go.
use verta.Common.{
  Text, codes, true, false, if◌then◌else◌, List, [], ◌∷◌, ◌++◌, none, some, text_eq, to_upper, cut,
}
use verta.Smtp.Session.{Session, Env, line, line_with, Effect, Outcome, answer, reset_transaction}
use verta.Smtp.Commands.{cmd_helo, cmd_starttls, cmd_auth, cmd_mail, cmd_rcpt}
use verta.Smtp.Data.{cmd_data}

pub data Verb : Type 0 where
  helo ehlo starttls mail rcpt data_verb rset noop quit_verb disabled auth help unknown : Verb

unfoldable pub verb : Text → Verb
verb cmd =
    if text_eq cmd (codes "HELO")
    then helo
    else if text_eq cmd (codes "EHLO")
    then ehlo
    else if text_eq cmd (codes "STARTTLS")
    then starttls
    else if text_eq cmd (codes "MAIL")
    then mail
    else if text_eq cmd (codes "RCPT")
    then rcpt
    else if text_eq cmd (codes "DATA")
    then data_verb
    else if text_eq cmd (codes "RSET")
    then rset
    else if text_eq cmd (codes "NOOP")
    then noop
    else if text_eq cmd (codes "QUIT")
    then quit_verb
    else if text_eq cmd (codes "VRFY")
    then disabled
    else if text_eq cmd (codes "EXPN")
    then disabled
    else if text_eq cmd (codes "AUTH")
    then auth
    else if text_eq cmd (codes "HELP")
    then help
    else unknown

unfoldable pub dispatch : Env → Session → Verb → Text → Outcome
dispatch e s helo arg = cmd_helo e s arg false
dispatch e s ehlo arg = cmd_helo e s arg true
dispatch e s starttls arg = cmd_starttls e s
dispatch e s mail arg = cmd_mail e s arg
dispatch e s rcpt arg = cmd_rcpt e s arg
dispatch e s data_verb arg = cmd_data e s
dispatch e s rset arg = answer (reset_transaction s) (line "250 2.0.0 OK")
dispatch e s noop arg = answer s (line "250 2.0.0 OK")
dispatch e s quit_verb arg = record (answer s (line_with "221 2.0.0" e.set.hostname)) {
  quit = true;
}
dispatch e s disabled arg = answer s (line "502 5.5.1 command disabled")
dispatch e s auth arg = cmd_auth e s arg
dispatch e s help arg = answer s (line "214 2.0.0 see RFC 5321")
dispatch e s unknown arg = answer s (line "500 5.5.1 command not recognized")

unfoldable pub parse_line : Text → Verb × Text
parse_line l = elim (cut (codes " ") l) [
  | none ↦ (verb (to_upper l), [])
  | some (cmd, arg) ↦ (verb (to_upper cmd), arg)
]

-- One line of the loop in `run`, without its line end; an empty line is skipped.
unfoldable pub step : Env → Session → Text → Outcome
step e s [] = record { session = s; replies = []; quit = false; effects = [] }
step e s (c ∷ l) = dispatch e s (parse_line (c ∷ l)).0 (parse_line (c ∷ l)).1

-- The session after some lines, and all it did on the way; it stays as it is once it has ended.
unfoldable pub run : Session → List (Env × Text) → Session × List Effect
run s [] = (s, [])
run s ((e, l) ∷ lines) =
    let next = run (step e s l).session lines in
    if (step e s l).quit
    then ((step e s l).session, (step e s l).effects)
    else (next.0, (step e s l).effects ++ next.1)
