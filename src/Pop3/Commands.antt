-- ===== src/Pop3/Commands.antt =====
-- internal/pop3/pop3.go: the commands.
use verta.Common.{
  ℕ, zero, suc, ◌+◌, ◌-◌, Text, cut, trim_space, text_eq, true, false, ◌||◌, not, ◌==◌,
  if◌then◌else◌, List, [], ◌∷◌, none, some, length, pos, negsuc, sub_ℕ, atoi,
}
use verta.Maildir.Flags.{FlagSet, has, add, seen, deleted, base_name}
use verta.Maildir.Mailbox.{Message, Mailbox, set_flags, expunge}
use verta.Pop3.Dots.{dotted}
use verta.Pop3.Session.{
  Env, Reply, Session, Outcome, answer, is_marked, count_from, total_size, scan_from, uids_from,
  message, err, begin_tls, send_pass, closing, mailbox_ready, stat, maildrop, scan, unique_id,
  listing, uid_listing, content, marked, closing_deleted, found, missing, tls_unavailable,
  already_tls, stls_required, needs_username, user_first, auth_failed, cannot_open,
  not_authenticated, cannot_read, top_usage, invalid_count, not_removed,
}

unfoldable pub cmd_stls : Env → Session → Outcome
cmd_stls e s =
    if not e.tls_available
    then answer s (err tls_unavailable)
    else if s.tls
    then answer s (err already_tls)
    else if not e.reply_sent
    then record { session = s; replies = []; quit = true; removed = [] }
    else if not e.handshake_ok
    then record { session = s; replies = begin_tls ∷ []; quit = true; removed = [] }
    else answer (record s { tls = true; user = []; authd = false }) begin_tls

unfoldable pub cmd_user : Session → Text → Outcome
cmd_user s arg =
    if not s.tls
    then answer s (err stls_required)
    else if text_eq arg []
    then answer s (err needs_username)
    else answer (record s { user = arg }) send_pass

-- The view of the mailbox is frozen here.
unfoldable pub log_in : Session → Text → List Message → Outcome
log_in s root msgs =
    let s' = record s { root = root; msgs = msgs; authd = true } in
    answer s' (mailbox_ready (length msgs) (total_size s'))

unfoldable pub cmd_pass : Env → Session → Text → Outcome
unfolding log_in
cmd_pass e s arg =
    if not s.tls
    then answer s (err stls_required)
    else if text_eq s.user []
    then answer s (err user_first)
    else elim (e.authenticate s.user arg s.ip) [
      | none ↦ answer (record s { user = [] }) (err auth_failed)
      | some root ↦ elim (e.open_mailbox root) [
        | none ↦ answer s (err cannot_open)
        | some msgs ↦ log_in s root msgs
      ]
    ]

-- A command of the transaction state.
unfoldable pub if_authd : Session → Outcome → Outcome
if_authd s o = if not s.authd then answer s (err not_authenticated) else o

unfoldable pub cmd_stat : Session → Outcome
cmd_stat s = if_authd s (answer s (stat (count_from 1 s.del s.msgs) (total_size s)))

unfoldable pub cmd_list : Session → Text → Outcome
cmd_list s arg = if_authd s (
    if text_eq arg []
    then answer s (listing (sub_ℕ (length s.msgs) (length s.del)) (scan_from 1 s.del s.msgs))
    else elim (message s arg) [
      | missing x ↦ answer s (err x)
      | found n m ↦ answer s (scan n m.size)
    ])

unfoldable pub cmd_uidl : Env → Session → Text → Outcome
cmd_uidl e s arg = if_authd s (
    if text_eq arg []
    then answer s (uid_listing (uids_from e.md5_hex 1 s.del s.msgs))
    else elim (message s arg) [
      | missing x ↦ answer s (err x)
      | found n m ↦ answer s (unique_id n (e.md5_hex (base_name m.name)))
    ])

-- A message of the view replaced by another, at an index from 0.
unfoldable pub replace_at : ℕ → Message → List Message → List Message
replace_at i m [] = []
replace_at zero m (x ∷ ms) = m ∷ ms
replace_at (suc i) m (x ∷ ms) = x ∷ replace_at i m ms

-- SetFlags on the message numbered `n`; nothing changes if it fails.
unfoldable pub flag_message : Env → ℕ → Message → FlagSet → List Message → List Message
flag_message e n m f ms = elim (set_flags (e.rename_ok m) m f) [
  | none ↦ ms
  | some m' ↦ replace_at (n - 1) m' ms
]

unfoldable pub mark_seen : Env → ℕ → Message → List Message → List Message
unfolding flag_message
mark_seen e n m ms = if has m.flags seen then ms else flag_message e n m (add m.flags seen) ms

unfoldable pub cmd_retr : Env → Session → Text → Outcome
unfolding mark_seen
cmd_retr e s arg = if_authd s (elim (message s arg) [
  | missing x ↦ answer s (err x)
  | found n m ↦ elim (e.read_file m) [
    | none ↦ answer s (err cannot_read)
    | some text ↦
        answer (record s { msgs = mark_seen e n m s.msgs })
          (content (some (length text)) (dotted text none))
  ]
])

unfoldable pub preview : Env → Session → Text → ℕ → Outcome
preview e s num_str n = elim (message s (trim_space num_str)) [
  | missing x ↦ answer s (err x)
  | found i m ↦ elim (e.read_file m) [
    | none ↦ answer s (err cannot_read)
    | some text ↦ answer s (content none (dotted text (some n)))
  ]
]

unfoldable pub cmd_top : Env → Session → Text → Outcome
unfolding preview
cmd_top e s arg = if_authd s (elim (cut (32 ∷ []) arg) [
  | none ↦ answer s (err top_usage)
  | some (num_str, lines_str) ↦ elim (atoi (trim_space lines_str)) [
    | none ↦ answer s (err invalid_count)
    | some (negsuc k) ↦ answer s (err invalid_count)
    | some (pos n) ↦ preview e s num_str n
  ]
])

unfoldable pub cmd_dele : Session → Text → Outcome
cmd_dele s arg = if_authd s (elim (message s arg) [
  | missing x ↦ answer s (err x)
  | found n m ↦ answer (record s { del = n ∷ s.del }) (marked n)
])

unfoldable pub cmd_rset : Session → Outcome
cmd_rset s =
    if_authd s
      (let s' = record s { del = [] } in answer s' (maildrop (length s.msgs) (total_size s')))

-- The loop of cmdQuit: the marked messages get the Deleted flag, where the rename succeeds; with the
-- number of those.
unfoldable pub flag_marked : Env → ℕ → List ℕ → List Message → List Message × ℕ
unfolding set_flags is_marked
flag_marked e i del [] = ([], 0)
flag_marked e i del (m ∷ ms) =
    let (rest, n) = flag_marked e (i + 1) del ms in
    if is_marked del i
    then (elim (set_flags (e.rename_ok m) m (add m.flags deleted)) [
      | none ↦ (m ∷ rest, n)
      | some m' ↦ (m' ∷ rest, n + 1)
    ])
    else (m ∷ rest, n)

unfoldable pub end_session : Session → Reply → List Message → Outcome
end_session s r removed = record { session = s; replies = r ∷ []; quit = true; removed = removed }

unfoldable pub update : Env → Session → Outcome
unfolding end_session
update e s =
    let flagged = flag_marked e 1 s.del s.msgs in
    let mb : Mailbox = record { messages = flagged.0; uid_validity = 0; uid_next = 0 } in
    let done = expunge e.gone mb in
    elim done.0 [
      | none ↦ end_session (record s { msgs = flagged.0 }) (err not_removed) done.2
      | some seqs ↦ end_session (record s { msgs = flagged.0 }) (closing_deleted flagged.1) done.2
    ]

unfoldable pub cmd_quit : Env → Session → Outcome
cmd_quit e s = if not s.authd || length s.del == 0 then end_session s closing [] else update e s
