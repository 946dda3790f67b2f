-- ===== src/Pop3/Invariant.antt =====
-- What every POP3 session keeps: logins only over TLS, and marks that fit the frozen view.
use verta.Maildir.Mailbox.Expunging.{set_flags_same}
use verta.Common.{
  ◌⊎◌, ap, ℕ, zero, suc, ◌+◌, ◌-◌, ◌≤◌, ◌<◌, ◌≡◌, ◌≢◌, refl, Text, Bool, true, false, ◌||◌, not,
  List, [], ◌∷◌, Option, none, some, length, ℤ, pos, negsuc, get_elem?, atoi, arith, Bool-cases,
  Option-cases, inl, inr, map,
}
use verta.Maildir.Mailbox.{Message, set_flags}
use verta.Maildir.Flags.{deleted, add, seen, has, FlagSet}
use verta.Pop3.Session.{Error, Env, Session, Lookup, found, missing, is_marked, pick, message}
use verta.Pop3.Commands.{
  cmd_stls, cmd_user, cmd_pass, if_authd, cmd_stat, cmd_list, cmd_uidl, replace_at, flag_message,
  mark_seen, cmd_retr, preview, cmd_top, cmd_dele, cmd_rset, end_session, update, cmd_quit,
  flag_marked,
}
use verta.Pop3.Loop.{
  parse_line, Verb, dispatch, step, run, capa, stls, user, pass, stat_verb, list, uidl, retr, top,
  dele, rset, noop_verb, quit_verb, unknown,
}

-- Authenticated only over TLS.
abbrev pub is_secure : Session → Bool
is_secure s = not s.authd || s.tls

update_session :
    (e : Env) (s : Session)
    → (update e s).session ≡ record s { msgs = (flag_marked e 1 s.del s.msgs).0 }
unfolding update
update_session e s = ground arith

dispatch_secure :
    (e : Env) (s : Session) (v : Verb) (arg : Text)
    → is_secure s ≡ true
    → is_secure (dispatch e s v arg).session ≡ true
unfolding dispatch
dispatch_secure e s capa arg h = h
dispatch_secure e s stls arg h = unfold cmd_stls in ground arith
dispatch_secure e s user arg h = unfold cmd_user in ground arith
dispatch_secure e s pass arg h = unfold cmd_pass in ground arith
dispatch_secure e s stat_verb arg h = unfold cmd_stat if_authd in ground arith
dispatch_secure e s list arg h = unfold cmd_list if_authd in ground arith
dispatch_secure e s uidl arg h = unfold cmd_uidl if_authd in ground arith
dispatch_secure e s retr arg h = unfold cmd_retr if_authd in ground arith
dispatch_secure e s top arg h = unfold cmd_top if_authd in ground arith
dispatch_secure e s dele arg h = unfold cmd_dele if_authd in ground arith
dispatch_secure e s rset arg h = unfold cmd_rset if_authd in ground arith
dispatch_secure e s noop_verb arg h = h
dispatch_secure e s quit_verb arg h =
    unfold cmd_quit end_session in ground (arith, update_session e s)
dispatch_secure e s unknown arg h = h

step_secure :
    (e : Env) (s : Session) (line : Text)
    → is_secure s ≡ true
    → is_secure (step e s line).session ≡ true
unfolding step
step_secure e s line h = ground (arith, dispatch_secure e s (parse_line line).0 (parse_line line).1)

-- A session that is authenticated only over TLS stays so, whatever the lines and whatever the
-- accounts and files do.
pub run_secure :
    (s : Session) (lines : List (Env × Text)) → is_secure s ≡ true → is_secure (run s lines) ≡ true
unfolding run
run_secure s [] h = h
run_secure s ((e, line) ∷ lines) h = ground (
  arith,
  step_secure e s line h,
  run_secure (step e s line).session lines (step_secure e s line h),
)

-- The marks: distinct numbers of messages of a view of `n` messages.
abbrev pub FitMarks : ℕ → List ℕ → Type 0
FitMarks n [] = Unit
FitMarks n (d ∷ del) = (0 < d) × (d ≤ n) × (is_marked del d ≡ false) × FitMarks n del

-- The view: the messages' UIDs and sizes, in their order.
abbrev pub view : List Message → List (ℕ × ℕ)
view = map (λ m. (m.uid, m.size))

pick_found :
    (s : Session) (o : Option ℤ) (n : ℕ) (m : Message)
    → pick s o ≡ found n m
    → (0 < n) × (get_elem? s.msgs (n - 1) ≡ some m) × (is_marked s.del n ≡ false)
unfolding pick
pick_found s none n m h = cc
pick_found s (some (negsuc k)) n m h = cc
pick_found s (some (pos zero)) n m h = cc
pick_found s (some (pos (suc k))) n m h = ground arith

pub message_found :
    (s : Session) (arg : Text) (n : ℕ) (m : Message)
    → message s arg ≡ found n m
    → (0 < n) × (get_elem? s.msgs (n - 1) ≡ some m) × (is_marked s.del n ≡ false)
message_found s arg n m h = unfold message in pick_found s (atoi arg) n m h

get_elem?-lt : (ms : List Message) (i : ℕ) (m : Message) → get_elem? ms i ≡ some m → i < length ms
get_elem?-lt [] i m h = cc
get_elem?-lt (x ∷ ms) zero m h = omega arith
get_elem?-lt (x ∷ ms) (suc i) m h = omega (arith, get_elem?-lt ms i m h)

view-replace_at :
    (ms : List Message) (i : ℕ) (m m' : Message)
    → get_elem? ms i ≡ some m
    → m'.uid ≡ m.uid
    → m'.size ≡ m.size
    → view (replace_at i m' ms) ≡ view ms
unfolding replace_at
view-replace_at [] i m m' h u z = refl
view-replace_at (x ∷ ms) zero m m' h u z = ground arith
view-replace_at (x ∷ ms) (suc i) m m' h u z =
    ap (λ l. (x.uid, x.size) ∷ l) (view-replace_at ms i m m' h u z)

view-flag_message :
    (e : Env) (n : ℕ) (m : Message) (f : FlagSet) (ms : List Message)
    → get_elem? ms (n - 1) ≡ some m
    → view (flag_message e n m f ms) ≡ view ms
unfolding flag_message
view-flag_message e n m f ms h = elim (Option-cases (set_flags (e.rename_ok m) m f)) [
  | inl failed ↦ rw (failed, flag_message)
  | inr (m', set) ↦
      let (u, z, _) = set_flags_same (e.rename_ok m) m m' f set in
      rw (set, flag_message) (view-replace_at ms (n - 1) m m' h u z)
]

view-mark_seen :
    (e : Env) (n : ℕ) (m : Message) (ms : List Message)
    → get_elem? ms (n - 1) ≡ some m
    → view (mark_seen e n m ms) ≡ view ms
unfolding mark_seen
view-mark_seen e n m ms h = elim (Bool-cases (has m.flags seen)) [
  | inl old ↦ rw old
  | inr new ↦ rw new (view-flag_message e n m (add m.flags seen) ms h)
]

view-flag_marked :
    (e : Env) (i : ℕ) (del : List ℕ) (ms : List Message) → view (flag_marked e i del ms).0 ≡ view ms
unfolding flag_marked
view-flag_marked e i del [] = refl
view-flag_marked e i del (m ∷ ms) = ground (
  arith,
  view-flag_marked e (i + 1) del ms,
  set_flags_cases (e.rename_ok m) m (add m.flags deleted),
)
  where
    set_flags_cases :
        (ok : Bool) (m : Message) (f : FlagSet)
        → (set_flags ok m f ≡ none)
          ⊎ ((m' : Message) × (set_flags ok m f ≡ some m') × (m'.uid ≡ m.uid) × (m'.size ≡ m.size))
    set_flags_cases ok m f = elim (Option-cases (set_flags ok m f)) [
      | inl no_change ↦ inl no_change
      | inr (m', set) ↦
          inr (m', set, (set_flags_same ok m m' f set).0, (set_flags_same ok m m' f set).1)
    ]

-- The marks of a session fit its view.
abbrev pub FitsView : Session → Type 0
FitsView s = FitMarks (length (view s.msgs)) s.del

pub length-view : (ms : List Message) → length (view ms) ≡ length ms
length-view [] = refl
length-view (m ∷ ms) = ap suc (length-view ms)

abbrev pub Keeps : Session → Session → Type 0
Keeps s s' = (view s'.msgs ≡ view s.msgs) × FitsView s'

same_view :
    (s : Session) (ms : List Message)
    → view ms ≡ view s.msgs
    → FitsView s
    → Keeps s (record s { msgs = ms })
same_view s ms h f = (h, rw h f)

Lookup-cases :
    (o : Lookup) → ((n : ℕ) × (m : Message) × (o ≡ found n m)) ⊎ ((x : Error) × (o ≡ missing x))
Lookup-cases (found n m) = inl (n, m, refl)
Lookup-cases (missing x) = inr (x, refl)

retr-Keeps : (e : Env) (s : Session) (arg : Text) → FitsView s → Keeps s (cmd_retr e s arg).session
unfolding cmd_retr if_authd
retr-Keeps e s arg h = elim (Lookup-cases (message s arg)) [
  | inl (n, m, at) ↦
      let (_, there, _) = message_found s arg n m at in
      let marked : Keeps s (record s { msgs = mark_seen e n m s.msgs }) =
        same_view s (mark_seen e n m s.msgs) (view-mark_seen e n m s.msgs there) h in
      rw (at, cmd_retr) (ground (arith, marked))
  | inr (x, no_message) ↦ rw (no_message, cmd_retr) (ground (arith, h))
]

dele-Keeps : (s : Session) (arg : Text) → FitsView s → Keeps s (cmd_dele s arg).session
unfolding cmd_dele if_authd
dele-Keeps s arg h = elim (Lookup-cases (message s arg)) [
  | inl (n, m, at) ↦
      let (some_number, there, unmarked) = message_found s arg n m at in
      let below : n ≤ length (view s.msgs) =
        omega (arith, get_elem?-lt s.msgs (n - 1) m there, length-view s.msgs) in
      rw (at, cmd_dele) (ground (arith, h, below, some_number, unmarked))
  | inr (x, no_message) ↦ rw (no_message, cmd_dele) (ground (arith, h))
]

quit-Keeps : (e : Env) (s : Session) → FitsView s → Keeps s (cmd_quit e s).session
unfolding cmd_quit end_session
quit-Keeps e s h =
    let flagged : Keeps s (record s { msgs = (flag_marked e 1 s.del s.msgs).0 }) =
      same_view s _ (view-flag_marked e 1 s.del s.msgs) h in
    ground (arith, h, flagged, update_session e s)

-- Let the marks of a session be distinct numbers of its messages. After any command but PASS they
-- are so again, and the view has the same messages in the same order.
pub dispatch_keeps :
    (e : Env) (s : Session) (v : Verb) (arg : Text)
    → v ≢ pass
    → FitsView s
    → (view (dispatch e s v arg).session.msgs ≡ view s.msgs) × FitsView (dispatch e s v arg).session
unfolding dispatch
dispatch_keeps e s capa arg n h = (refl, h)
dispatch_keeps e s stls arg n h = unfold cmd_stls in ground (arith, h)
dispatch_keeps e s user arg n h = unfold cmd_user in ground (arith, h)
dispatch_keeps e s pass arg n h = absurd (n refl)
dispatch_keeps e s stat_verb arg n h = unfold cmd_stat if_authd in ground (arith, h)
dispatch_keeps e s list arg n h = unfold cmd_list if_authd in ground (arith, h)
dispatch_keeps e s uidl arg n h = unfold cmd_uidl if_authd in ground (arith, h)
dispatch_keeps e s retr arg n h = retr-Keeps e s arg h
dispatch_keeps e s top arg n h = unfold cmd_top preview if_authd in ground (arith, h)
dispatch_keeps e s dele arg n h = dele-Keeps s arg h
dispatch_keeps e s rset arg n h = unfold cmd_rset if_authd in ground (arith, h)
dispatch_keeps e s noop_verb arg n h = (refl, h)
dispatch_keeps e s quit_verb arg n h = quit-Keeps e s h
dispatch_keeps e s unknown arg n h = (refl, h)
