-- ===== src/Maildir/Examples.antt =====
-- The maildir theorems at a concrete file, and runs of the flag parser.
use verta.Common.{
  text_eq, trim_suffix, ◌++◌, text_eq_iff, ℕ, ◌≤◌, ◌≡◌, refl, Text, codes, cut, lookup, true, false,
  List, [], ◌∷◌, All, Sorted, arith,
}
use verta.Maildir.UidText.{write_uid_list, write_entries, show, read_uid_list}
use verta.Maildir.UidText.RoundTrip.{read_uid_list-written}
use verta.Maildir.Flags.{
  is_flag, collect, sort_flags, FlagSet, parse_flags, file_name, seen, deleted, imap_flags,
}
use verta.Maildir.Flags.Canonical.{Canonical}
use verta.Maildir.Mailbox.{in_new, in_cur, Message, Found, UidList, Mailbox, refresh}
use verta.Maildir.Mailbox.Uids.{IsConsistent}
use verta.Maildir.Mailbox.Refresh.{refresh_uids, IsStable}
use verta.Maildir.Delivery.{Calls}

abbrev base : Text
base = codes "1718.M1P2.host"

abbrev seen_deleted : FlagSet
seen_deleted = seen ∷ deleted ∷ []

parses : parse_flags (codes "1718.host:2,TSxS") ≡ seen_deleted
unfolding parse_flags cut sort_flags collect
parses = refl

renders : imap_flags seen_deleted true ≡ codes "\\Seen" ∷ codes "\\Deleted" ∷ codes "\\Recent" ∷ []
unfolding imap_flags
renders = refl

imap_length : codes "\\Seen" ≡ 92 ∷ codes "Seen"
imap_length = refl

seen_deleted-Canonical : Canonical seen_deleted
unfolding is_flag
seen_deleted-Canonical = (refl, (omega arith, tt), (refl, tt, tt))

abbrev calls : Calls
calls = record {
  made_dirs = true;
  opened = true;
  written = false;
  synced = true;
  closed = true;
  renamed = true;
}

abbrev stored : UidList
stored = record { uids = (base, 4) ∷ []; validity = 1; next = 5 }

abbrev scan : List Found
scan =
    record { name = codes "1720.M9P2.host"; sub = in_new; size = 90; mod_time = 7 }
    ∷ record { name = file_name base seen_deleted; sub = in_cur; size = 80; mod_time = 6 }
    ∷ []

stored-IsConsistent : IsConsistent stored.uids stored.next
unfolding lookup
stored-IsConsistent = record {
  bounded = λ k u h. ground arith;
  injective = λ j k u h h'.
      ground
        (arith, text_eq_iff base j, text_eq_iff base k, text_eq_iff j base, text_eq_iff k base);
}

refresh_uids_example :
    Sorted (λ m. m.uid) (refresh true stored scan).0.messages
    × All
        (IsStable stored (refresh true stored scan).0.uid_next)
        (refresh true stored scan).0.messages
    × (stored.next ≤ (refresh true stored scan).0.uid_next)
    × IsConsistent (refresh true stored scan).1.uids (refresh true stored scan).1.next
    × ((refresh true stored scan).2 ≡ true
        → (refresh true stored scan).1.next ≡ (refresh true stored scan).0.uid_next)
    × ((refresh true stored scan).2 ≡ false → (refresh true stored scan).1 ≡ stored)
refresh_uids_example = refresh_uids true stored scan stored-IsConsistent (omega arith)

abbrev file : ℕ → FlagSet → Message
file n flags = record {
  uid = n;
  seq = n;
  name = base;
  sub = in_cur;
  flags = flags;
  recent = false;
  size = 80;
  internal = 6;
}

abbrev folder : Mailbox
folder = record {
  messages = file 1 seen_deleted ∷ file 2 [] ∷ file 3 (deleted ∷ []) ∷ [];
  uid_validity = 1;
  uid_next = 4;
}

-- Two messages, the newer one first.
abbrev uid_list : UidList
uid_list = record { uids = (codes "b", 12) ∷ (codes "a c", 7) ∷ []; validity = 99; next = 13 }

write_uid_list_run :
    write_uid_list uid_list ≡ codes "V99 N13" ++ 10 ∷ codes "7 a c" ++ 10 ∷ codes "12 b" ++ 10 ∷ []
unfolding write_uid_list write_entries show
write_uid_list_run = refl

read_uid_list-written_example :
    ((read_uid_list 5 (write_uid_list uid_list)).validity ≡ 99)
    × ((read_uid_list 5 (write_uid_list uid_list)).next ≡ 13)
    × ((k : Text)
        → lookup k (read_uid_list 5 (write_uid_list uid_list)).uids ≡ lookup k uid_list.uids)
unfolding text_eq
read_uid_list-written_example =
    read_uid_list-written 5 uid_list (unfold lookup in (refl, (refl, tt)))
      (unfold trim_suffix in ((refl, refl, omega arith), ((refl, refl, omega arith), tt)))
      (omega arith) (omega arith) (omega arith)
