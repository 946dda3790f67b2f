-- ===== src/Maildir/Mailbox.antt =====
-- internal/maildir/mailbox.go: one folder with its UIDs. The directory listing of a refresh, the
-- results of the renames and removals of the file system, and a fresh UIDVALIDITY are arguments;
-- the messages of one mailbox share root and folder, which are left out.
pub mod Uids
pub mod Refresh
pub mod Expunging
use verta.Common.{
  ◌||◌, ℕ, zero, suc, ◌+◌, ◌%◌, ◌^◌, Text, Dict, lookup, insert, Bool, true, false, ◌&&◌, not,
  if◌then◌else◌, List, [], ◌∷◌, ◌++◌, Option, none, some, text_eq, length, sort_by, reverse, map,
  ltb,
}
use verta.Maildir.Flags.{FlagSet, has, deleted, seen, parse_flags, base_name, file_name}

-- The subdirectory of a message file.
pub data Sub : Type 0 where
  in_new in_cur : Sub

unfoldable pub is_new : Sub → Bool
is_new in_new = true
is_new in_cur = false

pub record Message : Type 0 where
  pub uid : ℕ
  pub seq : ℕ
  pub name : Text
  pub sub : Sub
  pub flags : FlagSet
  pub recent : Bool
  pub size : ℕ
  pub internal : ℕ

-- One file found by a scan of new/ and cur/.
pub record Found : Type 0 where
  pub name : Text
  pub sub : Sub
  pub size : ℕ
  pub mod_time : ℕ

-- The contents of verta-uidlist.
pub record UidList : Type 0 where
  pub uids : Dict ℕ
  pub validity : ℕ
  pub next : ℕ

pub record Mailbox : Type 0 where
  pub messages : List Message
  pub uid_validity : ℕ
  pub uid_next : ℕ

abbrev pub u32_mod : ℕ
u32_mod = 2 ^ 32

-- The UIDs, the next one, and whether any was given out.
pub record Assignment : Type 0 where
  pub uids : Dict ℕ
  pub next : ℕ
  pub dirty : Bool

unfoldable pub assign : Assignment → List Found → Assignment
assign a [] = a
assign a (e ∷ found) =
    assign
      (elim (lookup (base_name e.name) a.uids) [
        | none ↦ record {
          uids = insert (base_name e.name) a.next a.uids;
          next = (a.next + 1) % u32_mod;
          dirty = true;
        }
        | some u ↦ a
      ])
      found

-- `uids[base]`, which is 0 for a missing key.
unfoldable pub uid_of : Dict ℕ → Text → ℕ
uid_of uids base = elim (lookup base uids) [ none ↦ 0 | some u ↦ u ]

unfoldable pub message_of : Dict ℕ → Found → Message
message_of uids e = record {
  uid = uid_of uids (base_name e.name);
  seq = 0;
  name = e.name;
  sub = e.sub;
  flags = parse_flags e.name;
  recent = is_new e.sub;
  size = e.size;
  internal = e.mod_time;
}

-- `for i, m := range msgs { m.Seq = uint32(i + 1) }`
unfoldable pub number_from : ℕ → List Message → List Message
number_from i [] = []
number_from i (m ∷ ms) = record m { seq = (i + 1) % u32_mod } ∷ number_from (i + 1) ms

unfoldable pub live_uids : Dict ℕ → List Message → Dict ℕ
live_uids live [] = live
live_uids live (m ∷ ms) = live_uids (insert (base_name m.name) m.uid live) ms

-- Refresh after its reads; the first argument is whether a UID list is written. The mailbox, the UID
-- list on disk after it, and whether no error is returned.
unfoldable pub refresh : Bool → UidList → List Found → Mailbox × UidList × Bool
refresh wrote stored scan =
    let found = sort_by (λ e. e.mod_time) [] scan in
    let a = assign (record { uids = stored.uids; next = stored.next; dirty = false }) found in
    let msgs = number_from 0 (sort_by (λ m. m.uid) [] (map (message_of a.uids) found)) in
    (
      record { messages = msgs; uid_validity = stored.validity; uid_next = a.next },
      if a.dirty && wrote
          then record { uids = live_uids [] msgs; validity = stored.validity; next = a.next }
          else stored,
      not a.dirty || wrote,
    )

-- SetFlags; the first argument is whether a rename succeeds.
unfoldable pub set_flags : Bool → Message → FlagSet → Option Message
set_flags renamed m f =
    let new_name = file_name (base_name m.name) f in
    let m' = record m { name = new_name; sub = in_cur; flags = f; recent = false } in
    if not (is_new m.sub) && text_eq m.name new_name
    then some m'
    else if renamed
    then some m'
    else none

-- The loop of Expunge over the messages: the sequence numbers removed, the messages kept and the
-- files removed, and whether the loop ended without an error. `gone m` is whether the removal of a
-- file succeeds or finds it missing.
pub record Sweep : Type 0 where
  pub seqs : List ℕ
  pub kept : List Message
  pub removed : List Message
  pub finished : Bool

unfoldable pub sweep : (Message → Bool) → List Message → Sweep
sweep gone [] = record { seqs = []; kept = []; removed = []; finished = true }
sweep gone (m ∷ ms) =
    let rest = sweep gone ms in
    if has m.flags deleted
    then (if gone m
        then record rest { seqs = m.seq ∷ rest.seqs; removed = m ∷ rest.removed }
        else record { seqs = []; kept = []; removed = []; finished = false })
    else record rest { kept = m ∷ rest.kept }

-- What Expunge does after its loop.
unfoldable pub finish : Mailbox → Sweep → Option (List ℕ) × Mailbox × List Message
finish mb s = if not s.finished then (none, mb, s.removed) else elim s.seqs [
  | [] ↦ (some [], mb, s.removed)
  | x ∷ xs ↦ (
    some (reverse (sort_by (λ n. n) [] (x ∷ xs))),
    record mb { messages = number_from 0 s.kept },
    s.removed,
  )
]

-- The sequence numbers removed, none on an error; the mailbox; the files removed from disk.
unfoldable pub expunge : (Message → Bool) → Mailbox → Option (List ℕ) × Mailbox × List Message
expunge gone mb = finish mb (sweep gone mb.messages)
