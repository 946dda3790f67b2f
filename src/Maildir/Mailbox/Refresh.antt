-- ===== src/Maildir/Mailbox/Refresh.antt =====
-- A refresh of a folder: every message has a UID that is its own for good, and the list written back
-- to disk is fit for the next refresh.
use mathlib.Core.Bool.{not, Bool, false≢true}
use verta.Common.{
  not, ◌||◌, ◌&&◌, ℕ, ◌+◌, ◌<◌, ◌≤◌, ◌≡◌, refl, sym, ◌∙◌, ap, Text, Dict, lookup, insert, true,
  false, if◌then◌else◌, List, [], ◌∷◌, Option, none, some, text_eq_iff, length, sort_by, Sorted,
  sort_by-Sorted, All, map, arith, lookup-insert, Option-cases, Bool-cases, inl, inr,
  length-sort_by, All-sort_by,
}
use verta.Maildir.Flags.{base_name}
use verta.Maildir.Mailbox.{
  Message, Found, UidList, Assignment, assign, uid_of, message_of, number_from, live_uids, refresh,
  u32_mod,
}
use verta.Maildir.Mailbox.Uids.{
  IsConsistent, Extends, new_uid, assign-none, assign-some, assign-Extends, HasUid,
}

-- A message's UID is the one that the list has for its base name.
abbrev Recorded : Dict ℕ → Message → Type 0
Recorded uids m = lookup (base_name m.name) uids ≡ some m.uid

message_of-Recorded :
    (uids : Dict ℕ) (e : Found) → HasUid uids e → Recorded uids (message_of uids e)
unfolding message_of uid_of
message_of-Recorded uids e (u, h) = ground (arith, h)

messages-Recorded :
    (uids : Dict ℕ) (found : List Found)
    → All (HasUid uids) found
    → All (Recorded uids) (map (message_of uids) found)
messages-Recorded uids [] h = tt
messages-Recorded uids (e ∷ found) h =
    (message_of-Recorded uids e h.0, messages-Recorded uids found h.1)

number_from-Recorded :
    (uids : Dict ℕ) (i : ℕ) (ms : List Message)
    → All (Recorded uids) ms
    → All (Recorded uids) (number_from i ms)
unfolding number_from
number_from-Recorded uids i [] h = tt
number_from-Recorded uids i (m ∷ ms) h = (h.0, number_from-Recorded uids (i + 1) ms h.1)

-- Every entry of the rewritten list stands in the old one.
live_uids-within :
    (uids live : Dict ℕ) (ms : List Message)
    → ((k : Text) (u : ℕ) → lookup k live ≡ some u → lookup k uids ≡ some u)
    → All (Recorded uids) ms
    → (k : Text) (u : ℕ) → lookup k (live_uids live ms) ≡ some u
    → lookup k uids ≡ some u
unfolding live_uids
live_uids-within uids live [] within h k u e = within k u e
live_uids-within uids live (m ∷ ms) within h k u e =
    live_uids-within uids (insert (base_name m.name) m.uid live) ms
      (λ j v f. ground (
        arith,
        h.0,
        lookup-insert (base_name m.name) j m.uid live,
        text_eq_iff (base_name m.name) j,
        within j v,
      ))
      h.1 k u e

IsConsistent-within :
    (uids live : Dict ℕ) (next : ℕ)
    → ((k : Text) (u : ℕ) → lookup k live ≡ some u → lookup k uids ≡ some u)
    → IsConsistent uids next
    → IsConsistent live next
IsConsistent-within uids live next within c = record {
  bounded = λ k u h. c.bounded k u (within k u h);
  injective = λ j k u h h'. c.injective j k u (within j u h) (within k u h');
}

assign_dirty :
    (a : Assignment) (found : List Found) → a.dirty ≡ true → (assign a found).dirty ≡ true
assign_dirty a [] h = unfold assign in h
assign_dirty a (e ∷ found) h = elim (Option-cases (lookup (base_name e.name) a.uids)) [
  | inl unknown ↦
      rw (assign-none a e found unknown) (assign_dirty (new_uid (base_name e.name) a) found refl)
  | inr (u, known) ↦ rw (assign-some a e found u known) (assign_dirty a found h)
]

-- A scan that finds no new message changes no UID.
assign_clean :
    (a : Assignment) (found : List Found) → (assign a found).dirty ≡ false → assign a found ≡ a
assign_clean a [] h = unfold assign in refl
assign_clean a (e ∷ found) h = elim (Option-cases (lookup (base_name e.name) a.uids)) [
  | inl unknown ↦ absurd (
      false≢true (
        sym h
        ∙ (ap (λ (b : Assignment). b.dirty) (assign-none a e found unknown)
            ∙ assign_dirty (new_uid (base_name e.name) a) found refl)))
  | inr (u, known) ↦
      assign-some a e found u known
      ∙ assign_clean a found
          (sym (ap (λ (b : Assignment). b.dirty) (assign-some a e found u known)) ∙ h)
]

-- A UID that was given out stays; a new one is not below the next one of before.
abbrev pub KeepsUid : ℕ → Option ℕ → ℕ → Type 0
KeepsUid next none uid = next ≤ uid
KeepsUid next (some u) uid = uid ≡ u

abbrev pub IsStable : UidList → ℕ → Message → Type 0
IsStable stored next m =
    (m.uid < next) × KeepsUid stored.next (lookup (base_name m.name) stored.uids) m.uid

Recorded-IsStable :
    (stored : UidList) (b : Assignment) (ms : List Message)
    → Extends (record { uids = stored.uids; next = stored.next; dirty = false }) b
    → All (Recorded b.uids) ms
    → All (IsStable stored b.next) ms
Recorded-IsStable stored b [] x h = tt
Recorded-IsStable stored b (m ∷ ms) x h = (
  (
    x.consistent.bounded (base_name m.name) m.uid h.0,
    keeps (lookup (base_name m.name) stored.uids) refl,
  ),
  Recorded-IsStable stored b ms x h.1,
)
  where
    keeps :
        (o : Option ℕ) → lookup (base_name m.name) stored.uids ≡ o → KeepsUid stored.next o m.uid
    keeps none e = x.fresh (base_name m.name) m.uid e h.0
    keeps (some u) e = ground (arith, h.0, x.kept (base_name m.name) u e)

number_from-Sorted :
    (i : ℕ) (ms : List Message) → Sorted (λ m. m.uid) ms → Sorted (λ m. m.uid) (number_from i ms)
unfolding number_from
number_from-Sorted i [] s = tt
number_from-Sorted i (m ∷ ms) s = (above (i + 1) ms s.0, number_from-Sorted (i + 1) ms s.1)
  where
    above :
        (i : ℕ) (ms : List Message)
        → All (λ x. m.uid ≤ x.uid) ms
        → All (λ x. m.uid ≤ x.uid) (number_from i ms)
    above i [] h = tt
    above i (x ∷ ms) h = (h.0, above (i + 1) ms h.1)

abbrev start : UidList → Assignment
start stored = record { uids = stored.uids; next = stored.next; dirty = false }

abbrev by_time : List Found → List Found
by_time scan = sort_by (λ e. e.mod_time) [] scan

nothing_there : (uids : Dict ℕ) (k : Text) (u : ℕ) → lookup k [] ≡ some u → lookup k uids ≡ some u
unfolding lookup
nothing_there uids k u e = cc

-- The UID list on disk after the scan.
abbrev written : Bool → UidList → Assignment → List Message → UidList
written wrote stored a ms =
    if a.dirty && wrote
    then record { uids = live_uids [] ms; validity = stored.validity; next = a.next }
    else stored

written-IsConsistent :
    (wrote : Bool) (stored : UidList) (a : Assignment) (ms : List Message)
    → IsConsistent stored.uids stored.next
    → (a.dirty ≡ false → a ≡ start stored)
    → All (Recorded a.uids) ms
    → IsConsistent a.uids a.next
    → IsConsistent (written wrote stored a ms).uids (written wrote stored a ms).next
      × ((not a.dirty || wrote) ≡ true → (written wrote stored a ms).next ≡ a.next)
      × ((not a.dirty || wrote) ≡ false → written wrote stored a ms ≡ stored)
written-IsConsistent wrote stored a ms before clean h c = elim (Bool-cases a.dirty) [
  | inl new ↦ elim (Bool-cases wrote) [
    | inl done ↦
        rw (new, done)
          (
            IsConsistent-within a.uids (live_uids [] ms) a.next
                (live_uids-within a.uids [] ms (nothing_there a.uids) h) c,
            λ k. refl,
            λ k. absurd (cc k),
          )
    | inr error ↦ rw (new, error) (before, λ k. absurd (cc k), λ k. refl)
  ]
  | inr old ↦ rw old (before, λ k. sym (ap (λ (b : Assignment). b.next) (clean old)), λ k. refl)
]

-- Let the UID list on disk be consistent, and the UIDs have room for the scanned files below
-- 2^32. After a refresh, also one that fails to write the list, the messages stand in the order
-- of their UIDs, below the next UID, which is not below the old one; a message that had a UID
-- keeps it, and a new one gets one from the old next UID on. The list on disk is consistent;
-- after a refresh without an error its next UID is that of the mailbox, and after one with an
-- error it is the list of before.
pub refresh_uids :
    (wrote : Bool) (stored : UidList) (scan : List Found)
    → IsConsistent stored.uids stored.next
    → stored.next + length scan < u32_mod
    → Sorted (λ m. m.uid) (refresh wrote stored scan).0.messages
      × All
          (IsStable stored (refresh wrote stored scan).0.uid_next)
          (refresh wrote stored scan).0.messages
      × (stored.next ≤ (refresh wrote stored scan).0.uid_next)
      × IsConsistent (refresh wrote stored scan).1.uids (refresh wrote stored scan).1.next
      × ((refresh wrote stored scan).2 ≡ true
          → (refresh wrote stored scan).1.next ≡ (refresh wrote stored scan).0.uid_next)
      × ((refresh wrote stored scan).2 ≡ false → (refresh wrote stored scan).1 ≡ stored)
unfolding refresh
refresh_uids wrote stored scan c room =
    let (x, have) =
      assign-Extends (start stored) (by_time scan) c
        (omega (arith, length-sort_by (λ (e : Found). e.mod_time) [] scan)) in
    let a : Assignment = assign (start stored) (by_time scan) in
    let ms : List Message = sort_by (λ m. m.uid) [] (map (message_of a.uids) (by_time scan)) in
    let known : All (Recorded a.uids) (number_from 0 ms) = number_from-Recorded a.uids 0 ms (
      All-sort_by (λ m. m.uid) (Recorded a.uids) [] _ tt
        (messages-Recorded a.uids (by_time scan) have)) in
    let (again, next, kept) =
      written-IsConsistent wrote stored a (number_from 0 ms) c
        (assign_clean (start stored) (by_time scan)) known x.consistent in
    (
      number_from-Sorted 0 ms (sort_by-Sorted (λ m. m.uid) [] _ tt),
      Recorded-IsStable stored a (number_from 0 ms) x known,
      x.grows,
      again,
      next,
      kept,
    )
