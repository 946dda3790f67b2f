-- ===== src/Maildir/UidText/Entries.antt =====
-- The lines of the UID list of internal/maildir/mailbox.go, written and read back.
use verta.Common.{
  ℕ, ◌≤◌, ◌≡◌, refl, sym, ap, ◌∙◌, Text, Dict, Distinct, lookup, insert, lookup-insert, text_eq,
  text_eq_iff, false, List, [], ◌∷◌, ◌++◌, Option, none, some, cut-byte, has_byte, has_byte-append,
  trim_suffix, arith, Bool-cases, Option-cases, inl, inr, ◌==◌, All, is_digit,
}
use mathlib.Core.List.{append_assoc, append-nil}
use verta.Maildir.UidText.{
  show, lines_from, max_u32, parse_u32, parse_entry, entry_of, read_entries, write_entries,
}
use verta.Maildir.UidText.Decimals.{show_cons, parse_u32-show, show-has_byte}

-- A base name that a line of the file can hold, and a UID that fits.
abbrev pub Writable : Text × ℕ → Type 0
Writable (base, uid) =
    (has_byte 10 base ≡ false) × (trim_suffix 13 (32 ∷ base) ≡ 32 ∷ base) × (uid ≤ max_u32)

pub lines_from-line :
    (line l rest : Text)
    → has_byte 10 l ≡ false
    → lines_from line (l ++ 10 ∷ rest) ≡ trim_suffix 13 (line ++ l) ∷ lines_from [] rest
unfolding lines_from
lines_from-line line [] rest h =
    ap (λ m. trim_suffix 13 m ∷ lines_from [] rest) (sym (append-nil line))
lines_from-line line (c ∷ l) rest h =
    let e : (c == 10) ≡ false = ground (arith, h) in
    let later : has_byte 10 l ≡ false = ground (arith, h) in
    rw (lines_from, e)
      (lines_from-line (line ++ c ∷ []) l rest later
        ∙ ap (λ m. trim_suffix 13 m ∷ lines_from [] rest) (append_assoc line (c ∷ []) l))

trim_suffix-append :
    (b : ℕ) (s : Text) (c : ℕ) (t : Text) → trim_suffix b (s ++ c ∷ t) ≡ s ++ trim_suffix b (c ∷ t)
unfolding trim_suffix
trim_suffix-append b [] c t = refl
trim_suffix-append b (d ∷ []) c t = refl
trim_suffix-append b (d ∷ x ∷ s) c t = ap (λ l. d ∷ l) (trim_suffix-append b (x ∷ s) c t)

entry_of_cons :
    (s : Text) (c : ℕ) (u base : Text) (uid : ℕ)
    → s ≡ c ∷ u
    → parse_u32 s ≡ some uid
    → entry_of s base ≡ some (base, uid)
unfolding entry_of
entry_of_cons [] c u base uid e h = cc
entry_of_cons (d ∷ s) c u base uid e h = rw (entry_of, h) refl

parse_entry-written :
    (base : Text) (uid : ℕ) → uid ≤ max_u32 → parse_entry (show uid ++ 32 ∷ base) ≡ some (base, uid)
unfolding parse_entry
parse_entry-written base uid h =
    rw (parse_entry, cut-byte 32 (show uid) base (show-has_byte 32 uid (unfold is_digit in refl)))
      (entry_of_cons (show uid) (show_cons uid).0 (show_cons uid).1 base uid (show_cons uid).2
        (parse_u32-show uid h))

-- The first line of the entries, and the others.
lines_from-entry :
    (base rest : Text) (uid : ℕ)
    → Writable (base, uid)
    → lines_from [] (show uid ++ 32 ∷ (base ++ 10 ∷ rest))
      ≡ (show uid ++ 32 ∷ base) ∷ lines_from [] rest
lines_from-entry base rest uid w =
    ap (lines_from []) (sym (append_assoc (show uid) (32 ∷ base) (10 ∷ rest)))
    ∙ lines_from-line [] (show uid ++ 32 ∷ base) rest (
        has_byte-append 10 (show uid) (32 ∷ base) (show-has_byte 10 uid (unfold is_digit in refl))
          w.0)
    ∙ ap (λ l. l ∷ lines_from [] rest)
        (trim_suffix-append 13 (show uid) 32 base ∙ ap (λ l. show uid ++ l) w.1)

-- What a map has after the entries were set in it.
abbrev pub found_in : Text → Dict ℕ → Dict ℕ → Option ℕ
found_in k entries uids = elim (lookup k entries) [ some u ↦ some u | none ↦ lookup k uids ]

found_in-insert :
    (uids entries : Dict ℕ) (base k : Text) (uid : ℕ)
    → lookup base entries ≡ none
    → found_in k entries (insert base uid uids) ≡ found_in k ((base, uid) ∷ entries) uids
unfolding lookup
found_in-insert uids entries base k uid d = elim (Bool-cases (text_eq base k)) [
  | inl same ↦
      let missing : lookup k entries ≡ none =
        ap (λ j. lookup j entries) (sym ((text_eq_iff base k).0 same)) ∙ d in
      rw (found_in, missing, lookup-insert base k uid uids, same) refl
  | inr other ↦ elim (Option-cases (lookup k entries)) [
    | inl missing ↦ rw (found_in, lookup, other, missing, lookup-insert base k uid uids, other) refl
    | inr (u, hit) ↦ rw (found_in, lookup, other, hit) refl
  ]
]

read_entries-line :
    (uids : Dict ℕ) (line base : Text) (lines : List Text) (uid : ℕ)
    → parse_entry line ≡ some (base, uid)
    → read_entries uids (line ∷ lines) ≡ read_entries (insert base uid uids) lines
unfolding read_entries
read_entries-line uids line base lines uid h = rw (read_entries, h) refl

pub read_entries-written :
    (uids entries : Dict ℕ)
    → All Writable entries
    → (k : Text) → Distinct entries
    → lookup k (read_entries uids (lines_from [] (write_entries entries))) ≡ found_in k entries uids
unfolding write_entries read_entries lookup lines_from
read_entries-written uids [] w k d = refl
read_entries-written uids ((base, uid) ∷ entries) w k d =
    ap (λ l. lookup k (read_entries uids l)) (lines_from-entry base (write_entries entries) uid w.0)
    ∙ ap (lookup k) (
        read_entries-line uids (show uid ++ 32 ∷ base) base (lines_from [] (write_entries entries))
          uid (parse_entry-written base uid w.0.2))
    ∙ read_entries-written (insert base uid uids) entries w.1 k d.1
    ∙ found_in-insert uids entries base k uid d.0
