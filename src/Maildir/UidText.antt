-- ===== src/Maildir/UidText.antt =====
-- The text form of the UID list: readUIDList and writeUIDList of internal/maildir/mailbox.go. That a line
-- may be too long for the scanner is not modelled.
pub mod Decimals
mod Entries
mod ByUid
pub mod RoundTrip
use verta.Common.{
  ℕ, zero, suc, ◌+◌, ◌/◌, ◌%◌, Text, codes, Dict, insert, Bool, true, false, ◌&&◌, ◌||◌, not, ◌==◌,
  if◌then◌else◌, List, [], ◌∷◌, ◌++◌, Option, none, some, ltb, has_prefix, drop, cut, decimal,
  within, sort_by, trim_suffix,
}
use verta.Smtp.Parsing.{fields_from}
use verta.Maildir.Mailbox.{UidList}

-- A number in decimal, as %d writes it; the fuel is more than the number has digits.
unfoldable pub show_digits : ℕ → ℕ → Text
show_digits zero n = []
show_digits (suc fuel) n = elim (ltb n 10) [
  | true ↦ (b'0' + n) ∷ []
  | false ↦ show_digits fuel (n / 10) ++ (b'0' + n % 10) ∷ []
]

unfoldable pub show : ℕ → Text
unfolding show_digits
show n = show_digits (suc n) n

-- The lines of a file as bufio.Scanner gives them, with the bytes of the line read so far.
unfoldable pub lines_from : Text → Text → List Text
unfolding trim_suffix
lines_from [] [] = []
lines_from (b ∷ line) [] = trim_suffix 13 (b ∷ line) ∷ []
lines_from line (c ∷ s) = elim (c == 10) [
  | true ↦ trim_suffix 13 line ∷ lines_from [] s
  | false ↦ lines_from (line ++ c ∷ []) s
]

abbrev pub max_u32 : ℕ
max_u32 = 4294967295

-- strconv.ParseUint with base 10 and 32 bits.
unfoldable pub parse_u32 : Text → Option ℕ
unfolding decimal within
parse_u32 s = within max_u32 (decimal s)

-- UIDVALIDITY and the next UID, from the words of the first line.
unfoldable pub parse_header : List Text → Option (ℕ × ℕ)
unfolding parse_u32 has_prefix
parse_header (v ∷ n ∷ []) =
    if not (has_prefix (codes "V") v) || not (has_prefix (codes "N") n)
    then none
    else elim (parse_u32 (drop 1 v)) [
      | none ↦ none
      | some validity ↦ elim (parse_u32 (drop 1 n)) [
        | none ↦ none
        | some next ↦ if ltb next 1 then none else some (validity, next)
      ]
    ]
parse_header _ = none

-- A UID and a base name; a line without a space, or that begins with one, is skipped.
unfoldable pub entry_of : Text → Text → Option (Text × ℕ)
unfolding parse_u32
entry_of [] base = none
entry_of (c ∷ number) base = elim (parse_u32 (c ∷ number)) [
  | none ↦ none
  | some uid ↦ some (base, uid)
]

unfoldable pub parse_entry : Text → Option (Text × ℕ)
unfolding cut entry_of
parse_entry line = elim (cut (codes " ") line) [
  | none ↦ none
  | some (number, base) ↦ entry_of number base
]

unfoldable pub read_entries : Dict ℕ → List Text → Dict ℕ
unfolding parse_entry insert
read_entries uids [] = uids
read_entries uids (line ∷ lines) = elim (parse_entry line) [
  | none ↦ read_entries uids lines
  | some (base, uid) ↦ read_entries (insert base uid uids) lines
]

abbrev pub fresh_list : ℕ → UidList
fresh_list validity = record { uids = []; validity = validity; next = 1 }

-- readUIDList of a file that exists; the first argument is a fresh UIDVALIDITY.
unfoldable pub read_uid_list : ℕ → Text → UidList
unfolding lines_from parse_header fields_from read_entries
read_uid_list validity s = elim (lines_from [] s) [
  | [] ↦ fresh_list validity
  | header ∷ lines ↦ elim (parse_header (fields_from [] header)) [
    | none ↦ fresh_list validity
    | some (v, next) ↦ record { uids = read_entries [] lines; validity = v; next = next }
  ]
]

unfoldable pub write_entries : Dict ℕ → Text
write_entries [] = []
write_entries ((base, uid) ∷ uids) = show uid ++ 32 ∷ (base ++ 10 ∷ write_entries uids)

-- writeUIDList: what is written to the file.
unfoldable pub write_uid_list : UidList → Text
unfolding write_entries sort_by
write_uid_list l =
    b'V'
    ∷ (show l.validity
        ++ 32 ∷ b'N' ∷ (show l.next ++ 10 ∷ write_entries (sort_by (λ e. e.1) [] l.uids)))
