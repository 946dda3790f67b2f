-- ===== src/Maildir/UidText/RoundTrip.antt =====
-- That the UID list that internal/maildir/mailbox.go writes is read back.
use verta.Common.{
  has_prefix, any, ℕ, ◌≤◌, ◌<◌, ◌≡◌, refl, sym, ap, ◌∙◌, Text, Distinct, lookup, false,
  if◌then◌else◌, ltb, [], ◌∷◌, ◌++◌, Option, none, some, has_byte, has_byte-append, trim_suffix,
  arith, sort_by, All, All-sort_by, is_space, is_digit,
}
use mathlib.Core.List.{append_assoc, append-nil}
use verta.Smtp.Parsing.{fields_from}
use verta.Maildir.Mailbox.{UidList}
use verta.Maildir.UidText.{
  show, lines_from, max_u32, parse_header, read_entries, read_uid_list, write_entries,
  write_uid_list,
}
use verta.Maildir.UidText.Decimals.{show-is_space, parse_u32-show, show-has_byte}
use verta.Maildir.UidText.Entries.{Writable, lines_from-line, read_entries-written}
use verta.Maildir.UidText.ByUid.{lookup-sort_by, found_in_empty}

fields_from-word :
    (w : ℕ) (word l rest : Text)
    → any is_space l ≡ false
    → fields_from (w ∷ word) (l ++ 32 ∷ rest) ≡ (w ∷ word ++ l) ∷ fields_from [] rest
unfolding fields_from is_space
fields_from-word w word [] rest h = ap (λ l. (w ∷ l) ∷ fields_from [] rest) (sym (append-nil word))
fields_from-word w word (c ∷ l) rest h =
    let solid : is_space c ≡ false = ground (arith, h) in
    let later : any is_space l ≡ false = ground (arith, h) in
    rw (fields_from, solid)
      (fields_from-word w (word ++ c ∷ []) l rest later
        ∙ ap (λ m. (w ∷ m) ∷ fields_from [] rest) (append_assoc word (c ∷ []) l))

fields_from-last :
    (w : ℕ) (word l : Text)
    → any is_space l ≡ false
    → fields_from (w ∷ word) l ≡ (w ∷ word ++ l) ∷ []
unfolding fields_from
fields_from-last w word [] h = ap (λ l. (w ∷ l) ∷ []) (sym (append-nil word))
fields_from-last w word (c ∷ l) h =
    let solid : is_space c ≡ false = ground (arith, h) in
    let later : any is_space l ≡ false = ground (arith, h) in
    rw (fields_from, solid)
      (fields_from-last w (word ++ c ∷ []) l later
        ∙ ap (λ m. (w ∷ m) ∷ []) (append_assoc word (c ∷ []) l))

header-fields :
    (v n : ℕ)
    → fields_from [] (b'V' ∷ (show v ++ 32 ∷ b'N' ∷ show n))
      ≡ (b'V' ∷ show v) ∷ (b'N' ∷ show n) ∷ []
unfolding fields_from is_space
header-fields v n =
    fields_from-word b'V' [] (show v) (b'N' ∷ show n) (show-is_space v)
    ∙ ap (λ l. (b'V' ∷ show v) ∷ l) (fields_from-last b'N' [] (show n) (show-is_space n))

header_checked :
    (v n : ℕ)
    → 0 < n
    → if◌then◌else◌ {A = Option (ℕ × ℕ)} (ltb n 1) none (some (v, n)) ≡ some (v, n)
header_checked v n p = ground (arith, p)

parse_header-written :
    (v n : ℕ)
    → v ≤ max_u32
    → n ≤ max_u32
    → 0 < n
    → parse_header ((b'V' ∷ show v) ∷ (b'N' ∷ show n) ∷ []) ≡ some (v, n)
unfolding parse_header has_prefix
parse_header-written v n h k p =
    rw (parse_header, parse_u32-show v h, parse_u32-show n k) (header_checked v n p)

trim_suffix_absent : (b : ℕ) (s : Text) → has_byte b s ≡ false → trim_suffix b s ≡ s
unfolding trim_suffix
trim_suffix_absent b [] h = refl
trim_suffix_absent b (c ∷ []) h = ground (arith, h)
trim_suffix_absent b (c ∷ d ∷ s) h =
    let later : has_byte b (d ∷ s) ≡ false = ground (arith, h) in
    ap (λ l. c ∷ l) (trim_suffix_absent b (d ∷ s) later)

-- The first line, without its end.
abbrev header_line : ℕ → ℕ → Text
header_line v n = b'V' ∷ (show v ++ 32 ∷ b'N' ∷ show n)

header_line-has_byte :
    (b v n : ℕ)
    → is_digit b ≡ false
    → has_byte b (b'V' ∷ []) ≡ false
    → has_byte b (32 ∷ b'N' ∷ []) ≡ false
    → has_byte b (header_line v n) ≡ false
header_line-has_byte b v n d h k = has_byte-append b (b'V' ∷ []) (show v ++ 32 ∷ b'N' ∷ show n) h (
    has_byte-append b (show v) (32 ∷ b'N' ∷ show n) (show-has_byte b v d)
      (has_byte-append b (32 ∷ b'N' ∷ []) (show n) k (show-has_byte b n d)))

written-lines :
    (v n : ℕ) (rest : Text)
    → lines_from [] (b'V' ∷ (show v ++ 32 ∷ b'N' ∷ (show n ++ 10 ∷ rest)))
      ≡ header_line v n ∷ lines_from [] rest
written-lines v n rest =
    ap (λ l. lines_from [] (b'V' ∷ l))
      (sym (append_assoc (show v) (32 ∷ b'N' ∷ show n) (10 ∷ rest)))
    ∙ lines_from-line [] (header_line v n) rest
        (header_line-has_byte 10 v n (unfold is_digit in refl) refl refl)
    ∙ ap (λ l. l ∷ lines_from [] rest)
        (trim_suffix_absent 13 (header_line v n)
          (header_line-has_byte 13 v n (unfold is_digit in refl) refl refl))

-- What is read back, with its entries still as lines.
read_written :
    (fresh : ℕ) (l : UidList)
    → l.validity ≤ max_u32
    → l.next ≤ max_u32
    → 0 < l.next
    → read_uid_list fresh (write_uid_list l) ≡ record {
      uids = read_entries [] (lines_from [] (write_entries (sort_by (λ e. e.1) [] l.uids)));
      validity = l.validity;
      next = l.next;
    }
unfolding read_uid_list write_uid_list
read_written fresh l h k p =
    rw
      (
        read_uid_list,
        written-lines l.validity l.next (write_entries (sort_by (λ e. e.1) [] l.uids)),
        header-fields l.validity l.next,
        parse_header-written l.validity l.next h k p,
      )
      refl

-- Let the UIDVALIDITY, the next UID and all UIDs of a list fit in 32 bits, the next UID not be 0,
-- and the base names be distinct, without LF and not end in CR. The list that is written to disk
-- is read back with the same UIDVALIDITY, the same next UID and the same UID, or none, for every
-- base name.
pub read_uid_list-written :
    (fresh : ℕ) (l : UidList)
    → Distinct l.uids
    → All Writable l.uids
    → l.validity ≤ max_u32
    → l.next ≤ max_u32
    → 0 < l.next
    → ((read_uid_list fresh (write_uid_list l)).validity ≡ l.validity)
      × ((read_uid_list fresh (write_uid_list l)).next ≡ l.next)
      × ((k : Text) → lookup k (read_uid_list fresh (write_uid_list l)).uids ≡ lookup k l.uids)
read_uid_list-written fresh l d w h k p =
    let same = read_written fresh l h k p in
    let sorted = sort_by (λ e. e.1) [] l.uids in
    (
      ap (λ u. u.validity) same,
      ap (λ u. u.next) same,
      λ j.
          let by_uid = lookup-sort_by [] l.uids j tt d (λ i hit. unfold lookup in refl) in
          ap (λ u. lookup j u.uids) same
          ∙ read_entries-written [] sorted (All-sort_by (λ e. e.1) Writable [] l.uids tt w) j
              by_uid.1
          ∙ found_in_empty j sorted
          ∙ by_uid.0
          ∙ found_in_empty j l.uids,
    )
