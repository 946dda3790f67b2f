-- ===== src/Imap/Fetching.antt =====
-- FETCH of internal/imap/fetch.go: which items a command asks for, and what it does to the flags. How
-- an envelope or a body structure is written is not modelled: such an item stands for itself, and for one
-- line of the reply.
use verta.Common.{
  ℕ, zero, suc, ℤ, pos, negsuc, Text, codes, text_eq, to_upper, trim_space, trim_suffix, has_prefix,
  Bool, true, false, ◌&&◌, ◌||◌, not, ◌==◌, if◌then◌else◌, List, [], ◌∷◌, ◌++◌, none, some,
}
use verta.Maildir.Flags.{has, add, seen, imap_flags}
use verta.Maildir.Mailbox.{Message, set_flags}
use verta.Imap.Sections.{Section, header_of, fetch_body}
use verta.Imap.Commands.{Env}
use verta.Imap.Searching.{Reader, loaded, body_of}

-- strings.TrimPrefix with an opening parenthesis
unfoldable pub trim_open : Text → Text
trim_open [] = []
trim_open (c ∷ s) = if c == b'(' then s else c ∷ s

unfoldable pub deeper : ℤ → ℤ
deeper (pos n) = pos (suc n)
deeper (negsuc zero) = pos 0
deeper (negsuc (suc n)) = negsuc n

unfoldable pub shallower : ℤ → ℤ
shallower (pos zero) = negsuc 0
shallower (pos (suc n)) = pos n
shallower (negsuc n) = negsuc (suc n)

unfoldable pub depth_after : ℤ → ℕ → ℤ
unfolding deeper shallower
depth_after d c =
    if c == b'[' || c == b'(' then deeper d else if c == b']' || c == b')' then shallower d else d

unfoldable pub at_top : ℤ → Bool
at_top (pos n) = n == 0
at_top (negsuc n) = false

unfoldable pub unless_empty : Text → List Text → List Text
unless_empty [] items = items
unless_empty (c ∷ s) items = (c ∷ s) ∷ items

-- The loop of splitItems, with the depth of brackets and the item begun.
unfoldable pub items_from : ℤ → Text → Text → List Text
unfolding depth_after at_top unless_empty
items_from d item [] = unless_empty item []
items_from d item (c ∷ s) =
    let splits = c == b' ' && at_top d in
    let rest = items_from (depth_after d c) (if splits then [] else item ++ c ∷ []) s in
    if splits then unless_empty item rest else rest

unfoldable pub split_items : Text → List Text
unfolding items_from trim_open trim_suffix trim_space
split_items spec = items_from (pos 0) [] (trim_suffix b')' (trim_open (trim_space spec)))

pub data FetchKey : Type 0 where
  all_macro fast_macro full_macro uid_key flags_key date_key size_key envelope_key : FetchKey
  structure_key body_key whole_key header_key text_key peek_key section_key unknown_key : FetchKey

unfoldable pub fetch_key : Text → FetchKey
unfolding text_eq has_prefix
fetch_key up =
    if text_eq up (codes "ALL")
    then all_macro
    else if text_eq up (codes "FAST")
    then fast_macro
    else if text_eq up (codes "FULL")
    then full_macro
    else if text_eq up (codes "UID")
    then uid_key
    else if text_eq up (codes "FLAGS")
    then flags_key
    else if text_eq up (codes "INTERNALDATE")
    then date_key
    else if text_eq up (codes "RFC822.SIZE")
    then size_key
    else if text_eq up (codes "ENVELOPE")
    then envelope_key
    else if text_eq up (codes "BODYSTRUCTURE")
    then structure_key
    else if text_eq up (codes "BODY")
    then body_key
    else if text_eq up (codes "RFC822")
    then whole_key
    else if text_eq up (codes "RFC822.HEADER")
    then header_key
    else if text_eq up (codes "RFC822.TEXT")
    then text_key
    else if has_prefix (codes "BODY.PEEK[") up
    then peek_key
    else if has_prefix (codes "BODY[") up
    then section_key
    else unknown_key

-- One item of a reply. A structure says whether it is extended.
pub data Item : Type 0 where
  flags_item : List Text → Item
  date_item size_item uid_item : ℕ → Item
  envelope_item : Item
  structure_item : Bool → Item
  whole_item header_item text_item : Text → Item
  section_item : Section → Item

unfoldable pub base_items : Message → List Item
unfolding imap_flags
base_items m =
    flags_item (imap_flags m.flags m.recent) ∷ date_item m.internal ∷ size_item m.size ∷ []

-- What one item of the command adds to the reply.
unfoldable pub items_for : Reader → Message → FetchKey → Text → List Item
unfolding base_items loaded body_of header_of fetch_body
items_for r m all_macro item = base_items m ++ envelope_item ∷ []
items_for r m fast_macro item = base_items m
items_for r m full_macro item = base_items m ++ (envelope_item ∷ structure_item false ∷ [])
items_for r m uid_key item = []
items_for r m flags_key item = flags_item (imap_flags m.flags m.recent) ∷ []
items_for r m date_key item = date_item m.internal ∷ []
items_for r m size_key item = size_item m.size ∷ []
items_for r m envelope_key item = envelope_item ∷ []
items_for r m structure_key item = structure_item true ∷ []
items_for r m body_key item = structure_item false ∷ []
items_for r m whole_key item = whole_item (loaded r m) ∷ []
items_for r m header_key item = header_item (header_of (loaded r m)) ∷ []
items_for r m text_key item = text_item (body_of (loaded r m)) ∷ []
items_for r m peek_key item = section_item (fetch_body r m item) ∷ []
items_for r m section_key item = section_item (fetch_body r m item) ∷ []
items_for r m unknown_key item = []

unfoldable pub marks_seen : FetchKey → Bool
marks_seen whole_key = true
marks_seen text_key = true
marks_seen section_key = true
marks_seen _ = false

unfoldable pub is_uid : FetchKey → Bool
is_uid uid_key = true
is_uid _ = false

-- The items, whether the UID is asked for, and whether the message is to be marked as seen.
unfoldable pub fetch_each : Reader → Message → List Text → List Item × Bool × Bool
unfolding items_for marks_seen is_uid fetch_key to_upper
fetch_each r m [] = ([], false, false)
fetch_each r m (item ∷ spec) =
    let key = fetch_key (to_upper item) in
    let rest = fetch_each r m spec in
    (items_for r m key item ++ rest.0, is_uid key || rest.1, marks_seen key || rest.2)

unfoldable pub fetch_items : Reader → Message → Text → Bool → List Item × Bool
unfolding fetch_each split_items
fetch_items r m spec uid_mode =
    let each = fetch_each r m (split_items spec) in
    (each.0 ++ (if uid_mode || each.1 then uid_item m.uid ∷ [] else []), each.2)

-- The message after it was fetched, and the items of its reply.
unfoldable pub fetch_one : Env → Reader → Text → Bool → Bool → Message → Message × List Item
unfolding fetch_items has add set_flags imap_flags
fetch_one e r spec uid_mode read_only m =
    let (payload, mark_seen) = fetch_items r m spec uid_mode in
    if mark_seen && not read_only && not (has m.flags seen)
    then (elim (set_flags (e.rename_ok m) m (add m.flags seen)) [
      | none ↦ (m, payload)
      | some m' ↦ (m', payload ++ flags_item (imap_flags m'.flags m'.recent) ∷ [])
    ])
    else (m, payload)

unfoldable pub filter_items : (Item → Bool) → List Item → List Item
filter_items p [] = []
filter_items p (i ∷ items) = let rest = filter_items p items in if p i then i ∷ rest else rest

unfoldable pub is_literal : Item → Bool
is_literal (whole_item s) = true
is_literal (header_item s) = true
is_literal (text_item s) = true
is_literal (section_item s) = true
is_literal _ = false

unfoldable pub literals_last : List Item → List Item
literals_last items = filter_items (λ i. not (is_literal i)) items ++ filter_items is_literal items

-- The messages after the loop of FETCH, and its replies: a sequence number with its items.
unfoldable pub fetch_loop :
    Env
    → Reader
    → Text
    → Bool
    → Bool
    → (Message → Bool)
    → List Message
    → List Message × List (ℕ × List Item)
unfolding fetch_one literals_last
fetch_loop e r spec uid_mode read_only p [] = ([], [])
fetch_loop e r spec uid_mode read_only p (m ∷ ms) =
    let rest = fetch_loop e r spec uid_mode read_only p ms in
    if not (p m) then (m ∷ rest.0, rest.1) else (
      (fetch_one e r spec uid_mode read_only m).0 ∷ rest.0,
      (m.seq, literals_last (fetch_one e r spec uid_mode read_only m).1) ∷ rest.1,
    )
