-- ===== src/Maildir/Flags.antt =====
-- internal/maildir/flags.go, on Linux, where the flags follow ":2," in the file name. A `Flag` is
-- its letter.
pub mod Canonical
pub mod FileNames
use verta.Common.{
  ℕ, Text, codes, cut, Bool, true, false, ◌&&◌, ◌||◌, not, ◌==◌, ltb, if◌then◌else◌, List, [], ◌∷◌,
  ◌++◌, Option, none, some, to_lower, text_eq,
}

abbrev pub draft : ℕ
draft = b'D'

abbrev pub flagged : ℕ
flagged = b'F'

abbrev pub passed : ℕ
passed = b'P'

abbrev pub answered : ℕ
answered = b'R'

abbrev pub seen : ℕ
seen = b'S'

abbrev pub deleted : ℕ
deleted = b'T'

abbrev pub info_sep : Text
info_sep = codes ":2,"

abbrev pub FlagSet : Type 0
FlagSet = List ℕ

unfoldable pub is_flag : ℕ → Bool
is_flag r = r == draft || r == flagged || r == passed || r == answered || r == seen || r == deleted

unfoldable pub has : FlagSet → ℕ → Bool
has [] x = false
has (v ∷ f) x = v == x || has f x

-- Into its place in a sorted set; sort.Slice is insertion sort here, which agrees with any other
-- sort where no flag stands twice.
unfoldable pub place : ℕ → FlagSet → FlagSet
place x [] = x ∷ []
place x (v ∷ f) = let rest = place x f in if ltb v x then v ∷ rest else x ∷ v ∷ f

unfoldable pub sort_flags : FlagSet → FlagSet
unfolding place
sort_flags [] = []
sort_flags (v ∷ f) = place v (sort_flags f)

-- The loop of ParseFlags over what follows the separator.
unfoldable pub collect : FlagSet → Text → FlagSet
unfolding is_flag has
collect f [] = f
collect f (r ∷ rs) = collect (if is_flag r && not (has f r) then f ++ r ∷ [] else f) rs

unfoldable pub parse_flags : Text → FlagSet
parse_flags name = elim (cut info_sep name) [
  | none ↦ []
  | some (base, info) ↦ sort_flags (collect [] info)
]

unfoldable pub base_name : Text → Text
base_name name = elim (cut info_sep name) [ none ↦ name | some (base, info) ↦ base ]

unfoldable pub add : FlagSet → ℕ → FlagSet
unfolding has sort_flags
add f x = if has f x then f else sort_flags (f ++ x ∷ [])

unfoldable pub remove : FlagSet → ℕ → FlagSet
remove [] x = []
remove (v ∷ f) x = let rest = remove f x in if v == x then rest else v ∷ rest

-- `base + infoSep + f.String()`
unfoldable pub file_name : Text → FlagSet → Text
file_name base f = base ++ (info_sep ++ f)

unfoldable pub imap_flags : FlagSet → Bool → List Text
unfolding has
imap_flags f recent =
    (if has f seen then codes "\\Seen" ∷ [] else [])
    ++ ((if has f answered then codes "\\Answered" ∷ [] else [])
        ++ ((if has f flagged then codes "\\Flagged" ∷ [] else [])
            ++ ((if has f deleted then codes "\\Deleted" ∷ [] else [])
                ++ ((if has f draft then codes "\\Draft" ∷ [] else [])
                    ++ (if recent then codes "\\Recent" ∷ [] else [])))))

unfoldable pub flag_from_imap : Text → Option ℕ
flag_from_imap name =
    let n = to_lower name in
    if text_eq n (codes "\\seen")
    then some seen
    else if text_eq n (codes "\\answered")
    then some answered
    else if text_eq n (codes "\\flagged")
    then some flagged
    else if text_eq n (codes "\\deleted")
    then some deleted
    else if text_eq n (codes "\\draft")
    then some draft
    else none
