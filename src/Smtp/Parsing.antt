-- ===== src/Smtp/Parsing.antt =====
-- The parsing helpers of internal/smtp/server.go, and splitAddr and ensureCRLF of session.go.
use verta.Common.{
  ℕ, Text, codes, Bool, false, ◌&&◌, ◌||◌, not, ◌==◌, if◌then◌else◌, List, [], ◌∷◌, ◌++◌, Option,
  none, some, leb, ltb, take, drop, length, map, text_eq, to_lower, to_upper, trim_space,
  split_last, has_prefix, cut, is_space, pos, negsuc, atoi,
}

-- Local part and domain in lower case; neither may be empty.
unfoldable pub split_addr : Text → Option (Text × Text)
unfolding split_last
split_addr email = elim (split_last b'@' email) [
  | none ↦ none
  | some (local, domain) ↦
      if text_eq local [] || text_eq domain [] then none else some (local, to_lower domain)
]

-- strings.Fields, with the word read so far.
unfoldable pub fields_from : Text → Text → List Text
fields_from [] [] = []
fields_from (w ∷ word) [] = (w ∷ word) ∷ []
fields_from [] (c ∷ s) = if is_space c then fields_from [] s else fields_from (c ∷ []) s
fields_from (w ∷ word) (c ∷ s) =
    if is_space c then (w ∷ word) ∷ fields_from [] s else fields_from (w ∷ word ++ c ∷ []) s

-- An obsolete source route (@a,@b:user@domain) is cut off.
unfoldable pub strip_route : Text → Text
strip_route addr = elim (split_last b':' addr) [
  | none ↦ addr
  | some (route, rest) ↦ if has_prefix (codes "@") addr then rest else addr
]

-- The address and its parameters, from an argument such as "FROM:<a@b> SIZE=123".
unfoldable pub parse_path : Text → Text → Option (Text × List Text)
unfolding strip_route fields_from
parse_path arg prefix =
    if ltb (length arg) (length prefix)
      || not (text_eq (to_lower (take (length prefix) arg)) (to_lower prefix))
    then none
    else elim (trim_space (drop (length prefix) arg)) [
      | [] ↦ none
      | c ∷ rest ↦
          if c == b'<'
          then (elim (cut (codes ">") rest) [
            | none ↦ none
            | some (addr, params) ↦ some (strip_route addr, fields_from [] params)
          ])
          else none
    ]

-- SIZE=n, and 0 where it is missing; `none` for a number that is not valid.
unfoldable pub size_param : List Text → Option ℕ
size_param [] = some 0
size_param (p ∷ params) =
    let rest = size_param params in
    if has_prefix (codes "SIZE=") (to_upper p)
    then (elim (atoi (drop 5 (to_upper p))) [
      | none ↦ none
      | some (pos n) ↦ some n
      | some (negsuc n) ↦ none
    ])
    else rest

unfoldable pub is_safe : ℕ → Bool
is_safe c =
    (leb b'a' c && leb c b'z')
    || (leb b'A' c && leb c b'Z')
    || (leb b'0' c && leb c b'9')
    || c == b'.'
    || c == b'-'
    || c == b':'
    || c == b'['
    || c == b']'
    || c == b'_'

-- `runes` decodes UTF-8.
unfoldable pub sanitize_helo : (Text → List ℕ) → Text → Text
unfolding is_safe
sanitize_helo runes h = map (λ r. if is_safe r then r else b'?') (runes (take 255 h))

-- Whether an LF stands without a CR before it; the first argument is whether the byte before is a CR.
unfoldable pub bare_lf : Bool → Text → Bool
bare_lf cr [] = false
bare_lf cr (c ∷ s) = (c == 10 && not cr) || bare_lf (c == 13) s

unfoldable pub add_cr : Bool → Text → Text
add_cr cr [] = []
add_cr cr (c ∷ s) =
    let rest = add_cr (c == 13) s in if c == 10 && not cr then 13 ∷ c ∷ rest else c ∷ rest

unfoldable pub ensure_crlf : Text → Text
unfolding bare_lf add_cr
ensure_crlf t = if not (bare_lf false t) then t else add_cr false t
