-- ===== src/Imap/Wildcards.antt =====
-- matchPattern and wildcard of internal/imap/session.go: the patterns of LIST and LSUB.
pub mod Matching
use verta.Common.{
  ℕ, Text, text_eq, to_lower, Bool, true, false, ◌||◌, ◌==◌, if◌then◌else◌, List, [], ◌∷◌,
}

-- The loop over the suffixes of a name, and the one that stops at a dot.
unfoldable pub some_suffix : (Text → Bool) → Text → Bool
some_suffix f [] = f []
some_suffix f (c ∷ s) = f (c ∷ s) || some_suffix f s

unfoldable pub suffix_in_level : (Text → Bool) → Text → Bool
suffix_in_level f [] = f []
suffix_in_level f (c ∷ s) =
    let later = suffix_in_level f s in f (c ∷ s) || (if c == b'.' then false else later)

-- What the switch on a byte of the pattern tells apart.
pub data Kind : Type 0 where
  star percent plain : Kind

unfoldable pub kind_of : ℕ → Kind
kind_of c = if c == b'*' then star else if c == b'%' then percent else plain

unfoldable pub byte_then : (Text → Bool) → ℕ → Text → Bool
byte_then f c [] = false
byte_then f c (d ∷ s) = if d == c then f s else false

-- One byte of the pattern, with the pattern after it and its match.
unfoldable pub match_byte : Kind → ℕ → Text → (Text → Bool) → Text → Bool
unfolding some_suffix suffix_in_level byte_then text_eq
match_byte star c pat go s = if text_eq pat [] then true else some_suffix go s
match_byte percent c pat go s = suffix_in_level go s
match_byte plain c pat go s = byte_then go c s

unfoldable pub wildcard : Text → Text → Bool
unfolding match_byte kind_of text_eq
wildcard [] s = text_eq s []
wildcard (c ∷ pat) s = match_byte (kind_of c) c pat (wildcard pat) s

unfoldable pub match_pattern : Text → Text → Bool
unfolding wildcard to_lower text_eq
match_pattern pattern_text name =
    if text_eq pattern_text []
    then text_eq name []
    else if text_eq (to_lower pattern_text) (to_lower name)
    then true
    else wildcard pattern_text name
