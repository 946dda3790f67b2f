-- ===== src/Pop3/Dots.antt =====
-- writeDotted of internal/pop3/pop3.go: the byte-stuffed lines of a message and the final dot, and
-- what a client reads back from them.
pub mod RoundTrip
use verta.Common.{
  ℕ, zero, suc, Text, codes, cut, split_on, join_with, trim_suffix, Bool, true, false, ltb, ◌==◌,
  if◌then◌else◌, List, [], ◌∷◌, ◌++◌, Option, none, some, take, length,
}

abbrev pub crlf : Text
crlf = 13 ∷ 10 ∷ []

-- A dot in front of a line that begins with one.
unfoldable pub stuff : Text → Text
stuff [] = []
stuff (c ∷ s) = if c == b'.' then b'.' ∷ c ∷ s else c ∷ s

unfoldable pub write_lines : List Text → Text
unfolding stuff
write_lines [] = []
write_lines (line ∷ lines) = stuff (trim_suffix 13 line) ++ (crlf ++ write_lines lines)

-- The local function `write`.
unfoldable pub write_block : Text → Text
write_block block = write_lines (split_on 10 block)

-- The header and the body.
unfoldable pub sections : Text → Text × Text
sections text = elim (cut (crlf ++ crlf) text) [
  | none ↦ (text, [])
  | some (header, body) ↦ (header, body)
]

-- The lines of the body to send: all of them for -1, which is `none` here.
unfoldable pub body_lines : Option ℕ → Text → List Text
body_lines none body = split_on 10 body
body_lines (some n) body =
    let lines = split_on 10 body in if ltb n (length lines) then take n lines else lines

unfoldable pub dotted_body : Option ℕ → Text → Text
dotted_body (some zero) body = []
dotted_body max body = crlf ++ write_block (join_with 10 (body_lines max body))

unfoldable pub dotted : Text → Option ℕ → Text
dotted text max =
    write_block (sections text).0 ++ (dotted_body max (sections text).1 ++ (b'.' ∷ crlf))
