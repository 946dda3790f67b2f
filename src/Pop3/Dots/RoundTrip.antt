-- ===== src/Pop3/Dots/RoundTrip.antt =====
-- A client that reads dot-stuffed lines up to the final dot gets the lines of the message back, and
-- stops exactly where the answer ends: no message can end its own answer early.
use mathlib.Core.List.{append_assoc}
use verta.Common.{
  ℕ, zero, suc, ◌<◌, ◌≡◌, refl, sym, ap, ◌∙◌, Text, text_eq, split_on, join_with, trim_suffix,
  false, ◌==◌, if◌then◌else◌, List, [], ◌∷◌, ◌++◌, Option, none, some, length, All, All-append, map,
  arith, Bool-cases, inl, inr,
}
use verta.Pop3.Dots.{
  crlf, stuff, write_lines, write_block, sections, body_lines, dotted_body, dotted,
}

-- The client's side, RFC 1939: a line up to its line feed.
take_line : Text → Option (Text × Text)
take_line [] = none
take_line (c ∷ s) =
    let more = take_line s in
    if c == 10
    then some ([], s)
    else elim more [ none ↦ none | some (line, rest) ↦ some (c ∷ line, rest) ]

unstuff : Text → Text
unstuff [] = []
unstuff (c ∷ s) = if c == b'.' then s else c ∷ s

abbrev cons_line : Text → Option (List Text × Text) → Option (List Text × Text)
cons_line line none = none
cons_line line (some (lines, after)) = some (line ∷ lines, after)

abbrev next_line : (Text → Option (List Text × Text)) → Text → Text → Option (List Text × Text)
next_line read line rest =
    if text_eq line (b'.' ∷ []) then some ([], rest) else cons_line (unstuff line) (read rest)

-- The lines of the answer, and what follows it; the fuel is a number of lines.
pub client_lines : ℕ → Text → Option (List Text × Text)
client_lines zero s = none
client_lines (suc f) s = elim (take_line s) [
  | none ↦ none
  | some (line, rest) ↦ next_line (client_lines f) (trim_suffix 13 line) rest
]

abbrev NoLf : Text → Type 0
NoLf t = All (λ c. (c == 10) ≡ false) t

take_line-crlf :
    (t rest : Text) → NoLf t → take_line (t ++ (crlf ++ rest)) ≡ some (t ++ (13 ∷ []), rest)
unfolding take_line
take_line-crlf [] rest h = refl
take_line-crlf (c ∷ t) rest h = ground (arith, h, take_line-crlf t rest h.1)

trim_suffix-append : (t : Text) → trim_suffix 13 (t ++ (13 ∷ [])) ≡ t
unfolding trim_suffix
trim_suffix-append [] = refl
trim_suffix-append (c ∷ []) = refl
trim_suffix-append (c ∷ d ∷ t) = ap (λ s. c ∷ s) (trim_suffix-append (d ∷ t))

NoLf-trim_suffix : (t : Text) → NoLf t → NoLf (trim_suffix 13 t)
unfolding trim_suffix
NoLf-trim_suffix [] h = tt
NoLf-trim_suffix (c ∷ []) h = ground (arith, h)
NoLf-trim_suffix (c ∷ d ∷ t) h = (h.0, NoLf-trim_suffix (d ∷ t) h.1)

NoLf-stuff : (t : Text) → NoLf t → NoLf (stuff t)
unfolding stuff
NoLf-stuff [] h = tt
NoLf-stuff (c ∷ t) h = ground (arith, h)

unstuff-stuff : (t : Text) → (unstuff (stuff t) ≡ t) × (text_eq (stuff t) (b'.' ∷ []) ≡ false)
unfolding unstuff stuff text_eq
unstuff-stuff [] = (refl, refl)
unstuff-stuff (c ∷ t) = ground arith

-- One written line is read back.
client_line :
    (f : ℕ) (line rest : Text)
    → NoLf line
    → client_lines (suc f) (stuff (trim_suffix 13 line) ++ (crlf ++ rest))
      ≡ cons_line (trim_suffix 13 line) (client_lines f rest)
unfolding client_lines
client_line f line rest h =
    let t : Text = trim_suffix 13 line in
    let (back, no_dot) = unstuff-stuff t in
    rw (take_line-crlf (stuff t) rest (NoLf-stuff t (NoLf-trim_suffix line h)), client_lines)
      (rw (trim_suffix-append (stuff t), no_dot, back))

last_line :
    (f : ℕ) (rest : Text)
    → client_lines (suc f) (write_lines [] ++ (b'.' ∷ (crlf ++ rest))) ≡ some ([], rest)
unfolding client_lines write_lines take_line trim_suffix text_eq
last_line f rest = refl

one_line :
    (line : Text) (lines : List Text) (rest : Text)
    → write_lines (line ∷ lines) ++ rest
      ≡ stuff (trim_suffix 13 line) ++ (crlf ++ (write_lines lines ++ rest))
unfolding write_lines
one_line line lines rest =
    append_assoc (stuff (trim_suffix 13 line)) (crlf ++ write_lines lines) rest

client_lines-write_lines :
    (lines : List Text) (f : ℕ) (rest : Text)
    → All NoLf lines
    → length lines < f
    → client_lines f (write_lines lines ++ (b'.' ∷ (crlf ++ rest)))
      ≡ some (map (trim_suffix 13) lines, rest)
client_lines-write_lines lines zero rest h k = absurd (omega arith)
client_lines-write_lines [] (suc f) rest h k = last_line f rest
client_lines-write_lines (line ∷ lines) (suc f) rest h k =
    ap (client_lines (suc f)) (one_line line lines (b'.' ∷ (crlf ++ rest)))
    ∙ (client_line f line _ h.0
        ∙ ap (cons_line (trim_suffix 13 line))
            (client_lines-write_lines lines f rest h.1 (omega arith)))

NoLf-split_on : (t : Text) → All NoLf (split_on 10 t)
unfolding split_on
NoLf-split_on [] = (tt, tt)
NoLf-split_on (c ∷ t) = cases (split_on 10 t) (NoLf-split_on t)
  where
    cases :
        (parts : List Text)
        → All NoLf parts
        → All NoLf (elim parts [
          | [] ↦ []
          | part ∷ parts ↦ if c == 10 then [] ∷ part ∷ parts else (c ∷ part) ∷ parts
        ])
    cases [] h = tt
    cases (part ∷ parts) h = elim (Bool-cases (c == 10)) [
      | inl lf ↦ rw lf (tt, h)
      | inr other ↦ rw other ((other, h.0), h.1)
    ]

write_lines-append : (xs ys : List Text) → write_lines (xs ++ ys) ≡ write_lines xs ++ write_lines ys
unfolding write_lines
write_lines-append [] ys = refl
write_lines-append (x ∷ xs) ys =
    ap (λ t. stuff (trim_suffix 13 x) ++ (crlf ++ t)) (write_lines-append xs ys)
    ∙ sym (append_assoc (stuff (trim_suffix 13 x)) (crlf ++ write_lines xs) (write_lines ys))

-- The lines of a body as far as they are sent, behind the blank line.
abbrev pub sent_body : Option ℕ → Text → List Text
sent_body (some zero) body = []
sent_body max body = [] ∷ split_on 10 (join_with 10 (body_lines max body))

-- The lines of a message as far as they are sent, without their line ends.
abbrev pub sent_lines : Text → Option ℕ → List Text
sent_lines text max = split_on 10 (sections text).0 ++ sent_body max (sections text).1

dotted_body-write_lines :
    (max : Option ℕ) (body : Text) → dotted_body max body ≡ write_lines (sent_body max body)
unfolding dotted_body write_block write_lines trim_suffix stuff
dotted_body-write_lines none body = refl
dotted_body-write_lines (some zero) body = refl
dotted_body-write_lines (some (suc n)) body = refl

sent_body-NoLf : (max : Option ℕ) (body : Text) → All NoLf (sent_body max body)
sent_body-NoLf none body = (tt, NoLf-split_on (join_with 10 (body_lines none body)))
sent_body-NoLf (some zero) body = tt
sent_body-NoLf (some (suc n)) body =
    (tt, NoLf-split_on (join_with 10 (body_lines (some (suc n)) body)))

-- From what RETR and TOP send for a message, whatever bytes it holds, a client that can read more
-- lines than are sent reads exactly the lines sent, and leaves unread exactly what the server
-- sends next.
pub client_lines-dotted :
    (text : Text) (max : Option ℕ) (fuel : ℕ) (rest : Text)
    → length (sent_lines text max) < fuel
    → client_lines fuel (dotted text max ++ rest)
      ≡ some (map (trim_suffix 13) (sent_lines text max), rest)
unfolding dotted write_block
client_lines-dotted text max fuel rest enough =
    ap (client_lines fuel) regroup
    ∙ client_lines-write_lines (sent_lines text max) fuel rest
        (All-append NoLf (split_on 10 (sections text).0) (sent_body max (sections text).1)
          (NoLf-split_on (sections text).0) (sent_body-NoLf max (sections text).1))
        enough
  where
    header : List Text
    header = split_on 10 (sections text).0

    body : List Text
    body = sent_body max (sections text).1

    regroup : dotted text max ++ rest ≡ write_lines (header ++ body) ++ (b'.' ∷ (crlf ++ rest))
    regroup = simp (append_assoc, write_lines-append, dotted_body-write_lines)
