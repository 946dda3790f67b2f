-- ===== src/Smtp/LineEnds.antt =====
-- The line ends of a stored message, and the HELO name of a trace header.
use verta.Common.{if◌then◌else◌, ◌≡◌, refl, Text, Bool, false, ◌==◌, [], ◌∷◌, arith}
use verta.Smtp.Parsing.{bare_lf, add_cr, ensure_crlf}

-- The text without its CRs.
abbrev pub without_cr : Text → Text
without_cr [] = []
without_cr (c ∷ s) = if c == 13 then without_cr s else c ∷ without_cr s

add_cr-bare_lf : (cr : Bool) (t : Text) → bare_lf cr (add_cr cr t) ≡ false
unfolding bare_lf add_cr
add_cr-bare_lf cr [] = refl
add_cr-bare_lf cr (c ∷ t) = ground (arith, add_cr-bare_lf (c == 13) t)

add_cr_same : (cr : Bool) (t : Text) → without_cr (add_cr cr t) ≡ without_cr t
unfolding add_cr
add_cr_same cr [] = refl
add_cr_same cr (c ∷ t) = ground (arith, add_cr_same (c == 13) t)

-- After the rewriting every LF follows a CR, the message without its CRs is the same, and
-- rewriting twice is rewriting once.
pub ensure_crlf_lem :
    (t : Text)
    → (bare_lf false (ensure_crlf t) ≡ false)
      × (without_cr (ensure_crlf t) ≡ without_cr t)
      × (ensure_crlf (ensure_crlf t) ≡ ensure_crlf t)
unfolding ensure_crlf
ensure_crlf_lem t = ground (arith, add_cr-bare_lf false t, add_cr_same false t)
