-- ===== src/Pop3/Counting.antt =====
-- STAT and LIST count the messages that are not marked.
use verta.Common.{
  text_eq, ℕ, suc, ◌+◌, ◌-◌, ◌≡◌, refl, true, ◌&&◌, ltb, leb, if◌then◌else◌, List, [], ◌∷◌, length,
  pos, arith,
}
use verta.Maildir.Mailbox.{Message}
use verta.Pop3.Session.{Session, is_marked, count_from, scan_from, listing, stat, total_size}
use verta.Pop3.Commands.{cmd_stat, cmd_list, if_authd}
use verta.Pop3.Invariant.{FitMarks, FitsView, length-view}

-- How many marks are numbers from `i` to `i + k - 1`.
abbrev marks_in : ℕ → ℕ → List ℕ → ℕ
marks_in i k [] = 0
marks_in i k (d ∷ del) = (if leb i d && ltb d (i + k) then 1 else 0) + marks_in i k del

marks_split :
    (n i k : ℕ) (del : List ℕ)
    → FitMarks n del
    → marks_in i (suc k) del ≡ (if is_marked del i then 1 else 0) + marks_in (i + 1) k del
unfolding is_marked
marks_split n i k [] h = refl
marks_split n i k (d ∷ del) h = ground (arith, marks_split n i k del h.3)

marks_none : (i : ℕ) (del : List ℕ) → marks_in i 0 del ≡ 0
marks_none i [] = refl
marks_none i (d ∷ del) = ground (arith, marks_none i del)

marks_all : (n : ℕ) (del : List ℕ) → FitMarks n del → marks_in 1 n del ≡ length del
marks_all n [] h = refl
marks_all n (d ∷ del) h = ground (arith, marks_all n del h.3)

count_marks :
    (n i : ℕ) (del : List ℕ) (ms : List Message)
    → FitMarks n del
    → count_from i del ms + marks_in i (length ms) del ≡ length ms
unfolding count_from
count_marks n i del [] h = omega (arith, marks_none i del)
count_marks n i del (m ∷ ms) h =
    ground (arith, marks_split n i (length ms) del h, count_marks n (i + 1) del ms h)

length-scan_from :
    (i : ℕ) (del : List ℕ) (ms : List Message) → length (scan_from i del ms) ≡ count_from i del ms
unfolding scan_from count_from
length-scan_from i del [] = refl
length-scan_from i del (m ∷ ms) = ground (arith, length-scan_from (i + 1) del ms)

count_live : (s : Session) → FitsView s → count_from 1 s.del s.msgs + length s.del ≡ length s.msgs
count_live s h =
    omega
      (arith, count_marks (length s.msgs) 1 s.del s.msgs fits, marks_all (length s.msgs) s.del fits)
  where
    fits : FitMarks (length s.msgs) s.del
    fits = rw (← length-view s.msgs) h

-- In a logged-in session whose marks are distinct numbers of its messages, STAT counts the
-- messages that are not marked, LIST announces as many as it lists, and that number is the one
-- that STAT gives.
pub list_counts :
    (s : Session)
    → s.authd ≡ true
    → FitsView s
    → ((cmd_stat s).replies ≡ stat (length s.msgs - length s.del) (total_size s) ∷ [])
      × ((cmd_list s []).replies
          ≡ listing (pos (length (scan_from 1 s.del s.msgs))) (scan_from 1 s.del s.msgs) ∷ [])
      × (length (scan_from 1 s.del s.msgs) ≡ length s.msgs - length s.del)
unfolding cmd_stat cmd_list if_authd text_eq
list_counts s a h = ground (arith, count_live s h, length-scan_from 1 s.del s.msgs)
