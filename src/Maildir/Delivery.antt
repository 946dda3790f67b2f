-- ===== src/Maildir/Delivery.antt =====
-- DeliverWithFlags of internal/maildir/maildir.go. Which file system calls succeed is an argument,
-- and so is the unique base name; ownership (chown) is not modelled.
use verta.Common.{
  cut, refl, subst, ◌↔◌, Text, Bool, true, false, not, if◌then◌else◌, [], ◌∷◌, Option, none, some,
  ◌≡◌, arith,
}
use verta.Maildir.Flags.Canonical.{Canonical}
use verta.Maildir.Flags.FileNames.{parse_flags-file_name}
use verta.Maildir.Flags.{base_name, parse_flags, info_sep, FlagSet, file_name}
use verta.Maildir.Mailbox.{Sub, in_new, in_cur}

-- Which calls return a nil error. `written` is that the whole message was written.
pub record Calls : Type 0 where
  pub made_dirs : Bool
  pub opened : Bool
  pub written : Bool
  pub synced : Bool
  pub closed : Bool
  pub renamed : Bool

-- `if _, err := f.Write(msg); err == nil { err = f.Sync() }` declares an `err` of its own, which ends
-- with the statement: the outer `err`, true here for nil, stays what it was.
unfoldable pub after_write : Calls → Bool → Bool
after_write c err = let inner = if c.written then c.synced else false in err

-- `if cerr := f.Close(); err == nil { err = cerr }`
unfoldable pub after_close : Calls → Bool → Bool
after_close c err = if err then c.closed else false

-- A flagged message belongs in cur/.
unfoldable pub target : Text → FlagSet → Sub × Text
target base [] = (in_new, base)
target base (x ∷ flags) = (in_cur, file_name base (x ∷ flags))

-- The subdirectory and the name of the delivered file, or nothing on an error.
unfoldable pub deliver : Calls → Text → FlagSet → Option (Sub × Text)
unfolding after_write after_close
deliver c base flags =
    if not c.made_dirs
    then none
    else if not c.opened
    then none
    else if not (after_close c (after_write c true))
    then none
    else if c.renamed
    then some (target base flags)
    else none

-- The result of a delivery is that of a delivery whose message was written and synced: a write
-- that failed, or a sync that failed, is not reported.
pub deliver_unwritten :
    (c : Calls) (base : Text) (flags : FlagSet)
    → deliver c base flags ≡ deliver (record c { written = true; synced = true }) base flags
unfolding deliver
deliver_unwritten c base flags = ground arith

target_names :
    (base : Text) (flags : FlagSet)
    → cut info_sep base ≡ none
    → Canonical flags
    → (base_name (target base flags).1 ≡ base)
      × (parse_flags (target base flags).1 ≡ flags)
      × (((target base flags).0 ≡ in_new) ↔ (flags ≡ []))
unfolding target base_name parse_flags
target_names base [] h c = (rw (h, base_name), rw (h, parse_flags), (λ e. refl, λ e. refl))
target_names base (x ∷ flags) h c =
    let (flags_back, base_back) = parse_flags-file_name base (x ∷ flags) h c in
    (base_back, flags_back, (λ e. cc, λ e. cc))

-- If a delivery with a canonical flag set and a base name without the separator succeeds, the
-- file has that base name and those flags, and stands in new/ exactly if there are none.
pub deliver_names :
    (c : Calls) (base : Text) (flags : FlagSet) (sub : Sub) (name : Text)
    → cut info_sep base ≡ none
    → Canonical flags
    → deliver c base flags ≡ some (sub, name)
    → (base_name name ≡ base) × (parse_flags name ≡ flags) × ((sub ≡ in_new) ↔ (flags ≡ []))
unfolding deliver
deliver_names c base flags sub name h k d =
    let same : target base flags ≡ (sub, name) = ground arith in
    subst
      (λ (t : Sub × Text).
        (base_name t.1 ≡ base) × (parse_flags t.1 ≡ flags) × ((t.0 ≡ in_new) ↔ (flags ≡ [])))
      same (target_names base flags h k)
