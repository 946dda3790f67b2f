-- ===== src/Imap/Flagging/Stored.antt =====
-- The flags that STORE of internal/imap/fetch.go leaves.
use verta.Common.{
  ℕ, ◌≡◌, ◌≢◌, refl, ap, ◌∙◌, Bool, true, false, ◌&&◌, ◌||◌, not, ◌==◌, if◌then◌else◌, List, [],
  ◌∷◌, some, All, arith, Bool-cases, Option-cases, inl, inr,
}
use verta.Maildir.Flags.{FlagSet, has, add, remove}
use verta.Maildir.Flags.FileNames.{has-add, has-remove}
use verta.Maildir.Mailbox.{Message, set_flags}
use verta.Maildir.Mailbox.Expunging.{set_flags_same}
use verta.Imap.Commands.{Env}
use verta.Imap.Flagging.{
  StoreOp, replace_flags, add_flags, remove_flags, unknown_op, add_all, remove_all, stored_flags,
  store_loop,
}

-- Whether a message has a flag after an operation, from whether it had it and whether it was named.
abbrev pub flag_after : StoreOp → Bool → Bool → Bool
flag_after replace_flags had named = named
flag_after add_flags had named = named || had
flag_after remove_flags had named = not named && had
flag_after unknown_op had named = had

-- The messages after the command, in the same order: the UIDs are the same, and a flag of a message that was chosen is what the operation makes of it, while the others keep theirs.
abbrev pub Stored : StoreOp → FlagSet → (Message → Bool) → List Message → List Message → Type 0
Stored op wanted p [] [] = Unit
Stored op wanted p (m ∷ ms) (m' ∷ ms') =
    (m'.uid ≡ m.uid)
    × ((flag : ℕ)
        → has m'.flags flag
          ≡ (if p m then flag_after op (has m.flags flag) (has wanted flag) else has m.flags flag))
    × Stored op wanted p ms ms'
Stored op wanted p [] (m' ∷ ms') = ⊥
Stored op wanted p (m ∷ ms) [] = ⊥

or_step :
    (named had before this : Bool)
    → had ≡ (this || before)
    → (named || had) ≡ ((this || named) || before)
or_step named had before this h = ground (arith, h)

and_step :
    (named had before this : Bool)
    → had ≡ (not this && before)
    → (not named && had) ≡ (not (this || named) && before)
and_step named had before this h = ground (arith, h)

has-add_all :
    (f wanted : FlagSet) (flag : ℕ) → has (add_all f wanted) flag ≡ (has wanted flag || has f flag)
unfolding add_all has
has-add_all f [] flag = refl
has-add_all f (x ∷ wanted) flag =
    has-add_all (add f x) wanted flag
    ∙ or_step (has wanted flag) (has (add f x) flag) (has f flag) (x == flag) (has-add f x flag)

has-remove_all :
    (f wanted : FlagSet) (flag : ℕ)
    → has (remove_all f wanted) flag ≡ (not (has wanted flag) && has f flag)
unfolding remove_all has
has-remove_all f [] flag = refl
has-remove_all f (x ∷ wanted) flag =
    has-remove_all (remove f x) wanted flag
    ∙ and_step (has wanted flag) (has (remove f x) flag) (has f flag) (x == flag)
        (has-remove f x flag)

-- The flags that an operation gives a message.
stored_flags-flag_after :
    (op : StoreOp) (f wanted : FlagSet)
    → op ≢ unknown_op
    → (g : FlagSet) × (stored_flags op f wanted ≡ some g)
      × ((flag : ℕ) → has g flag ≡ flag_after op (has f flag) (has wanted flag))
unfolding stored_flags
stored_flags-flag_after replace_flags f wanted known = (wanted, refl, λ flag. refl)
stored_flags-flag_after add_flags f wanted known = (add_all f wanted, refl, has-add_all f wanted)
stored_flags-flag_after remove_flags f wanted known =
    (remove_all f wanted, refl, has-remove_all f wanted)
stored_flags-flag_after unknown_op f wanted known = absurd (known refl)

when_chosen : (b x y : Bool) → b ≡ true → x ≡ (if b then x else y)
when_chosen b x y h = rw h refl

when_other : (b x y : Bool) → b ≡ false → y ≡ (if b then x else y)
when_other b x y h = rw h refl

renamed-some : (m : Message) (f : FlagSet) → (m' : Message) × (set_flags true m f ≡ some m')
unfolding set_flags
renamed-some m f = elim (Option-cases (set_flags true m f)) [
  | inr (m', e) ↦ (m', e)
  | inl e ↦ ground (arith, e)
]

-- Let every rename succeed and the operation be one of FLAGS, +FLAGS and -FLAGS. After the loop
-- of STORE the mailbox has messages with the same UIDs in the same order. A message that was
-- chosen has a flag exactly if the command named it, for FLAGS; if the command named it or the
-- message had it, for +FLAGS; and if the message had it and the command did not name it, for
-- -FLAGS. The other messages have the flags that they had.
pub store_loop-Stored :
    (e : Env) (op : StoreOp) (silent uid_mode : Bool) (wanted : FlagSet) (p : Message → Bool)
    (ms : List Message)
    → op ≢ unknown_op
    → All (λ m. e.rename_ok m ≡ true) ms
    → Stored op wanted p ms (store_loop e op silent uid_mode wanted p ms).0
unfolding store_loop
store_loop-Stored e op silent uid_mode wanted p [] known renames = tt
store_loop-Stored e op silent uid_mode wanted p (m ∷ ms) known renames =
    let later = store_loop-Stored e op silent uid_mode wanted p ms known renames.1 in
    elim (Bool-cases (p m)) [
      | inr other ↦ rw (store_loop, other) (refl, λ flag. when_other (p m) _ _ other, later)
      | inl hit ↦
          let (g, flags, after) = stored_flags-flag_after op m.flags wanted known in
          let (m', set) = renamed-some m g in
          let same = set_flags_same true m m' g set in
          rw (store_loop, hit, flags, renames.0, set)
            (
              same.0,
              λ flag. ap (λ f. has f flag) same.2 ∙ after flag ∙ when_chosen (p m) _ _ hit,
              later,
            )
    ]
