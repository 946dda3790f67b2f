-- ===== src/Imap/Flagging.antt =====
-- STORE of internal/imap/fetch.go, on the mailbox of internal/maildir.
pub mod Stored
use verta.Imap.Commands.{
  Env, Session, Outcome, Reply, line, flags_now, say, last_uid, highest, is_chosen, chosen,
  argument, with_set, with_argument,
}
use verta.Common.{
  ◌==◌, ℕ, suc, ◌%◌, ◌^◌, String, Text, codes, Bool, true, false, ◌&&◌, not, if◌then◌else◌, List,
  [], ◌∷◌, ◌++◌, Option, none, some, text_eq, to_lower, trim_space, has_prefix, reverse, drop,
  length,
}
use verta.Maildir.Flags.{FlagSet, add, remove, deleted, flag_from_imap}
use verta.Maildir.Mailbox.{Message, Mailbox, set_flags, expunge}
use verta.Imap.Parsing.{
  Token, Tokens, no_tokens, also, text, literal_text, group, Parsed, parsed, failed, no_fuel, next,
  token_string, token_upper, parse_seq_set, set_contains,
}

pub data StoreOp : Type 0 where
  replace_flags add_flags remove_flags unknown_op : StoreOp

unfoldable pub has_suffix : Text → Text → Bool
unfolding has_prefix
has_suffix suffix s = has_prefix (reverse suffix) (reverse s)

unfoldable pub strip_silent : Text → Text
unfolding has_suffix
strip_silent op = if has_suffix (codes ".SILENT") op then reverse (drop 7 (reverse op)) else op

unfoldable pub store_op : Text → StoreOp
unfolding text_eq
store_op op =
    if text_eq op (codes "FLAGS")
    then replace_flags
    else if text_eq op (codes "+FLAGS")
    then add_flags
    else if text_eq op (codes "-FLAGS")
    then remove_flags
    else unknown_op

unfoldable pub add_imap_flag : FlagSet → Text → FlagSet
unfolding add flag_from_imap
add_imap_flag f name = elim (flag_from_imap name) [ none ↦ f | some flag ↦ add f flag ]

unfoldable pub add_imap_flags : FlagSet → Tokens → FlagSet
unfolding add_imap_flag token_string
add_imap_flags f no_tokens = f
add_imap_flags f (also t ts) = add_imap_flags (add_imap_flag f (token_string t)) ts

unfoldable pub wanted_flags : Token → FlagSet
unfolding add_imap_flags
wanted_flags (text s) = add_imap_flag [] s
wanted_flags (literal_text s) = add_imap_flag [] s
wanted_flags (group ts) = add_imap_flags [] ts

unfoldable pub add_all : FlagSet → FlagSet → FlagSet
unfolding add
add_all f [] = f
add_all f (flag ∷ flags) = add_all (add f flag) flags

unfoldable pub remove_all : FlagSet → FlagSet → FlagSet
unfolding remove
remove_all f [] = f
remove_all f (flag ∷ flags) = remove_all (remove f flag) flags

unfoldable pub stored_flags : StoreOp → FlagSet → FlagSet → Option FlagSet
unfolding add_all remove_all
stored_flags replace_flags f wanted = some wanted
stored_flags add_flags f wanted = some (add_all f wanted)
stored_flags remove_flags f wanted = some (remove_all f wanted)
stored_flags unknown_op f wanted = none

-- The messages after the loop of STORE, its replies, and whether the operation was known.
unfoldable pub store_loop :
    Env
    → StoreOp
    → Bool
    → Bool
    → FlagSet
    → (Message → Bool)
    → List Message
    → List Message × List Reply × Bool
unfolding stored_flags set_flags
store_loop e op silent uid_mode wanted p [] = ([], [], true)
store_loop e op silent uid_mode wanted p (m ∷ ms) =
    let rest = store_loop e op silent uid_mode wanted p ms in
    if not (p m) then (m ∷ rest.0, rest.1, rest.2) else (elim (stored_flags op m.flags wanted) [
      | none ↦ (m ∷ ms, [], false)
      | some f ↦ elim (set_flags (e.rename_ok m) m f) [
        | none ↦ (m ∷ rest.0, rest.1, rest.2)
        | some m' ↦
            (m' ∷ rest.0, (if silent then rest.1 else flags_now m' uid_mode ∷ rest.1), rest.2)
      ]
    ])

unfoldable pub store_set : Env → Session → Mailbox → List (ℕ × ℕ) → Text → Token → Bool → Outcome
unfolding store_loop store_op strip_silent has_suffix wanted_flags is_chosen highest
store_set e s mb set op flags uid_mode =
    let stored =
      store_loop e (store_op (strip_silent op)) (has_suffix (codes ".SILENT") op) uid_mode
        (wanted_flags flags) (is_chosen set uid_mode (highest uid_mode mb.messages)) mb.messages in
    record {
      session = record s { mbox = some (record mb { messages = stored.0 }) };
      replies =
          stored.1
          ++ line (if stored.2 then "OK STORE completed" else "BAD unknown STORE operation") ∷ [];
      copied = [];
      removed = [];
    }

unfoldable pub cmd_store : Env → Session → Text → Bool → Outcome
unfolding token_upper
cmd_store e s args uid_mode = elim s.mbox [
  | none ↦ say s "NO no mailbox selected"
  | some mb ↦ elim s.read_only [
    | true ↦ say s "NO mailbox is read-only"
    | false ↦ with_set e s "BAD STORE needs a sequence set" args (λ set rest.
        with_argument e s "BAD STORE needs an operation" rest (λ op more.
          with_argument e s "BAD STORE needs flags" more
            (λ flags after. store_set e s mb set (token_upper op) flags uid_mode)))
  ]
]
