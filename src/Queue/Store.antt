-- ===== src/Queue/Store.antt =====
-- internal/queue/queue.go: envelopes and the on-disk store. A file that cannot be parsed is in no
-- list here; the JSON encoding is not modelled, and which file system calls succeed is an argument.
-- Times are in nanoseconds.
use verta.Common.{
  ℕ, Text, Bool, if◌then◌else◌, List, [], ◌∷◌, Option, none, some, ltb, not, ◌&&◌, text_eq, sort_by,
  to_lower,
}

pub record Envelope : Type 0 where
  pub id : Text
  pub sender : Text
  pub rcpt : Text
  pub domain : Text
  pub attempts : ℕ
  pub next_attempt : ℕ
  pub created : ℕ
  pub last_error : Text
  pub content : Text

-- Enqueue; `split` is the recipient taken apart by storage.Split, and `id` the new identifier.
unfoldable pub enqueue : Option (Text × Text) → Text → Text → Text → Text → ℕ → Option Envelope
enqueue none id sender rcpt content now = none
enqueue (some (local, domain)) id sender rcpt content now = some record {
  id = id;
  sender = to_lower sender;
  rcpt = to_lower rcpt;
  domain = domain;
  attempts = 0;
  next_attempt = now;
  created = now;
  last_error = [];
  content = content;
}

-- The envelopes of the parsable files, oldest first.
unfoldable pub load : List Envelope → List Envelope
load files = sort_by (λ e. e.created) [] files

unfoldable pub due_of : ℕ → List Envelope → List Envelope
due_of now [] = []
due_of now (e ∷ all) =
    let rest = due_of now all in if not (ltb now e.next_attempt) then e ∷ rest else rest

unfoldable pub due : List Envelope → ℕ → List Envelope
due files now = due_of now (load files)

-- The loop of Earliest, with the time found so far.
unfoldable pub earliest_from : ℕ → Option ℕ → List Envelope → Option ℕ
earliest_from now best [] = best
earliest_from now none (e ∷ all) =
    earliest_from now (if ltb now e.next_attempt then some e.next_attempt else none) all
earliest_from now (some t) (e ∷ all) =
    earliest_from now
      (if ltb now e.next_attempt && ltb e.next_attempt t then some e.next_attempt else some t) all

unfoldable pub earliest : List Envelope → ℕ → Option ℕ
earliest files now = earliest_from now none (load files)

-- Remove: the envelope's file is gone.
unfoldable pub remove : Text → List Envelope → List Envelope
remove id [] = []
remove id (e ∷ files) = let rest = remove id files in if text_eq e.id id then rest else e ∷ rest

-- Update rewrites the envelope's file, or, where the write fails, leaves it as it was.
unfoldable pub update : Bool → Envelope → List Envelope → List Envelope
update written e [] = []
update written e (f ∷ files) =
    let rest = update written e files in if written && text_eq f.id e.id then e ∷ rest else f ∷ rest
