-- ===== src/Lib.antt =====
-- verta, a mail server in Go: a model of its core, and theorems about it.
--
-- The parts and their files. Paths are from the repository's root.
--
-- Common (and Common/): the shared names. A Go string or byte slice is a list of bytes (Text), a map is an
-- association list in the order of iteration (Dict), sort.Slice and the hand-written sorts are an
-- insertion sort (sort_by). Case folding and white space are those of ASCII. Numbers are natural numbers;
-- where the source counts in uint32 the wrap-around is written out, and strconv.Atoi has the range of int64.
--
-- Ratelimit: internal/ratelimit/ratelimit.go. A Limiter's operation is `allow` (Limiter.Allow), with
-- `refill`, `make_room` and `take_token` for its steps. Tokens are kept exactly, multiplied by the window;
-- the rounding of float64 is not modelled. The clock is an argument.
--
-- Ratelimit.Bundles has Inbound and Outbound. Ratelimit.Governor is governor.go (NewGovernor, RcptAllowed, MsgAllowed as `new_governor`, `rcpt_allowed`,
-- `msg_allowed`) over these limiters; the order in which Go ranges over a map is an argument.
--
-- Auth: internal/auth/guard.go (Guard.Blocked, Fail, Success, prune as `blocked`, `fail`, `success`,
-- `prune`) and Authenticator.Verify of internal/auth/auth.go (`verify`), which counts failures for an
-- account and for an address. Each login is one step. The lookup of a password hash and its check are
-- parameters.
--
-- Maildir: internal/maildir. Flags is flags.go, with the flags in a file's name; Mailbox is Refresh,
-- SetFlags and Expunge of mailbox.go, with the UIDs of a folder; Delivery is DeliverWithFlags of
-- maildir.go. Directory listings and the results of file system calls are arguments. UidText is the text of
-- verta-uidlist (readUIDList, writeUIDList). Folders is the
-- folders of an account on a disk of directories (folderDir, Folders, CreateFolder, DeleteFolder and the
-- standard folders). File ownership, CopyTo and the renames within Append are not modelled.
--
-- Pop3: internal/pop3/pop3.go. Session is the state, Dots is writeDotted, Commands has a function for
-- each cmd method, Loop is `run` over lines. It works on the messages of Maildir.Mailbox, and QUIT ends in
-- its `expunge`. What the backend and the network do is a record of answers, one for each line. The
-- listener, timeouts and logging are not modelled.
--
-- Queue: internal/queue. Store is queue.go on parsed envelopes, Scheduler is scheduler.go (`attempt`,
-- `process`, `backoff`), Transport is transport.go and the addressed part of bounce.go. Which envelopes the
-- throttle holds, what a remote server answers and which file writes succeed are arguments. A bounce of the
-- scheduler is a call of its callback, which may send nothing; build_bounce has the notification. The sleeping
-- loop Run, the JSON files and the fixed text of a bounce are not modelled.
--
-- Smtp: internal/smtp. Parsing has the helpers of server.go and of session.go, Commands and Data the cmd
-- methods of session.go, Loop its `run`. The backend, the limiters, the client's further lines and the
-- network are a record of answers (Env), one for each line; what DATA does to the outside is a list of
-- effects. A forward is a call of the hook that main.go sets, which queues the message. Filters, quotas, screening and signing are answers of that record. The listener, timeouts,
-- logging and counters are not modelled.
--
-- Filter: internal/filter/filter.go (Apply as `apply`); the header parser of net/mail is a parameter.
--
-- Quota: the Manager of internal/quota/quota.go; what measuring the disk gives is an argument.
--
-- Srs: internal/srs/srs.go (Forward, Reverse as `forward`, `reverse`); the Base64 of an HMAC-SHA1 and the
-- time are parameters. Srs.Folding composes it with the RCPT command of Smtp.
--
-- Config, Storage, Routing: the records of internal/config that routing reads, internal/storage/resolver.go
-- (Split, Resolve) and internal/routing/routing.go (Resolve as `resolve`, the method resolve as `resolve_at`,
-- which counts the steps that are left down from maxDepth + 1). The user database of the system is a
-- parameter. Routing.Walking has the induction over the addresses of a plan that the theorems about it use.
--
-- Imap: internal/imap. Parsing is parse.go: tokens, quoted strings, lists, literals and sequence sets. The
-- parser's position is the text that is left; reading a literal from the connection is a parameter.
-- Commands has COPY, MOVE and EXPUNGE of fetch.go and session.go on the mailbox of Maildir, Flagging STORE;
-- what a copy does to the destination's mailbox is not modelled, only whether it succeeds. Wildcards is
-- matchPattern, SearchKeys and Searching the criteria of SEARCH (`matches`), Sections BODY[section] and its partial form, Fetching the items
-- of FETCH, their order and the flag that it sets. The numbered parts of a message are a parameter. Session
-- has the state of a connection and its guards, Login the commands before a login, Folders and Appending those on
-- folders (with the disk of Maildir.Folders), Views those on the selected mailbox and quota.go, and Loop `dispatch`
-- and `run`. The accounts, the file system and what a client sends within a command are a record (Env), one
-- for each line. Loop.Sound, Kept and Handlers lead to the invariant of Loop.Running, Loop.Cases, Harmless
-- and Accounts to Loop.Removing.
--
-- Fuel: the parser of Imap.Parsing counts the nesting and the tokens of a list, each with one more than the
-- bytes of the line; so does the loop over the arguments of APPEND. The depth bound of Routing is the program's
-- own. Maildir.UidText writes a number with one more than it as fuel. Every other loop of the program is
-- over a list. The POP3 client that the round trip of Pop3.Dots reads the answer with counts its lines, and
-- its theorem asks for as many as the answer has.
--
-- Not modelled: how FETCH writes envelopes and body structures, and finds numbered parts (mime.go); the other packages (pacing,
-- egress, reputation, blacklists and the rest), and what is pure input and output, such as logging, status, the
-- HTTP API and the checks of the host.
pub mod Common
pub mod Ratelimit
pub mod Auth
pub mod Maildir
pub mod Pop3
pub mod Queue
pub mod Smtp
pub mod Filter
pub mod Srs
pub mod Config
pub mod Storage
pub mod Routing
pub mod Imap
pub mod Quota
