-- ===== src/Pop3.antt =====
-- internal/pop3/pop3.go: one POP3 session. The messages of the session are those of its mailbox,
-- which both hold by pointer, so one list stands for both. The network, the accounts and the file
-- system enter by an `Env`, which may differ from one command to the next; the hash of a UIDL is a
-- field of it. Replies are values, and carry what the formatted lines show. The accept loop, time
-- outs and logging are not modelled.
pub mod Session
pub mod Dots
pub mod Commands
pub mod Loop
mod Invariant
mod Counting
mod Deletions
mod Examples
