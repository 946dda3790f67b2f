-- ===== src/Imap.antt =====
-- internal/imap: the IMAP server. Parsing is parse.go, Commands the commands that change the mailbox in fetch.go.
pub mod Parsing
pub mod Wildcards
pub mod SearchKeys
pub mod Commands
pub mod Flagging
pub mod Searching
pub mod Sections
pub mod Fetching
mod Examples
mod Scenes
pub mod Session
pub mod Login
pub mod Folders
pub mod Appending
pub mod Views
pub mod Loop
