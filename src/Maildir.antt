-- ===== src/Maildir.antt =====
-- internal/maildir: the flags in a file name (Flags), one folder and its UIDs (Mailbox), and the
-- delivery of a message into a folder (Delivery).
pub mod Flags
pub mod Folders
pub mod Mailbox
pub mod UidText
pub mod Delivery
mod Examples
