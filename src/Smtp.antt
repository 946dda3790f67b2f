-- ===== src/Smtp.antt =====
-- internal/smtp: the SMTP server, on port 25 and for submission.
pub mod Parsing
pub mod Session
pub mod Commands
pub mod Data
pub mod Loop
mod Effects
mod Relay
mod Ownership
mod Transaction
mod Answered
mod LineEnds
pub mod Examples
