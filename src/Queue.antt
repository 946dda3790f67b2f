-- ===== src/Queue.antt =====
-- internal/queue: the outbound queue.
pub mod Store
pub mod Scheduler
pub mod Transport
mod Order
mod Attempts
mod Limit
mod Exhaustion
mod Hosts
mod Delivering
mod Examples
