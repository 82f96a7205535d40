-- ===== src/Session.antt =====
-- `CallSession` of ai-backend/app/call/session.py: the speech segments of a live call, its events,
-- its end, and the manager of the sessions.
pub mod Segments
pub mod Sequence
pub mod Claims
pub mod Attempts
pub mod Orderly
pub mod Granted
pub mod Single
pub mod Exclusive
pub mod Replay
pub mod Over
pub mod Late
mod Examples
pub mod Life
pub mod Turns
pub mod Transport
pub mod Calls
pub mod Outbox
pub mod Invariants
pub mod Ordered
pub mod Drain
pub mod Final
pub mod Recovery
pub mod Deaf
pub mod Manager
pub mod Retention
mod Scenarios
