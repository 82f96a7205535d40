-- ===== src/Calls.antt =====
-- web-ui/server/app/domain/call_service.py: the durable turns of a live call.
pub mod Types
pub mod Rows
pub mod Reserve
pub mod Record
pub mod End
pub mod Steps
pub mod Safety
pub mod Ended
pub mod Flow
pub mod Duplicates
pub mod Closing
pub mod Pruned
mod Examples
